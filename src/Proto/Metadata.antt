-- ===== src/Proto/Metadata.antt =====
-- proto/offline_wire_formats.proto: medium metadata, roles, hints and addresses.
use nearby_rs.Prelude.{Bool, Option, none, List, [], Str, Bytes}
use nearby_rs.Prelude.Int.{ℤ}

pub record AvailableChannels : Type 0 where
  pub channels : List ℤ

abbrev pub empty_available_channels : AvailableChannels
empty_available_channels = record { channels = [] }

pub record WifiDirectCliUsableChannels : Type 0 where
  pub channels : List ℤ

abbrev pub empty_wifi_direct_cli_usable_channels : WifiDirectCliUsableChannels
empty_wifi_direct_cli_usable_channels = record { channels = [] }

pub record WifiLanUsableChannels : Type 0 where
  pub channels : List ℤ

abbrev pub empty_wifi_lan_usable_channels : WifiLanUsableChannels
empty_wifi_lan_usable_channels = record { channels = [] }

pub record WifiAwareUsableChannels : Type 0 where
  pub channels : List ℤ

abbrev pub empty_wifi_aware_usable_channels : WifiAwareUsableChannels
empty_wifi_aware_usable_channels = record { channels = [] }

pub record WifiHotspotStaUsableChannels : Type 0 where
  pub channels : List ℤ

abbrev pub empty_wifi_hotspot_sta_usable_channels : WifiHotspotStaUsableChannels
empty_wifi_hotspot_sta_usable_channels = record { channels = [] }

pub record MediumRole : Type 0 where
  pub support_wifi_direct_group_owner : Option Bool
  pub support_wifi_direct_group_client : Option Bool
  pub support_wifi_hotspot_host : Option Bool
  pub support_wifi_hotspot_client : Option Bool
  pub support_wifi_aware_publisher : Option Bool
  pub support_wifi_aware_subscriber : Option Bool
  pub support_awdl_publisher : Option Bool
  pub support_awdl_subscriber : Option Bool

abbrev pub empty_medium_role : MediumRole
empty_medium_role = record {
  support_wifi_direct_group_owner = none;
  support_wifi_direct_group_client = none;
  support_wifi_hotspot_host = none;
  support_wifi_hotspot_client = none;
  support_wifi_aware_publisher = none;
  support_wifi_aware_subscriber = none;
  support_awdl_publisher = none;
  support_awdl_subscriber = none;
}

pub record MediumMetadata : Type 0 where
  pub supports_5_ghz : Option Bool
  pub bssid : Option Str
  pub ip_address : Option Bytes
  pub supports_6_ghz : Option Bool
  pub mobile_radio : Option Bool
  pub ap_frequency : Option ℤ
  pub available_channels : Option AvailableChannels
  pub wifi_direct_cli_usable_channels : Option WifiDirectCliUsableChannels
  pub wifi_lan_usable_channels : Option WifiLanUsableChannels
  pub wifi_aware_usable_channels : Option WifiAwareUsableChannels
  pub wifi_hotspot_sta_usable_channels : Option WifiHotspotStaUsableChannels
  pub medium_role : Option MediumRole
  pub supported_wifi_direct_auth_types : List ℤ

abbrev pub empty_medium_metadata : MediumMetadata
empty_medium_metadata = record {
  supports_5_ghz = none;
  bssid = none;
  ip_address = none;
  supports_6_ghz = none;
  mobile_radio = none;
  ap_frequency = none;
  available_channels = none;
  wifi_direct_cli_usable_channels = none;
  wifi_lan_usable_channels = none;
  wifi_aware_usable_channels = none;
  wifi_hotspot_sta_usable_channels = none;
  medium_role = none;
  supported_wifi_direct_auth_types = [];
}

pub record LocationHint : Type 0 where
  pub location : Option Str
  pub format : Option ℤ

abbrev pub empty_location_hint : LocationHint
empty_location_hint = record { location = none; format = none }

pub record OsInfo : Type 0 where
  pub type : Option ℤ

abbrev pub empty_os_info : OsInfo
empty_os_info = record { type = none }

pub record ServiceAddress : Type 0 where
  pub ip_address : Option Bytes
  pub port : Option ℤ

abbrev pub empty_service_address : ServiceAddress
empty_service_address = record { ip_address = none; port = none }
