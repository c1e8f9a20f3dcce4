-- ===== src/Proto/Upgrade.antt =====
-- proto/offline_wire_formats.proto: bandwidth upgrade negotiation.
use nearby_rs.Prelude.{Bool, Option, none, List, [], Str, Bytes}
use nearby_rs.Prelude.Int.{ℤ}
use nearby_rs.Proto.Metadata.{LocationHint, MediumMetadata, ServiceAddress}

pub record WifiHotspotCredentials : Type 0 where
  pub ssid : Option Str
  pub password : Option Str
  pub port : Option ℤ
  pub gateway : Option Str
  pub frequency : Option ℤ
  pub address_candidates : List ServiceAddress

abbrev pub empty_wifi_hotspot_credentials : WifiHotspotCredentials
empty_wifi_hotspot_credentials = record {
  ssid = none;
  password = none;
  port = none;
  gateway = none;
  frequency = none;
  address_candidates = [];
}

pub record WifiLanSocket : Type 0 where
  pub ip_address : Option Bytes
  pub wifi_port : Option ℤ
  pub address_candidates : List ServiceAddress

abbrev pub empty_wifi_lan_socket : WifiLanSocket
empty_wifi_lan_socket = record { ip_address = none; wifi_port = none; address_candidates = [] }

pub record BluetoothCredentials : Type 0 where
  pub service_name : Option Str
  pub mac_address : Option Str

abbrev pub empty_bluetooth_credentials : BluetoothCredentials
empty_bluetooth_credentials = record { service_name = none; mac_address = none }

pub record WifiAwareCredentials : Type 0 where
  pub service_id : Option Str
  pub service_info : Option Bytes
  pub password : Option Str

abbrev pub empty_wifi_aware_credentials : WifiAwareCredentials
empty_wifi_aware_credentials = record { service_id = none; service_info = none; password = none }

pub record WifiDirectCredentials : Type 0 where
  pub ssid : Option Str
  pub password : Option Str
  pub port : Option ℤ
  pub frequency : Option ℤ
  pub gateway : Option Str
  pub ip_v6_address : Option Bytes
  pub service_name : Option Str
  pub device_name : Option Str
  pub pin : Option Str

abbrev pub empty_wifi_direct_credentials : WifiDirectCredentials
empty_wifi_direct_credentials = record {
  ssid = none;
  password = none;
  port = none;
  frequency = none;
  gateway = none;
  ip_v6_address = none;
  service_name = none;
  device_name = none;
  pin = none;
}

pub record WebRtcCredentials : Type 0 where
  pub peer_id : Option Str
  pub location_hint : Option LocationHint

abbrev pub empty_web_rtc_credentials : WebRtcCredentials
empty_web_rtc_credentials = record { peer_id = none; location_hint = none }

pub record AwdlCredentials : Type 0 where
  pub service_name : Option Str
  pub service_type : Option Str
  pub password : Option Str

abbrev pub empty_awdl_credentials : AwdlCredentials
empty_awdl_credentials = record { service_name = none; service_type = none; password = none }

pub record UpgradePathRequest : Type 0 where
  pub mediums : List ℤ
  pub medium_meta_data : Option MediumMetadata

abbrev pub empty_upgrade_path_request : UpgradePathRequest
empty_upgrade_path_request = record { mediums = []; medium_meta_data = none }

pub record UpgradePathInfo : Type 0 where
  pub medium : Option ℤ
  pub wifi_hotspot_credentials : Option WifiHotspotCredentials
  pub wifi_lan_socket : Option WifiLanSocket
  pub bluetooth_credentials : Option BluetoothCredentials
  pub wifi_aware_credentials : Option WifiAwareCredentials
  pub wifi_direct_credentials : Option WifiDirectCredentials
  pub web_rtc_credentials : Option WebRtcCredentials
  pub awdl_credentials : Option AwdlCredentials
  pub supports_disabling_encryption : Option Bool
  pub supports_client_introduction_ack : Option Bool
  pub upgrade_path_request : Option UpgradePathRequest

abbrev pub empty_upgrade_path_info : UpgradePathInfo
empty_upgrade_path_info = record {
  medium = none;
  wifi_hotspot_credentials = none;
  wifi_lan_socket = none;
  bluetooth_credentials = none;
  wifi_aware_credentials = none;
  wifi_direct_credentials = none;
  web_rtc_credentials = none;
  awdl_credentials = none;
  supports_disabling_encryption = none;
  supports_client_introduction_ack = none;
  upgrade_path_request = none;
}

pub record ClientIntroduction : Type 0 where
  pub endpoint_id : Option Str
  pub supports_disabling_encryption : Option Bool
  pub last_endpoint_id : Option Str

abbrev pub empty_client_introduction : ClientIntroduction
empty_client_introduction = record {
  endpoint_id = none;
  supports_disabling_encryption = none;
  last_endpoint_id = none;
}

pub record ClientIntroductionAck : Type 0 where

abbrev pub empty_client_introduction_ack : ClientIntroductionAck
empty_client_introduction_ack = record {}

pub record SafeToClosePriorChannel : Type 0 where
  pub sta_frequency : Option ℤ

abbrev pub empty_safe_to_close_prior_channel : SafeToClosePriorChannel
empty_safe_to_close_prior_channel = record { sta_frequency = none }

pub record BandwidthUpgradeNegotiationFrame : Type 0 where
  pub event_type : Option ℤ
  pub upgrade_path_info : Option UpgradePathInfo
  pub client_introduction : Option ClientIntroduction
  pub client_introduction_ack : Option ClientIntroductionAck
  pub safe_to_close_prior_channel : Option SafeToClosePriorChannel

abbrev pub empty_bandwidth_upgrade_negotiation_frame : BandwidthUpgradeNegotiationFrame
empty_bandwidth_upgrade_negotiation_frame = record {
  event_type = none;
  upgrade_path_info = none;
  client_introduction = none;
  client_introduction_ack = none;
  safe_to_close_prior_channel = none;
}
