-- ===== src/Frames/Upgrade.antt =====
-- frames.rs: the builders of bandwidth upgrade negotiation frames. Each path-available builder
-- encodes an `UpgradePathInfo`, which is a definition of its own here.
use nearby_rs.Prelude.{
  Bool, true, Option, none, some, List, map, Bytes, Str, nat_beq, if◌then◌else◌, length, is_empty,
  last,
}
use nearby_rs.Prelude.Int.{ℤ, pos}
use nearby_rs.Mediums.{Medium}
use nearby_rs.Proto.FrameEnums.{FrameType, EventType, event_type_number}
use nearby_rs.Proto.MediumEnums.{UpgradePathMedium, upgrade_path_medium_number}
use nearby_rs.Proto.Metadata
use nearby_rs.Proto.Metadata.{MediumRole, empty_medium_metadata, LocationHint}
use nearby_rs.Proto.Upgrade.{
  WifiHotspotCredentials, WifiLanSocket, empty_wifi_lan_socket, empty_wifi_direct_credentials,
  UpgradePathInfo, empty_upgrade_path_info, ClientIntroduction, BandwidthUpgradeNegotiationFrame,
  empty_bandwidth_upgrade_negotiation_frame,
}
use nearby_rs.Proto.Codec.{Codec}
use nearby_rs.Frames.Defs.{ServiceAddress}
use nearby_rs.Frames.Mediums.{medium_to_upgrade_path_info_medium}
use nearby_rs.Frames.Parse.{encode_v1}

unfoldable pub service_address_to_proto : ServiceAddress → Metadata.ServiceAddress
service_address_to_proto addr = record { ip_address = some addr.address; port = some addr.port }

abbrev medium_field : UpgradePathMedium → Option ℤ
medium_field m = some (pos (upgrade_path_medium_number m))

abbrev when_nonempty : Str → Option Str
when_nonempty s = if is_empty s then none else some s

unfoldable pub wifi_hotspot_path : WifiHotspotCredentials → Bool → UpgradePathInfo
wifi_hotspot_path credentials supports_disabling_encryption = record empty_upgrade_path_info {
  medium = medium_field UpgradePathMedium.wifi_hotspot;
  supports_client_introduction_ack = some true;
  supports_disabling_encryption = some supports_disabling_encryption;
  wifi_hotspot_credentials = some credentials;
}

-- The socket of a WIFI_LAN path: the last address, if it is an IPv4 address, and all candidates.
unfoldable pub wifi_lan_socket_of : List ServiceAddress → WifiLanSocket
unfolding service_address_to_proto
wifi_lan_socket_of addresses = elim (last addresses) [
  | none ↦ empty_wifi_lan_socket
  | some last_address ↦
      let is_ipv4 = nat_beq (length last_address.address) 4 in
      record {
        ip_address = if is_ipv4 then some last_address.address else none;
        wifi_port = if is_ipv4 then some last_address.port else none;
        address_candidates = map service_address_to_proto addresses;
      }
]

unfoldable pub wifi_lan_path : List ServiceAddress → UpgradePathInfo
unfolding wifi_lan_socket_of
wifi_lan_path addresses = record empty_upgrade_path_info {
  medium = medium_field UpgradePathMedium.wifi_lan;
  supports_client_introduction_ack = some true;
  wifi_lan_socket = some (wifi_lan_socket_of addresses);
}

unfoldable pub awdl_path : Str → Str → Str → Bool → UpgradePathInfo
awdl_path service_name service_type password supports_disabling_encryption =
    record empty_upgrade_path_info {
      medium = medium_field UpgradePathMedium.awdl;
      supports_client_introduction_ack = some true;
      supports_disabling_encryption = some supports_disabling_encryption;
      awdl_credentials = some (record {
        service_name = some service_name;
        service_type = some service_type;
        password = some password;
      });
    }

unfoldable pub wifi_aware_path : Str → Bytes → Str → Bool → UpgradePathInfo
wifi_aware_path service_id service_info password supports_disabling_encryption =
    record empty_upgrade_path_info {
      medium = medium_field UpgradePathMedium.wifi_aware;
      supports_client_introduction_ack = some true;
      supports_disabling_encryption = some supports_disabling_encryption;
      wifi_aware_credentials = some (record {
        service_id = some service_id;
        service_info = some service_info;
        password = when_nonempty password;
      });
    }

unfoldable pub wifi_direct_path : Str → Str → ℤ → ℤ → Bool → Str → Str → Str → UpgradePathInfo
wifi_direct_path ssid password port frequency supports_disabling_encryption gateway device_name
      pin =
    record empty_upgrade_path_info {
      medium = medium_field UpgradePathMedium.wifi_direct;
      supports_client_introduction_ack = some true;
      supports_disabling_encryption = some supports_disabling_encryption;
      wifi_direct_credentials = some (record empty_wifi_direct_credentials {
        ssid = some ssid;
        password = some password;
        port = some port;
        frequency = some frequency;
        gateway = some gateway;
        device_name = some device_name;
        pin = some pin;
      });
    }

unfoldable pub bluetooth_path : Str → Str → UpgradePathInfo
bluetooth_path service_id mac_address = record empty_upgrade_path_info {
  medium = medium_field UpgradePathMedium.bluetooth;
  supports_client_introduction_ack = some true;
  bluetooth_credentials =
      some (record { service_name = some service_id; mac_address = some mac_address });
}

unfoldable pub webrtc_path : Str → LocationHint → UpgradePathInfo
webrtc_path peer_id location_hint = record empty_upgrade_path_info {
  medium = medium_field UpgradePathMedium.web_rtc;
  supports_client_introduction_ack = some true;
  web_rtc_credentials =
      some (record { peer_id = some peer_id; location_hint = some location_hint });
}

unfoldable pub path_request : Medium → List Medium → MediumRole → UpgradePathInfo
unfolding medium_to_upgrade_path_info_medium
path_request medium mediums medium_role = record empty_upgrade_path_info {
  medium = medium_field (medium_to_upgrade_path_info_medium medium);
  upgrade_path_request = some (record {
    mediums =
        map (λ m. pos (upgrade_path_medium_number (medium_to_upgrade_path_info_medium m))) mediums;
    medium_meta_data = some (record empty_medium_metadata { medium_role = some medium_role });
  });
}

unfoldable pub introduction : Str → Str → Bool → ClientIntroduction
introduction endpoint_id last_endpoint_id supports_disabling_encryption = record {
  endpoint_id = some endpoint_id;
  supports_disabling_encryption = some supports_disabling_encryption;
  last_endpoint_id = when_nonempty last_endpoint_id;
}

-- A negotiation frame with an event type and nothing else.
abbrev pub event_frame : EventType → BandwidthUpgradeNegotiationFrame
event_frame event_type = record empty_bandwidth_upgrade_negotiation_frame {
  event_type = some (pos (event_type_number event_type));
}

module _ (codec : Codec) where
  abbrev pub negotiation : BandwidthUpgradeNegotiationFrame → Bytes
  negotiation sub =
      encode_v1 codec FrameType.bandwidth_upgrade_negotiation
        λ v1. record v1 { bandwidth_upgrade_negotiation = some sub }

  unfoldable pub bwu_upgrade_path_available : UpgradePathInfo → Bytes
  bwu_upgrade_path_available upgrade_path_info =
      negotiation (record (event_frame EventType.upgrade_path_available) {
        upgrade_path_info = some upgrade_path_info;
      })

  unfoldable pub for_bwu_wifi_hotspot_path_available : WifiHotspotCredentials → Bool → Bytes
  unfolding bwu_upgrade_path_available wifi_hotspot_path
  for_bwu_wifi_hotspot_path_available credentials supports_disabling_encryption =
      bwu_upgrade_path_available (wifi_hotspot_path credentials supports_disabling_encryption)

  unfoldable pub for_bwu_wifi_lan_path_available : List ServiceAddress → Bytes
  unfolding bwu_upgrade_path_available wifi_lan_path
  for_bwu_wifi_lan_path_available addresses = bwu_upgrade_path_available (wifi_lan_path addresses)

  unfoldable pub for_bwu_awdl_path_available : Str → Str → Str → Bool → Bytes
  unfolding bwu_upgrade_path_available awdl_path
  for_bwu_awdl_path_available service_name service_type password disabling =
      bwu_upgrade_path_available (awdl_path service_name service_type password disabling)

  unfoldable pub for_bwu_wifi_aware_path_available : Str → Bytes → Str → Bool → Bytes
  unfolding bwu_upgrade_path_available wifi_aware_path
  for_bwu_wifi_aware_path_available service_id service_info password disabling =
      bwu_upgrade_path_available (wifi_aware_path service_id service_info password disabling)

  unfoldable pub for_bwu_wifi_direct_path_available :
      Str → Str → ℤ → ℤ → Bool → Str → Str → Str → Bytes
  unfolding bwu_upgrade_path_available wifi_direct_path
  for_bwu_wifi_direct_path_available ssid password port frequency disabling gateway device_name
        pin =
      bwu_upgrade_path_available
        (wifi_direct_path ssid password port frequency disabling gateway device_name pin)

  unfoldable pub for_bwu_bluetooth_path_available : Str → Str → Bytes
  unfolding bwu_upgrade_path_available bluetooth_path
  for_bwu_bluetooth_path_available service_id mac_address =
      bwu_upgrade_path_available (bluetooth_path service_id mac_address)

  unfoldable pub for_bwu_webrtc_path_available : Str → LocationHint → Bytes
  unfolding bwu_upgrade_path_available webrtc_path
  for_bwu_webrtc_path_available peer_id location_hint =
      bwu_upgrade_path_available (webrtc_path peer_id location_hint)

  unfoldable pub for_bwu_failure : UpgradePathInfo → Bytes
  for_bwu_failure info =
      negotiation (record (event_frame EventType.upgrade_failure) { upgrade_path_info = some info })

  unfoldable pub for_bwu_last_write : Bytes
  for_bwu_last_write = negotiation (event_frame EventType.last_write_to_prior_channel)

  unfoldable pub for_bwu_safe_to_close : Bytes
  for_bwu_safe_to_close = negotiation (event_frame EventType.safe_to_close_prior_channel)

  unfoldable pub for_bwu_introduction : Str → Str → Bool → Bytes
  unfolding introduction
  for_bwu_introduction endpoint_id last_endpoint_id supports_disabling_encryption =
      negotiation (record (event_frame EventType.client_introduction) {
        client_introduction =
            some (introduction endpoint_id last_endpoint_id supports_disabling_encryption);
      })

  unfoldable pub for_bwu_introduction_ack : Bytes
  for_bwu_introduction_ack = negotiation (event_frame EventType.client_introduction_ack)

  unfoldable pub for_bwu_path_request : Medium → List Medium → MediumRole → Bytes
  unfolding path_request
  for_bwu_path_request medium mediums medium_role =
      negotiation (record (event_frame EventType.upgrade_path_request) {
        upgrade_path_info = some (path_request medium mediums medium_role);
      })
