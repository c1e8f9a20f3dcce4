-- ===== src/Frames/Mediums.antt =====
-- frames.rs: the conversions between `Medium` and the enums of the wire messages.
use nearby_rs.Prelude.{List, map, unwrap_or}
use nearby_rs.Prelude.Int.{ℤ}
use nearby_rs.Mediums.{Medium, WifiDirectAuthType}
use nearby_rs.Proto.MediumEnums.{
  ConnectionRequestMedium, connection_request_medium_try_from, UpgradePathMedium,
  MetadataWifiDirectAuthType, metadata_wifi_direct_auth_type_try_from,
}
use nearby_rs.Proto.Metadata.{MediumMetadata}
use nearby_rs.Proto.Connection.{ConnectionRequestFrame}

unfoldable pub medium_to_connection_request_medium : Medium → ConnectionRequestMedium
medium_to_connection_request_medium Medium.unknown_medium = ConnectionRequestMedium.unknown_medium
medium_to_connection_request_medium Medium.mdns = ConnectionRequestMedium.mdns
medium_to_connection_request_medium Medium.bluetooth = ConnectionRequestMedium.bluetooth
medium_to_connection_request_medium Medium.wifi_hotspot = ConnectionRequestMedium.wifi_hotspot
medium_to_connection_request_medium Medium.ble = ConnectionRequestMedium.ble
medium_to_connection_request_medium Medium.wifi_lan = ConnectionRequestMedium.wifi_lan
medium_to_connection_request_medium Medium.wifi_aware = ConnectionRequestMedium.wifi_aware
medium_to_connection_request_medium Medium.nfc = ConnectionRequestMedium.nfc
medium_to_connection_request_medium Medium.wifi_direct = ConnectionRequestMedium.wifi_direct
medium_to_connection_request_medium Medium.web_rtc = ConnectionRequestMedium.web_rtc
medium_to_connection_request_medium Medium.ble_l2cap = ConnectionRequestMedium.ble_l2cap
medium_to_connection_request_medium Medium.usb = ConnectionRequestMedium.usb
medium_to_connection_request_medium Medium.web_rtc_non_cellular =
    ConnectionRequestMedium.web_rtc_non_cellular
medium_to_connection_request_medium Medium.awdl = ConnectionRequestMedium.awdl

unfoldable pub connection_request_medium_to_medium : ConnectionRequestMedium → Medium
connection_request_medium_to_medium ConnectionRequestMedium.unknown_medium = Medium.unknown_medium
connection_request_medium_to_medium ConnectionRequestMedium.mdns = Medium.mdns
connection_request_medium_to_medium ConnectionRequestMedium.bluetooth = Medium.bluetooth
connection_request_medium_to_medium ConnectionRequestMedium.wifi_hotspot = Medium.wifi_hotspot
connection_request_medium_to_medium ConnectionRequestMedium.ble = Medium.ble
connection_request_medium_to_medium ConnectionRequestMedium.wifi_lan = Medium.wifi_lan
connection_request_medium_to_medium ConnectionRequestMedium.wifi_aware = Medium.wifi_aware
connection_request_medium_to_medium ConnectionRequestMedium.nfc = Medium.nfc
connection_request_medium_to_medium ConnectionRequestMedium.wifi_direct = Medium.wifi_direct
connection_request_medium_to_medium ConnectionRequestMedium.web_rtc = Medium.web_rtc
connection_request_medium_to_medium ConnectionRequestMedium.ble_l2cap = Medium.ble_l2cap
connection_request_medium_to_medium ConnectionRequestMedium.usb = Medium.usb
connection_request_medium_to_medium ConnectionRequestMedium.web_rtc_non_cellular =
    Medium.web_rtc_non_cellular
connection_request_medium_to_medium ConnectionRequestMedium.awdl = Medium.awdl

unfoldable pub medium_to_upgrade_path_info_medium : Medium → UpgradePathMedium
medium_to_upgrade_path_info_medium Medium.unknown_medium = UpgradePathMedium.unknown_medium
medium_to_upgrade_path_info_medium Medium.mdns = UpgradePathMedium.mdns
medium_to_upgrade_path_info_medium Medium.bluetooth = UpgradePathMedium.bluetooth
medium_to_upgrade_path_info_medium Medium.wifi_hotspot = UpgradePathMedium.wifi_hotspot
medium_to_upgrade_path_info_medium Medium.ble = UpgradePathMedium.ble
medium_to_upgrade_path_info_medium Medium.wifi_lan = UpgradePathMedium.wifi_lan
medium_to_upgrade_path_info_medium Medium.wifi_aware = UpgradePathMedium.wifi_aware
medium_to_upgrade_path_info_medium Medium.nfc = UpgradePathMedium.nfc
medium_to_upgrade_path_info_medium Medium.wifi_direct = UpgradePathMedium.wifi_direct
medium_to_upgrade_path_info_medium Medium.web_rtc = UpgradePathMedium.web_rtc
medium_to_upgrade_path_info_medium Medium.ble_l2cap = UpgradePathMedium.unknown_medium
medium_to_upgrade_path_info_medium Medium.usb = UpgradePathMedium.usb
medium_to_upgrade_path_info_medium Medium.web_rtc_non_cellular =
    UpgradePathMedium.web_rtc_non_cellular
medium_to_upgrade_path_info_medium Medium.awdl = UpgradePathMedium.awdl

unfoldable pub upgrade_path_info_medium_to_medium : UpgradePathMedium → Medium
upgrade_path_info_medium_to_medium UpgradePathMedium.unknown_medium = Medium.unknown_medium
upgrade_path_info_medium_to_medium UpgradePathMedium.mdns = Medium.mdns
upgrade_path_info_medium_to_medium UpgradePathMedium.bluetooth = Medium.bluetooth
upgrade_path_info_medium_to_medium UpgradePathMedium.wifi_hotspot = Medium.wifi_hotspot
upgrade_path_info_medium_to_medium UpgradePathMedium.ble = Medium.ble
upgrade_path_info_medium_to_medium UpgradePathMedium.wifi_lan = Medium.wifi_lan
upgrade_path_info_medium_to_medium UpgradePathMedium.wifi_aware = Medium.wifi_aware
upgrade_path_info_medium_to_medium UpgradePathMedium.nfc = Medium.nfc
upgrade_path_info_medium_to_medium UpgradePathMedium.wifi_direct = Medium.wifi_direct
upgrade_path_info_medium_to_medium UpgradePathMedium.web_rtc = Medium.web_rtc
upgrade_path_info_medium_to_medium UpgradePathMedium.usb = Medium.usb
upgrade_path_info_medium_to_medium UpgradePathMedium.web_rtc_non_cellular =
    Medium.web_rtc_non_cellular
upgrade_path_info_medium_to_medium UpgradePathMedium.awdl = Medium.awdl

connection_request_number_to_medium : ℤ → Medium
unfolding connection_request_medium_to_medium
connection_request_number_to_medium int_medium = connection_request_medium_to_medium (
    unwrap_or (connection_request_medium_try_from int_medium)
      ConnectionRequestMedium.unknown_medium)

unfoldable pub connection_request_mediums_to_mediums : ConnectionRequestFrame → List Medium
unfolding connection_request_number_to_medium
connection_request_mediums_to_mediums frame = map connection_request_number_to_medium frame.mediums

unfoldable pub wfd_auth_type_to_medium_metadata_wfd_auth_type :
    WifiDirectAuthType → MetadataWifiDirectAuthType
wfd_auth_type_to_medium_metadata_wfd_auth_type WifiDirectAuthType.wifi_direct_with_password =
    MetadataWifiDirectAuthType.wifi_direct_with_password
wfd_auth_type_to_medium_metadata_wfd_auth_type WifiDirectAuthType.wifi_direct_with_device_name =
    MetadataWifiDirectAuthType.wifi_direct_with_device_name
wfd_auth_type_to_medium_metadata_wfd_auth_type _ =
    MetadataWifiDirectAuthType.wifi_direct_type_unknown

unfoldable pub medium_metadata_wfd_auth_type_to_wfd_auth_type :
    MetadataWifiDirectAuthType → WifiDirectAuthType
medium_metadata_wfd_auth_type_to_wfd_auth_type
      MetadataWifiDirectAuthType.wifi_direct_with_password =
    WifiDirectAuthType.wifi_direct_with_password
medium_metadata_wfd_auth_type_to_wfd_auth_type
      MetadataWifiDirectAuthType.wifi_direct_with_device_name =
    WifiDirectAuthType.wifi_direct_with_device_name
medium_metadata_wfd_auth_type_to_wfd_auth_type _ = WifiDirectAuthType.wifi_direct_type_unknown

auth_type_of_number : ℤ → WifiDirectAuthType
unfolding medium_metadata_wfd_auth_type_to_wfd_auth_type
auth_type_of_number int_type = medium_metadata_wfd_auth_type_to_wfd_auth_type (
    unwrap_or (metadata_wifi_direct_auth_type_try_from int_type)
      MetadataWifiDirectAuthType.wifi_direct_type_unknown)

unfoldable pub medium_metadata_wfd_auth_types_to_wfd_auth_types :
    MediumMetadata → List WifiDirectAuthType
unfolding auth_type_of_number
medium_metadata_wfd_auth_types_to_wfd_auth_types medium_metadata =
    map auth_type_of_number medium_metadata.supported_wifi_direct_auth_types
