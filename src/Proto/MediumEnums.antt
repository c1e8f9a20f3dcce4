-- ===== src/Proto/MediumEnums.antt =====
-- proto/offline_wire_formats.proto: the enums of mediums and Wi-Fi Direct authentication types.
use nearby_rs.Prelude.{ℕ, zero, suc, ◌≡◌, refl, Option, none, some}
use nearby_rs.Prelude.Int.{ℤ, pos, negsuc}

pub data ConnectionRequestMedium : Type 0 where
  unknown_medium mdns bluetooth wifi_hotspot ble wifi_lan wifi_aware nfc wifi_direct web_rtc
        ble_l2cap usb web_rtc_non_cellular awdl :
      ConnectionRequestMedium

abbrev pub connection_request_medium_number : ConnectionRequestMedium → ℕ
connection_request_medium_number ConnectionRequestMedium.unknown_medium = 0
connection_request_medium_number ConnectionRequestMedium.mdns = 1
connection_request_medium_number ConnectionRequestMedium.bluetooth = 2
connection_request_medium_number ConnectionRequestMedium.wifi_hotspot = 3
connection_request_medium_number ConnectionRequestMedium.ble = 4
connection_request_medium_number ConnectionRequestMedium.wifi_lan = 5
connection_request_medium_number ConnectionRequestMedium.wifi_aware = 6
connection_request_medium_number ConnectionRequestMedium.nfc = 7
connection_request_medium_number ConnectionRequestMedium.wifi_direct = 8
connection_request_medium_number ConnectionRequestMedium.web_rtc = 9
connection_request_medium_number ConnectionRequestMedium.ble_l2cap = 10
connection_request_medium_number ConnectionRequestMedium.usb = 11
connection_request_medium_number ConnectionRequestMedium.web_rtc_non_cellular = 12
connection_request_medium_number ConnectionRequestMedium.awdl = 13

abbrev pub connection_request_medium_from_number : ℕ → Option ConnectionRequestMedium
connection_request_medium_from_number zero = some ConnectionRequestMedium.unknown_medium
connection_request_medium_from_number (suc zero) = some ConnectionRequestMedium.mdns
connection_request_medium_from_number (suc (suc zero)) = some ConnectionRequestMedium.bluetooth
connection_request_medium_from_number (suc (suc (suc zero))) =
    some ConnectionRequestMedium.wifi_hotspot
connection_request_medium_from_number (suc (suc (suc (suc zero)))) =
    some ConnectionRequestMedium.ble
connection_request_medium_from_number (suc (suc (suc (suc (suc zero))))) =
    some ConnectionRequestMedium.wifi_lan
connection_request_medium_from_number (suc (suc (suc (suc (suc (suc zero)))))) =
    some ConnectionRequestMedium.wifi_aware
connection_request_medium_from_number (suc (suc (suc (suc (suc (suc (suc zero))))))) =
    some ConnectionRequestMedium.nfc
connection_request_medium_from_number (suc (suc (suc (suc (suc (suc (suc (suc zero)))))))) =
    some ConnectionRequestMedium.wifi_direct
connection_request_medium_from_number (suc (suc (suc (suc (suc (suc (suc (suc (suc zero))))))))) =
    some ConnectionRequestMedium.web_rtc
connection_request_medium_from_number
      (suc (suc (suc (suc (suc (suc (suc (suc (suc (suc zero)))))))))) =
    some ConnectionRequestMedium.ble_l2cap
connection_request_medium_from_number
      (suc (suc (suc (suc (suc (suc (suc (suc (suc (suc (suc zero))))))))))) =
    some ConnectionRequestMedium.usb
connection_request_medium_from_number
      (suc (suc (suc (suc (suc (suc (suc (suc (suc (suc (suc (suc zero)))))))))))) =
    some ConnectionRequestMedium.web_rtc_non_cellular
connection_request_medium_from_number
      (suc (suc (suc (suc (suc (suc (suc (suc (suc (suc (suc (suc (suc zero))))))))))))) =
    some ConnectionRequestMedium.awdl
connection_request_medium_from_number _ = none

abbrev pub connection_request_medium_try_from : ℤ → Option ConnectionRequestMedium
connection_request_medium_try_from (pos n) = connection_request_medium_from_number n
connection_request_medium_try_from (negsuc n) = none

pub connection_request_medium_from_number-number :
    (e : ConnectionRequestMedium)
    → connection_request_medium_from_number (connection_request_medium_number e) ≡ some e
connection_request_medium_from_number-number ConnectionRequestMedium.unknown_medium = refl
connection_request_medium_from_number-number ConnectionRequestMedium.mdns = refl
connection_request_medium_from_number-number ConnectionRequestMedium.bluetooth = refl
connection_request_medium_from_number-number ConnectionRequestMedium.wifi_hotspot = refl
connection_request_medium_from_number-number ConnectionRequestMedium.ble = refl
connection_request_medium_from_number-number ConnectionRequestMedium.wifi_lan = refl
connection_request_medium_from_number-number ConnectionRequestMedium.wifi_aware = refl
connection_request_medium_from_number-number ConnectionRequestMedium.nfc = refl
connection_request_medium_from_number-number ConnectionRequestMedium.wifi_direct = refl
connection_request_medium_from_number-number ConnectionRequestMedium.web_rtc = refl
connection_request_medium_from_number-number ConnectionRequestMedium.ble_l2cap = refl
connection_request_medium_from_number-number ConnectionRequestMedium.usb = refl
connection_request_medium_from_number-number ConnectionRequestMedium.web_rtc_non_cellular = refl
connection_request_medium_from_number-number ConnectionRequestMedium.awdl = refl

pub data UpgradePathMedium : Type 0 where
  unknown_medium mdns bluetooth wifi_hotspot ble wifi_lan wifi_aware nfc wifi_direct web_rtc usb
        web_rtc_non_cellular awdl :
      UpgradePathMedium

abbrev pub upgrade_path_medium_number : UpgradePathMedium → ℕ
upgrade_path_medium_number UpgradePathMedium.unknown_medium = 0
upgrade_path_medium_number UpgradePathMedium.mdns = 1
upgrade_path_medium_number UpgradePathMedium.bluetooth = 2
upgrade_path_medium_number UpgradePathMedium.wifi_hotspot = 3
upgrade_path_medium_number UpgradePathMedium.ble = 4
upgrade_path_medium_number UpgradePathMedium.wifi_lan = 5
upgrade_path_medium_number UpgradePathMedium.wifi_aware = 6
upgrade_path_medium_number UpgradePathMedium.nfc = 7
upgrade_path_medium_number UpgradePathMedium.wifi_direct = 8
upgrade_path_medium_number UpgradePathMedium.web_rtc = 9
upgrade_path_medium_number UpgradePathMedium.usb = 11
upgrade_path_medium_number UpgradePathMedium.web_rtc_non_cellular = 12
upgrade_path_medium_number UpgradePathMedium.awdl = 13

abbrev pub upgrade_path_medium_from_number : ℕ → Option UpgradePathMedium
upgrade_path_medium_from_number zero = some UpgradePathMedium.unknown_medium
upgrade_path_medium_from_number (suc zero) = some UpgradePathMedium.mdns
upgrade_path_medium_from_number (suc (suc zero)) = some UpgradePathMedium.bluetooth
upgrade_path_medium_from_number (suc (suc (suc zero))) = some UpgradePathMedium.wifi_hotspot
upgrade_path_medium_from_number (suc (suc (suc (suc zero)))) = some UpgradePathMedium.ble
upgrade_path_medium_from_number (suc (suc (suc (suc (suc zero))))) = some UpgradePathMedium.wifi_lan
upgrade_path_medium_from_number (suc (suc (suc (suc (suc (suc zero)))))) =
    some UpgradePathMedium.wifi_aware
upgrade_path_medium_from_number (suc (suc (suc (suc (suc (suc (suc zero))))))) =
    some UpgradePathMedium.nfc
upgrade_path_medium_from_number (suc (suc (suc (suc (suc (suc (suc (suc zero)))))))) =
    some UpgradePathMedium.wifi_direct
upgrade_path_medium_from_number (suc (suc (suc (suc (suc (suc (suc (suc (suc zero))))))))) =
    some UpgradePathMedium.web_rtc
upgrade_path_medium_from_number
      (suc (suc (suc (suc (suc (suc (suc (suc (suc (suc (suc zero))))))))))) =
    some UpgradePathMedium.usb
upgrade_path_medium_from_number
      (suc (suc (suc (suc (suc (suc (suc (suc (suc (suc (suc (suc zero)))))))))))) =
    some UpgradePathMedium.web_rtc_non_cellular
upgrade_path_medium_from_number
      (suc (suc (suc (suc (suc (suc (suc (suc (suc (suc (suc (suc (suc zero))))))))))))) =
    some UpgradePathMedium.awdl
upgrade_path_medium_from_number _ = none

abbrev pub upgrade_path_medium_try_from : ℤ → Option UpgradePathMedium
upgrade_path_medium_try_from (pos n) = upgrade_path_medium_from_number n
upgrade_path_medium_try_from (negsuc n) = none

pub upgrade_path_medium_from_number-number :
    (e : UpgradePathMedium)
    → upgrade_path_medium_from_number (upgrade_path_medium_number e) ≡ some e
upgrade_path_medium_from_number-number UpgradePathMedium.unknown_medium = refl
upgrade_path_medium_from_number-number UpgradePathMedium.mdns = refl
upgrade_path_medium_from_number-number UpgradePathMedium.bluetooth = refl
upgrade_path_medium_from_number-number UpgradePathMedium.wifi_hotspot = refl
upgrade_path_medium_from_number-number UpgradePathMedium.ble = refl
upgrade_path_medium_from_number-number UpgradePathMedium.wifi_lan = refl
upgrade_path_medium_from_number-number UpgradePathMedium.wifi_aware = refl
upgrade_path_medium_from_number-number UpgradePathMedium.nfc = refl
upgrade_path_medium_from_number-number UpgradePathMedium.wifi_direct = refl
upgrade_path_medium_from_number-number UpgradePathMedium.web_rtc = refl
upgrade_path_medium_from_number-number UpgradePathMedium.usb = refl
upgrade_path_medium_from_number-number UpgradePathMedium.web_rtc_non_cellular = refl
upgrade_path_medium_from_number-number UpgradePathMedium.awdl = refl

pub data MetadataWifiDirectAuthType : Type 0 where
  wifi_direct_type_unknown wifi_direct_with_password wifi_direct_with_pin
        wifi_direct_with_device_name :
      MetadataWifiDirectAuthType

abbrev pub metadata_wifi_direct_auth_type_number : MetadataWifiDirectAuthType → ℕ
metadata_wifi_direct_auth_type_number MetadataWifiDirectAuthType.wifi_direct_type_unknown = 0
metadata_wifi_direct_auth_type_number MetadataWifiDirectAuthType.wifi_direct_with_password = 1
metadata_wifi_direct_auth_type_number MetadataWifiDirectAuthType.wifi_direct_with_pin = 2
metadata_wifi_direct_auth_type_number MetadataWifiDirectAuthType.wifi_direct_with_device_name = 3

abbrev pub metadata_wifi_direct_auth_type_from_number : ℕ → Option MetadataWifiDirectAuthType
metadata_wifi_direct_auth_type_from_number zero =
    some MetadataWifiDirectAuthType.wifi_direct_type_unknown
metadata_wifi_direct_auth_type_from_number (suc zero) =
    some MetadataWifiDirectAuthType.wifi_direct_with_password
metadata_wifi_direct_auth_type_from_number (suc (suc zero)) =
    some MetadataWifiDirectAuthType.wifi_direct_with_pin
metadata_wifi_direct_auth_type_from_number (suc (suc (suc zero))) =
    some MetadataWifiDirectAuthType.wifi_direct_with_device_name
metadata_wifi_direct_auth_type_from_number _ = none

abbrev pub metadata_wifi_direct_auth_type_try_from : ℤ → Option MetadataWifiDirectAuthType
metadata_wifi_direct_auth_type_try_from (pos n) = metadata_wifi_direct_auth_type_from_number n
metadata_wifi_direct_auth_type_try_from (negsuc n) = none

pub metadata_wifi_direct_auth_type_from_number-number :
    (e : MetadataWifiDirectAuthType)
    → metadata_wifi_direct_auth_type_from_number (metadata_wifi_direct_auth_type_number e) ≡ some e
metadata_wifi_direct_auth_type_from_number-number
      MetadataWifiDirectAuthType.wifi_direct_type_unknown =
    refl
metadata_wifi_direct_auth_type_from_number-number
      MetadataWifiDirectAuthType.wifi_direct_with_password =
    refl
metadata_wifi_direct_auth_type_from_number-number MetadataWifiDirectAuthType.wifi_direct_with_pin =
    refl
metadata_wifi_direct_auth_type_from_number-number
      MetadataWifiDirectAuthType.wifi_direct_with_device_name =
    refl
