-- ===== src/Proto/Sample/Metadata.antt =====
-- A serial form of the messages of Proto/Metadata, for the sample codec.
use nearby_rs.Prelude.{refl, Bool, Option, List, Str, Bytes}
use nearby_rs.Prelude.Int.{ℤ}
use nearby_rs.Prelude.Serial.{
  Serial, int_serial, bool_serial, bytes_serial, option_serial, list_serial, pair_serial,
  iso_serial,
}
use nearby_rs.Proto.Metadata.{
  AvailableChannels, WifiDirectCliUsableChannels, WifiLanUsableChannels, WifiAwareUsableChannels,
  WifiHotspotStaUsableChannels, MediumRole, MediumMetadata, LocationHint, OsInfo, ServiceAddress,
}

pub available_channels_serial : Serial AvailableChannels
available_channels_serial =
    iso_serial {B = List ℤ} (λ r. r.channels) (λ t. record { channels = t }) (λ _. refl)
      (list_serial int_serial)

pub wifi_direct_cli_usable_channels_serial : Serial WifiDirectCliUsableChannels
wifi_direct_cli_usable_channels_serial =
    iso_serial {B = List ℤ} (λ r. r.channels) (λ t. record { channels = t }) (λ _. refl)
      (list_serial int_serial)

pub wifi_lan_usable_channels_serial : Serial WifiLanUsableChannels
wifi_lan_usable_channels_serial =
    iso_serial {B = List ℤ} (λ r. r.channels) (λ t. record { channels = t }) (λ _. refl)
      (list_serial int_serial)

pub wifi_aware_usable_channels_serial : Serial WifiAwareUsableChannels
wifi_aware_usable_channels_serial =
    iso_serial {B = List ℤ} (λ r. r.channels) (λ t. record { channels = t }) (λ _. refl)
      (list_serial int_serial)

pub wifi_hotspot_sta_usable_channels_serial : Serial WifiHotspotStaUsableChannels
wifi_hotspot_sta_usable_channels_serial =
    iso_serial {B = List ℤ} (λ r. r.channels) (λ t. record { channels = t }) (λ _. refl)
      (list_serial int_serial)

pub medium_role_serial : Serial MediumRole
medium_role_serial =
    iso_serial
      {B = (Option Bool)
        × ((Option Bool)
            × ((Option Bool)
                × ((Option Bool)
                    × ((Option Bool) × ((Option Bool) × ((Option Bool) × (Option Bool)))))))}
      (λ r. (
        r.support_wifi_direct_group_owner,
        (
          r.support_wifi_direct_group_client,
          (
            r.support_wifi_hotspot_host,
            (
              r.support_wifi_hotspot_client,
              (
                r.support_wifi_aware_publisher,
                (
                  r.support_wifi_aware_subscriber,
                  (r.support_awdl_publisher, r.support_awdl_subscriber),
                ),
              ),
            ),
          ),
        ),
      ))
      (λ t. record {
        support_wifi_direct_group_owner = t.0;
        support_wifi_direct_group_client = t.1.0;
        support_wifi_hotspot_host = t.1.1.0;
        support_wifi_hotspot_client = t.1.1.1.0;
        support_wifi_aware_publisher = t.1.1.1.1.0;
        support_wifi_aware_subscriber = t.1.1.1.1.1.0;
        support_awdl_publisher = t.1.1.1.1.1.1.0;
        support_awdl_subscriber = t.1.1.1.1.1.1.1;
      })
      (λ _. refl)
      (pair_serial (option_serial bool_serial) (
        pair_serial (option_serial bool_serial) (
          pair_serial (option_serial bool_serial) (
            pair_serial (option_serial bool_serial) (
              pair_serial (option_serial bool_serial) (
                pair_serial (option_serial bool_serial)
                  (pair_serial (option_serial bool_serial) (option_serial bool_serial))))))))

pub medium_metadata_serial : Serial MediumMetadata
medium_metadata_serial =
    iso_serial
      {B = (Option Bool)
        × ((Option Str)
            × ((Option Bytes)
                × ((Option Bool)
                    × ((Option Bool)
                        × ((Option ℤ)
                            × ((Option AvailableChannels)
                                × ((Option WifiDirectCliUsableChannels)
                                    × ((Option WifiLanUsableChannels)
                                        × ((Option WifiAwareUsableChannels)
                                            × ((Option WifiHotspotStaUsableChannels)
                                                × ((Option MediumRole) × (List ℤ))))))))))))}
      (λ r. (
        r.supports_5_ghz,
        (
          r.bssid,
          (
            r.ip_address,
            (
              r.supports_6_ghz,
              (
                r.mobile_radio,
                (
                  r.ap_frequency,
                  (
                    r.available_channels,
                    (
                      r.wifi_direct_cli_usable_channels,
                      (
                        r.wifi_lan_usable_channels,
                        (
                          r.wifi_aware_usable_channels,
                          (
                            r.wifi_hotspot_sta_usable_channels,
                            (r.medium_role, r.supported_wifi_direct_auth_types),
                          ),
                        ),
                      ),
                    ),
                  ),
                ),
              ),
            ),
          ),
        ),
      ))
      (λ t. record {
        supports_5_ghz = t.0;
        bssid = t.1.0;
        ip_address = t.1.1.0;
        supports_6_ghz = t.1.1.1.0;
        mobile_radio = t.1.1.1.1.0;
        ap_frequency = t.1.1.1.1.1.0;
        available_channels = t.1.1.1.1.1.1.0;
        wifi_direct_cli_usable_channels = t.1.1.1.1.1.1.1.0;
        wifi_lan_usable_channels = t.1.1.1.1.1.1.1.1.0;
        wifi_aware_usable_channels = t.1.1.1.1.1.1.1.1.1.0;
        wifi_hotspot_sta_usable_channels = t.1.1.1.1.1.1.1.1.1.1.0;
        medium_role = t.1.1.1.1.1.1.1.1.1.1.1.0;
        supported_wifi_direct_auth_types = t.1.1.1.1.1.1.1.1.1.1.1.1;
      })
      (λ _. refl)
      (pair_serial (option_serial bool_serial) (
        pair_serial (option_serial bytes_serial) (
          pair_serial (option_serial bytes_serial) (
            pair_serial (option_serial bool_serial) (
              pair_serial (option_serial bool_serial) (
                pair_serial (option_serial int_serial) (
                  pair_serial (option_serial available_channels_serial) (
                    pair_serial (option_serial wifi_direct_cli_usable_channels_serial) (
                      pair_serial (option_serial wifi_lan_usable_channels_serial) (
                        pair_serial (option_serial wifi_aware_usable_channels_serial) (
                          pair_serial (option_serial wifi_hotspot_sta_usable_channels_serial) (
                            pair_serial (option_serial medium_role_serial)
                              (list_serial int_serial)))))))))))))

pub location_hint_serial : Serial LocationHint
location_hint_serial =
    iso_serial {B = (Option Str) × (Option ℤ)} (λ r. (r.location, r.format))
      (λ t. record { location = t.0; format = t.1 }) (λ _. refl)
      (pair_serial (option_serial bytes_serial) (option_serial int_serial))

pub os_info_serial : Serial OsInfo
os_info_serial =
    iso_serial {B = Option ℤ} (λ r. r.type) (λ t. record { type = t }) (λ _. refl)
      (option_serial int_serial)

pub service_address_serial : Serial ServiceAddress
service_address_serial =
    iso_serial {B = (Option Bytes) × (Option ℤ)} (λ r. (r.ip_address, r.port))
      (λ t. record { ip_address = t.0; port = t.1 }) (λ _. refl)
      (pair_serial (option_serial bytes_serial) (option_serial int_serial))
