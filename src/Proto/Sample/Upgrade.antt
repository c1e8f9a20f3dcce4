-- ===== src/Proto/Sample/Upgrade.antt =====
-- A serial form of the messages of Proto/Upgrade, for the sample codec.
use nearby_rs.Prelude.{refl, Bool, Option, List, Str, Bytes}
use nearby_rs.Prelude.Int.{ℤ}
use nearby_rs.Prelude.Serial.{
  Serial, nat_serial, int_serial, bool_serial, bytes_serial, option_serial, list_serial,
  pair_serial, iso_serial,
}
use nearby_rs.Proto.Sample.Metadata.{
  location_hint_serial, medium_metadata_serial, service_address_serial,
}
use nearby_rs.Proto.Metadata.{MediumMetadata, LocationHint, ServiceAddress}
use nearby_rs.Proto.Upgrade.{
  WifiHotspotCredentials, WifiLanSocket, BluetoothCredentials, WifiAwareCredentials,
  WifiDirectCredentials, WebRtcCredentials, AwdlCredentials, UpgradePathRequest, UpgradePathInfo,
  ClientIntroduction, ClientIntroductionAck, SafeToClosePriorChannel,
  BandwidthUpgradeNegotiationFrame,
}

pub wifi_hotspot_credentials_serial : Serial WifiHotspotCredentials
wifi_hotspot_credentials_serial =
    iso_serial
      {B = (Option Str)
        × ((Option Str) × ((Option ℤ) × ((Option Str) × ((Option ℤ) × (List ServiceAddress)))))}
      (λ r. (r.ssid, (r.password, (r.port, (r.gateway, (r.frequency, r.address_candidates))))))
      (λ t. record {
        ssid = t.0;
        password = t.1.0;
        port = t.1.1.0;
        gateway = t.1.1.1.0;
        frequency = t.1.1.1.1.0;
        address_candidates = t.1.1.1.1.1;
      })
      (λ _. refl)
      (pair_serial (option_serial bytes_serial) (
        pair_serial (option_serial bytes_serial) (
          pair_serial (option_serial int_serial) (
            pair_serial (option_serial bytes_serial)
              (pair_serial (option_serial int_serial) (list_serial service_address_serial))))))

pub wifi_lan_socket_serial : Serial WifiLanSocket
wifi_lan_socket_serial =
    iso_serial {B = (Option Bytes) × ((Option ℤ) × (List ServiceAddress))}
      (λ r. (r.ip_address, (r.wifi_port, r.address_candidates)))
      (λ t. record { ip_address = t.0; wifi_port = t.1.0; address_candidates = t.1.1 }) (λ _. refl)
      (pair_serial (option_serial bytes_serial)
        (pair_serial (option_serial int_serial) (list_serial service_address_serial)))

pub bluetooth_credentials_serial : Serial BluetoothCredentials
bluetooth_credentials_serial =
    iso_serial {B = (Option Str) × (Option Str)} (λ r. (r.service_name, r.mac_address))
      (λ t. record { service_name = t.0; mac_address = t.1 }) (λ _. refl)
      (pair_serial (option_serial bytes_serial) (option_serial bytes_serial))

pub wifi_aware_credentials_serial : Serial WifiAwareCredentials
wifi_aware_credentials_serial =
    iso_serial {B = (Option Str) × ((Option Bytes) × (Option Str))}
      (λ r. (r.service_id, (r.service_info, r.password)))
      (λ t. record { service_id = t.0; service_info = t.1.0; password = t.1.1 }) (λ _. refl)
      (pair_serial (option_serial bytes_serial)
        (pair_serial (option_serial bytes_serial) (option_serial bytes_serial)))

pub wifi_direct_credentials_serial : Serial WifiDirectCredentials
wifi_direct_credentials_serial =
    iso_serial
      {B = (Option Str)
        × ((Option Str)
            × ((Option ℤ)
                × ((Option ℤ)
                    × ((Option Str)
                        × ((Option Bytes) × ((Option Str) × ((Option Str) × (Option Str))))))))}
      (λ r. (
        r.ssid,
        (
          r.password,
          (
            r.port,
            (r.frequency, (r.gateway, (r.ip_v6_address, (r.service_name, (r.device_name, r.pin))))),
          ),
        ),
      ))
      (λ t. record {
        ssid = t.0;
        password = t.1.0;
        port = t.1.1.0;
        frequency = t.1.1.1.0;
        gateway = t.1.1.1.1.0;
        ip_v6_address = t.1.1.1.1.1.0;
        service_name = t.1.1.1.1.1.1.0;
        device_name = t.1.1.1.1.1.1.1.0;
        pin = t.1.1.1.1.1.1.1.1;
      })
      (λ _. refl)
      (pair_serial (option_serial bytes_serial) (
        pair_serial (option_serial bytes_serial) (
          pair_serial (option_serial int_serial) (
            pair_serial (option_serial int_serial) (
              pair_serial (option_serial bytes_serial) (
                pair_serial (option_serial bytes_serial) (
                  pair_serial (option_serial bytes_serial)
                    (pair_serial (option_serial bytes_serial) (option_serial bytes_serial)))))))))

pub web_rtc_credentials_serial : Serial WebRtcCredentials
web_rtc_credentials_serial =
    iso_serial {B = (Option Str) × (Option LocationHint)} (λ r. (r.peer_id, r.location_hint))
      (λ t. record { peer_id = t.0; location_hint = t.1 }) (λ _. refl)
      (pair_serial (option_serial bytes_serial) (option_serial location_hint_serial))

pub awdl_credentials_serial : Serial AwdlCredentials
awdl_credentials_serial =
    iso_serial {B = (Option Str) × ((Option Str) × (Option Str))}
      (λ r. (r.service_name, (r.service_type, r.password)))
      (λ t. record { service_name = t.0; service_type = t.1.0; password = t.1.1 }) (λ _. refl)
      (pair_serial (option_serial bytes_serial)
        (pair_serial (option_serial bytes_serial) (option_serial bytes_serial)))

pub upgrade_path_request_serial : Serial UpgradePathRequest
upgrade_path_request_serial =
    iso_serial {B = (List ℤ) × (Option MediumMetadata)} (λ r. (r.mediums, r.medium_meta_data))
      (λ t. record { mediums = t.0; medium_meta_data = t.1 }) (λ _. refl)
      (pair_serial (list_serial int_serial) (option_serial medium_metadata_serial))

pub upgrade_path_info_serial : Serial UpgradePathInfo
upgrade_path_info_serial =
    iso_serial
      {B = (Option ℤ)
        × ((Option WifiHotspotCredentials)
            × ((Option WifiLanSocket)
                × ((Option BluetoothCredentials)
                    × ((Option WifiAwareCredentials)
                        × ((Option WifiDirectCredentials)
                            × ((Option WebRtcCredentials)
                                × ((Option AwdlCredentials)
                                    × ((Option Bool)
                                        × ((Option Bool) × (Option UpgradePathRequest))))))))))}
      (λ r. (
        r.medium,
        (
          r.wifi_hotspot_credentials,
          (
            r.wifi_lan_socket,
            (
              r.bluetooth_credentials,
              (
                r.wifi_aware_credentials,
                (
                  r.wifi_direct_credentials,
                  (
                    r.web_rtc_credentials,
                    (
                      r.awdl_credentials,
                      (
                        r.supports_disabling_encryption,
                        (r.supports_client_introduction_ack, r.upgrade_path_request),
                      ),
                    ),
                  ),
                ),
              ),
            ),
          ),
        ),
      ))
      (λ t. record {
        medium = t.0;
        wifi_hotspot_credentials = t.1.0;
        wifi_lan_socket = t.1.1.0;
        bluetooth_credentials = t.1.1.1.0;
        wifi_aware_credentials = t.1.1.1.1.0;
        wifi_direct_credentials = t.1.1.1.1.1.0;
        web_rtc_credentials = t.1.1.1.1.1.1.0;
        awdl_credentials = t.1.1.1.1.1.1.1.0;
        supports_disabling_encryption = t.1.1.1.1.1.1.1.1.0;
        supports_client_introduction_ack = t.1.1.1.1.1.1.1.1.1.0;
        upgrade_path_request = t.1.1.1.1.1.1.1.1.1.1;
      })
      (λ _. refl)
      (pair_serial (option_serial int_serial) (
        pair_serial (option_serial wifi_hotspot_credentials_serial) (
          pair_serial (option_serial wifi_lan_socket_serial) (
            pair_serial (option_serial bluetooth_credentials_serial) (
              pair_serial (option_serial wifi_aware_credentials_serial) (
                pair_serial (option_serial wifi_direct_credentials_serial) (
                  pair_serial (option_serial web_rtc_credentials_serial) (
                    pair_serial (option_serial awdl_credentials_serial) (
                      pair_serial (option_serial bool_serial) (
                        pair_serial (option_serial bool_serial)
                          (option_serial upgrade_path_request_serial)))))))))))

pub client_introduction_serial : Serial ClientIntroduction
client_introduction_serial =
    iso_serial {B = (Option Str) × ((Option Bool) × (Option Str))}
      (λ r. (r.endpoint_id, (r.supports_disabling_encryption, r.last_endpoint_id)))
      (λ t. record {
        endpoint_id = t.0;
        supports_disabling_encryption = t.1.0;
        last_endpoint_id = t.1.1;
      })
      (λ _. refl)
      (pair_serial (option_serial bytes_serial)
        (pair_serial (option_serial bool_serial) (option_serial bytes_serial)))

pub client_introduction_ack_serial : Serial ClientIntroductionAck
client_introduction_ack_serial = iso_serial (λ _. 0) (λ _. record {}) (λ _. refl) nat_serial

pub safe_to_close_prior_channel_serial : Serial SafeToClosePriorChannel
safe_to_close_prior_channel_serial =
    iso_serial {B = Option ℤ} (λ r. r.sta_frequency) (λ t. record { sta_frequency = t }) (λ _. refl)
      (option_serial int_serial)

pub bandwidth_upgrade_negotiation_frame_serial : Serial BandwidthUpgradeNegotiationFrame
bandwidth_upgrade_negotiation_frame_serial =
    iso_serial
      {B = (Option ℤ)
        × ((Option UpgradePathInfo)
            × ((Option ClientIntroduction)
                × ((Option ClientIntroductionAck) × (Option SafeToClosePriorChannel))))}
      (λ r. (
        r.event_type,
        (
          r.upgrade_path_info,
          (r.client_introduction, (r.client_introduction_ack, r.safe_to_close_prior_channel)),
        ),
      ))
      (λ t. record {
        event_type = t.0;
        upgrade_path_info = t.1.0;
        client_introduction = t.1.1.0;
        client_introduction_ack = t.1.1.1.0;
        safe_to_close_prior_channel = t.1.1.1.1;
      })
      (λ _. refl)
      (pair_serial (option_serial int_serial) (
        pair_serial (option_serial upgrade_path_info_serial) (
          pair_serial (option_serial client_introduction_serial) (
            pair_serial (option_serial client_introduction_ack_serial)
              (option_serial safe_to_close_prior_channel_serial)))))
