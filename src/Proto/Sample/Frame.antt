-- ===== src/Proto/Sample/Frame.antt =====
-- A serial form of the messages of Proto/Frame, for the sample codec.
use nearby_rs.Prelude.{refl, ℕ, Bool, Option, List, Str, Bytes}
use nearby_rs.Prelude.Int.{ℤ}
use nearby_rs.Prelude.Serial.{
  Serial, nat_serial, int_serial, bool_serial, bytes_serial, option_serial, list_serial,
  pair_serial, iso_serial,
}
use nearby_rs.Proto.Sample.Connection.{
  connection_request_frame_serial, connection_response_frame_serial,
}
use nearby_rs.Proto.Sample.Payload.{payload_transfer_frame_serial}
use nearby_rs.Proto.Sample.Upgrade.{bandwidth_upgrade_negotiation_frame_serial}
use nearby_rs.Proto.Connection.{ConnectionRequestFrame, ConnectionResponseFrame}
use nearby_rs.Proto.Payload.{PayloadTransferFrame}
use nearby_rs.Proto.Upgrade.{BandwidthUpgradeNegotiationFrame}
use nearby_rs.Proto.Frame.{
  KeepAliveFrame, DisconnectionFrame, PairedKeyEncryptionFrame, AuthenticationMessageFrame,
  AuthenticationResultFrame, AutoResumeFrame, AutoReconnectFrame, BandwidthUpgradeRetryFrame,
  V1Frame, OfflineFrame,
}

pub keep_alive_frame_serial : Serial KeepAliveFrame
keep_alive_frame_serial =
    iso_serial {B = (Option Bool) × (Option ℕ)} (λ r. (r.ack, r.seq_num))
      (λ t. record { ack = t.0; seq_num = t.1 }) (λ _. refl)
      (pair_serial (option_serial bool_serial) (option_serial nat_serial))

pub disconnection_frame_serial : Serial DisconnectionFrame
disconnection_frame_serial =
    iso_serial {B = (Option Bool) × (Option Bool)}
      (λ r. (r.request_safe_to_disconnect, r.ack_safe_to_disconnect))
      (λ t. record { request_safe_to_disconnect = t.0; ack_safe_to_disconnect = t.1 }) (λ _. refl)
      (pair_serial (option_serial bool_serial) (option_serial bool_serial))

pub paired_key_encryption_frame_serial : Serial PairedKeyEncryptionFrame
paired_key_encryption_frame_serial =
    iso_serial {B = Option Bytes} (λ r. r.signed_data) (λ t. record { signed_data = t }) (λ _. refl)
      (option_serial bytes_serial)

pub authentication_message_frame_serial : Serial AuthenticationMessageFrame
authentication_message_frame_serial =
    iso_serial {B = Option Bytes} (λ r. r.auth_message) (λ t. record { auth_message = t })
      (λ _. refl) (option_serial bytes_serial)

pub authentication_result_frame_serial : Serial AuthenticationResultFrame
authentication_result_frame_serial =
    iso_serial {B = Option ℤ} (λ r. r.result) (λ t. record { result = t }) (λ _. refl)
      (option_serial int_serial)

pub auto_resume_frame_serial : Serial AutoResumeFrame
auto_resume_frame_serial =
    iso_serial {B = (Option ℤ) × ((Option ℤ) × ((Option ℤ) × (Option ℤ)))}
      (λ r. (r.event_type, (r.pending_payload_id, (r.next_payload_chunk_index, r.version))))
      (λ t. record {
        event_type = t.0;
        pending_payload_id = t.1.0;
        next_payload_chunk_index = t.1.1.0;
        version = t.1.1.1;
      })
      (λ _. refl)
      (pair_serial (option_serial int_serial) (
        pair_serial (option_serial int_serial)
          (pair_serial (option_serial int_serial) (option_serial int_serial))))

pub auto_reconnect_frame_serial : Serial AutoReconnectFrame
auto_reconnect_frame_serial =
    iso_serial {B = (Option Str) × ((Option ℤ) × (Option Str))}
      (λ r. (r.endpoint_id, (r.event_type, r.last_endpoint_id)))
      (λ t. record { endpoint_id = t.0; event_type = t.1.0; last_endpoint_id = t.1.1 }) (λ _. refl)
      (pair_serial (option_serial bytes_serial)
        (pair_serial (option_serial int_serial) (option_serial bytes_serial)))

pub bandwidth_upgrade_retry_frame_serial : Serial BandwidthUpgradeRetryFrame
bandwidth_upgrade_retry_frame_serial =
    iso_serial {B = (List ℤ) × (Option Bool)} (λ r. (r.supported_medium, r.is_request))
      (λ t. record { supported_medium = t.0; is_request = t.1 }) (λ _. refl)
      (pair_serial (list_serial int_serial) (option_serial bool_serial))

pub v1_frame_serial : Serial V1Frame
v1_frame_serial =
    iso_serial
      {B = (Option ℤ)
        × ((Option ConnectionRequestFrame)
            × ((Option ConnectionResponseFrame)
                × ((Option PayloadTransferFrame)
                    × ((Option BandwidthUpgradeNegotiationFrame)
                        × ((Option KeepAliveFrame)
                            × ((Option DisconnectionFrame)
                                × ((Option PairedKeyEncryptionFrame)
                                    × ((Option AuthenticationMessageFrame)
                                        × ((Option AuthenticationResultFrame)
                                            × ((Option AutoResumeFrame)
                                                × ((Option AutoReconnectFrame)
                                                    × (Option
                                                        BandwidthUpgradeRetryFrame))))))))))))}
      (λ r. (
        r.type,
        (
          r.connection_request,
          (
            r.connection_response,
            (
              r.payload_transfer,
              (
                r.bandwidth_upgrade_negotiation,
                (
                  r.keep_alive,
                  (
                    r.disconnection,
                    (
                      r.paired_key_encryption,
                      (
                        r.authentication_message,
                        (
                          r.authentication_result,
                          (r.auto_resume, (r.auto_reconnect, r.bandwidth_upgrade_retry)),
                        ),
                      ),
                    ),
                  ),
                ),
              ),
            ),
          ),
        ),
      ))
      (λ t. record {
        type = t.0;
        connection_request = t.1.0;
        connection_response = t.1.1.0;
        payload_transfer = t.1.1.1.0;
        bandwidth_upgrade_negotiation = t.1.1.1.1.0;
        keep_alive = t.1.1.1.1.1.0;
        disconnection = t.1.1.1.1.1.1.0;
        paired_key_encryption = t.1.1.1.1.1.1.1.0;
        authentication_message = t.1.1.1.1.1.1.1.1.0;
        authentication_result = t.1.1.1.1.1.1.1.1.1.0;
        auto_resume = t.1.1.1.1.1.1.1.1.1.1.0;
        auto_reconnect = t.1.1.1.1.1.1.1.1.1.1.1.0;
        bandwidth_upgrade_retry = t.1.1.1.1.1.1.1.1.1.1.1.1;
      })
      (λ _. refl)
      (pair_serial (option_serial int_serial) (
        pair_serial (option_serial connection_request_frame_serial) (
          pair_serial (option_serial connection_response_frame_serial) (
            pair_serial (option_serial payload_transfer_frame_serial) (
              pair_serial (option_serial bandwidth_upgrade_negotiation_frame_serial) (
                pair_serial (option_serial keep_alive_frame_serial) (
                  pair_serial (option_serial disconnection_frame_serial) (
                    pair_serial (option_serial paired_key_encryption_frame_serial) (
                      pair_serial (option_serial authentication_message_frame_serial) (
                        pair_serial (option_serial authentication_result_frame_serial) (
                          pair_serial (option_serial auto_resume_frame_serial) (
                            pair_serial (option_serial auto_reconnect_frame_serial)
                              (option_serial bandwidth_upgrade_retry_frame_serial)))))))))))))

pub offline_frame_serial : Serial OfflineFrame
offline_frame_serial =
    iso_serial {B = (Option ℤ) × (Option V1Frame)} (λ r. (r.version, r.v1))
      (λ t. record { version = t.0; v1 = t.1 }) (λ _. refl)
      (pair_serial (option_serial int_serial) (option_serial v1_frame_serial))
