-- ===== src/Proto/Frame.antt =====
-- proto/offline_wire_formats.proto: the remaining frames, `V1Frame` and `OfflineFrame`.
use nearby_rs.Prelude.{ℕ, Bool, Option, none, List, [], Str, Bytes}
use nearby_rs.Prelude.Int.{ℤ}
use nearby_rs.Proto.Upgrade.{BandwidthUpgradeNegotiationFrame}
use nearby_rs.Proto.Connection.{ConnectionRequestFrame, ConnectionResponseFrame}
use nearby_rs.Proto.Payload.{PayloadTransferFrame}

pub record KeepAliveFrame : Type 0 where
  pub ack : Option Bool
  pub seq_num : Option ℕ

abbrev pub empty_keep_alive_frame : KeepAliveFrame
empty_keep_alive_frame = record { ack = none; seq_num = none }

pub record DisconnectionFrame : Type 0 where
  pub request_safe_to_disconnect : Option Bool
  pub ack_safe_to_disconnect : Option Bool

abbrev pub empty_disconnection_frame : DisconnectionFrame
empty_disconnection_frame = record {
  request_safe_to_disconnect = none;
  ack_safe_to_disconnect = none;
}

pub record PairedKeyEncryptionFrame : Type 0 where
  pub signed_data : Option Bytes

abbrev pub empty_paired_key_encryption_frame : PairedKeyEncryptionFrame
empty_paired_key_encryption_frame = record { signed_data = none }

pub record AuthenticationMessageFrame : Type 0 where
  pub auth_message : Option Bytes

abbrev pub empty_authentication_message_frame : AuthenticationMessageFrame
empty_authentication_message_frame = record { auth_message = none }

pub record AuthenticationResultFrame : Type 0 where
  pub result : Option ℤ

abbrev pub empty_authentication_result_frame : AuthenticationResultFrame
empty_authentication_result_frame = record { result = none }

pub record AutoResumeFrame : Type 0 where
  pub event_type : Option ℤ
  pub pending_payload_id : Option ℤ
  pub next_payload_chunk_index : Option ℤ
  pub version : Option ℤ

abbrev pub empty_auto_resume_frame : AutoResumeFrame
empty_auto_resume_frame = record {
  event_type = none;
  pending_payload_id = none;
  next_payload_chunk_index = none;
  version = none;
}

pub record AutoReconnectFrame : Type 0 where
  pub endpoint_id : Option Str
  pub event_type : Option ℤ
  pub last_endpoint_id : Option Str

abbrev pub empty_auto_reconnect_frame : AutoReconnectFrame
empty_auto_reconnect_frame = record {
  endpoint_id = none;
  event_type = none;
  last_endpoint_id = none;
}

pub record BandwidthUpgradeRetryFrame : Type 0 where
  pub supported_medium : List ℤ
  pub is_request : Option Bool

abbrev pub empty_bandwidth_upgrade_retry_frame : BandwidthUpgradeRetryFrame
empty_bandwidth_upgrade_retry_frame = record { supported_medium = []; is_request = none }

pub record V1Frame : Type 0 where
  pub type : Option ℤ
  pub connection_request : Option ConnectionRequestFrame
  pub connection_response : Option ConnectionResponseFrame
  pub payload_transfer : Option PayloadTransferFrame
  pub bandwidth_upgrade_negotiation : Option BandwidthUpgradeNegotiationFrame
  pub keep_alive : Option KeepAliveFrame
  pub disconnection : Option DisconnectionFrame
  pub paired_key_encryption : Option PairedKeyEncryptionFrame
  pub authentication_message : Option AuthenticationMessageFrame
  pub authentication_result : Option AuthenticationResultFrame
  pub auto_resume : Option AutoResumeFrame
  pub auto_reconnect : Option AutoReconnectFrame
  pub bandwidth_upgrade_retry : Option BandwidthUpgradeRetryFrame

abbrev pub empty_v1_frame : V1Frame
empty_v1_frame = record {
  type = none;
  connection_request = none;
  connection_response = none;
  payload_transfer = none;
  bandwidth_upgrade_negotiation = none;
  keep_alive = none;
  disconnection = none;
  paired_key_encryption = none;
  authentication_message = none;
  authentication_result = none;
  auto_resume = none;
  auto_reconnect = none;
  bandwidth_upgrade_retry = none;
}

pub record OfflineFrame : Type 0 where
  pub version : Option ℤ
  pub v1 : Option V1Frame

abbrev pub empty_offline_frame : OfflineFrame
empty_offline_frame = record { version = none; v1 = none }
