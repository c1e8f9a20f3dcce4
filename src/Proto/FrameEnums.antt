-- ===== src/Proto/FrameEnums.antt =====
-- proto/offline_wire_formats.proto: enums of frames and payloads. A field of an enum type holds
-- the raw number; `number` is `as i32`, and `try_from` is the checked conversion back.
use nearby_rs.Prelude.{ℕ, zero, suc, ◌≡◌, refl, Option, none, some}
use nearby_rs.Prelude.Int.{ℤ, pos, negsuc}

pub data Version : Type 0 where
  unknown_version v1 : Version

abbrev pub version_number : Version → ℕ
version_number Version.unknown_version = 0
version_number Version.v1 = 1

abbrev pub version_from_number : ℕ → Option Version
version_from_number zero = some Version.unknown_version
version_from_number (suc zero) = some Version.v1
version_from_number _ = none

abbrev pub version_try_from : ℤ → Option Version
version_try_from (pos n) = version_from_number n
version_try_from (negsuc n) = none

pub version_from_number-number : (e : Version) → version_from_number (version_number e) ≡ some e
version_from_number-number Version.unknown_version = refl
version_from_number-number Version.v1 = refl

pub data FrameType : Type 0 where
  unknown_frame_type connection_request connection_response payload_transfer
        bandwidth_upgrade_negotiation keep_alive disconnection paired_key_encryption
        authentication_message authentication_result auto_resume auto_reconnect
        bandwidth_upgrade_retry :
      FrameType

abbrev pub frame_type_number : FrameType → ℕ
frame_type_number FrameType.unknown_frame_type = 0
frame_type_number FrameType.connection_request = 1
frame_type_number FrameType.connection_response = 2
frame_type_number FrameType.payload_transfer = 3
frame_type_number FrameType.bandwidth_upgrade_negotiation = 4
frame_type_number FrameType.keep_alive = 5
frame_type_number FrameType.disconnection = 6
frame_type_number FrameType.paired_key_encryption = 7
frame_type_number FrameType.authentication_message = 8
frame_type_number FrameType.authentication_result = 9
frame_type_number FrameType.auto_resume = 10
frame_type_number FrameType.auto_reconnect = 11
frame_type_number FrameType.bandwidth_upgrade_retry = 12

abbrev pub frame_type_from_number : ℕ → Option FrameType
frame_type_from_number zero = some FrameType.unknown_frame_type
frame_type_from_number (suc zero) = some FrameType.connection_request
frame_type_from_number (suc (suc zero)) = some FrameType.connection_response
frame_type_from_number (suc (suc (suc zero))) = some FrameType.payload_transfer
frame_type_from_number (suc (suc (suc (suc zero)))) = some FrameType.bandwidth_upgrade_negotiation
frame_type_from_number (suc (suc (suc (suc (suc zero))))) = some FrameType.keep_alive
frame_type_from_number (suc (suc (suc (suc (suc (suc zero)))))) = some FrameType.disconnection
frame_type_from_number (suc (suc (suc (suc (suc (suc (suc zero))))))) =
    some FrameType.paired_key_encryption
frame_type_from_number (suc (suc (suc (suc (suc (suc (suc (suc zero)))))))) =
    some FrameType.authentication_message
frame_type_from_number (suc (suc (suc (suc (suc (suc (suc (suc (suc zero))))))))) =
    some FrameType.authentication_result
frame_type_from_number (suc (suc (suc (suc (suc (suc (suc (suc (suc (suc zero)))))))))) =
    some FrameType.auto_resume
frame_type_from_number (suc (suc (suc (suc (suc (suc (suc (suc (suc (suc (suc zero))))))))))) =
    some FrameType.auto_reconnect
frame_type_from_number
      (suc (suc (suc (suc (suc (suc (suc (suc (suc (suc (suc (suc zero)))))))))))) =
    some FrameType.bandwidth_upgrade_retry
frame_type_from_number _ = none

abbrev pub frame_type_try_from : ℤ → Option FrameType
frame_type_try_from (pos n) = frame_type_from_number n
frame_type_try_from (negsuc n) = none

pub frame_type_from_number-number :
    (e : FrameType) → frame_type_from_number (frame_type_number e) ≡ some e
frame_type_from_number-number FrameType.unknown_frame_type = refl
frame_type_from_number-number FrameType.connection_request = refl
frame_type_from_number-number FrameType.connection_response = refl
frame_type_from_number-number FrameType.payload_transfer = refl
frame_type_from_number-number FrameType.bandwidth_upgrade_negotiation = refl
frame_type_from_number-number FrameType.keep_alive = refl
frame_type_from_number-number FrameType.disconnection = refl
frame_type_from_number-number FrameType.paired_key_encryption = refl
frame_type_from_number-number FrameType.authentication_message = refl
frame_type_from_number-number FrameType.authentication_result = refl
frame_type_from_number-number FrameType.auto_resume = refl
frame_type_from_number-number FrameType.auto_reconnect = refl
frame_type_from_number-number FrameType.bandwidth_upgrade_retry = refl

pub data ResponseStatus : Type 0 where
  unknown_response_status accept reject : ResponseStatus

abbrev pub response_status_number : ResponseStatus → ℕ
response_status_number ResponseStatus.unknown_response_status = 0
response_status_number ResponseStatus.accept = 1
response_status_number ResponseStatus.reject = 2

abbrev pub response_status_from_number : ℕ → Option ResponseStatus
response_status_from_number zero = some ResponseStatus.unknown_response_status
response_status_from_number (suc zero) = some ResponseStatus.accept
response_status_from_number (suc (suc zero)) = some ResponseStatus.reject
response_status_from_number _ = none

abbrev pub response_status_try_from : ℤ → Option ResponseStatus
response_status_try_from (pos n) = response_status_from_number n
response_status_try_from (negsuc n) = none

pub response_status_from_number-number :
    (e : ResponseStatus) → response_status_from_number (response_status_number e) ≡ some e
response_status_from_number-number ResponseStatus.unknown_response_status = refl
response_status_from_number-number ResponseStatus.accept = refl
response_status_from_number-number ResponseStatus.reject = refl

pub data PacketType : Type 0 where
  unknown_packet_type data_packet control payload_ack : PacketType

abbrev pub packet_type_number : PacketType → ℕ
packet_type_number PacketType.unknown_packet_type = 0
packet_type_number PacketType.data_packet = 1
packet_type_number PacketType.control = 2
packet_type_number PacketType.payload_ack = 3

abbrev pub packet_type_from_number : ℕ → Option PacketType
packet_type_from_number zero = some PacketType.unknown_packet_type
packet_type_from_number (suc zero) = some PacketType.data_packet
packet_type_from_number (suc (suc zero)) = some PacketType.control
packet_type_from_number (suc (suc (suc zero))) = some PacketType.payload_ack
packet_type_from_number _ = none

abbrev pub packet_type_try_from : ℤ → Option PacketType
packet_type_try_from (pos n) = packet_type_from_number n
packet_type_try_from (negsuc n) = none

pub packet_type_from_number-number :
    (e : PacketType) → packet_type_from_number (packet_type_number e) ≡ some e
packet_type_from_number-number PacketType.unknown_packet_type = refl
packet_type_from_number-number PacketType.data_packet = refl
packet_type_from_number-number PacketType.control = refl
packet_type_from_number-number PacketType.payload_ack = refl

pub data PayloadType : Type 0 where
  unknown_payload_type bytes file stream : PayloadType

abbrev pub payload_type_number : PayloadType → ℕ
payload_type_number PayloadType.unknown_payload_type = 0
payload_type_number PayloadType.bytes = 1
payload_type_number PayloadType.file = 2
payload_type_number PayloadType.stream = 3

abbrev pub payload_type_from_number : ℕ → Option PayloadType
payload_type_from_number zero = some PayloadType.unknown_payload_type
payload_type_from_number (suc zero) = some PayloadType.bytes
payload_type_from_number (suc (suc zero)) = some PayloadType.file
payload_type_from_number (suc (suc (suc zero))) = some PayloadType.stream
payload_type_from_number _ = none

abbrev pub payload_type_try_from : ℤ → Option PayloadType
payload_type_try_from (pos n) = payload_type_from_number n
payload_type_try_from (negsuc n) = none

pub payload_type_from_number-number :
    (e : PayloadType) → payload_type_from_number (payload_type_number e) ≡ some e
payload_type_from_number-number PayloadType.unknown_payload_type = refl
payload_type_from_number-number PayloadType.bytes = refl
payload_type_from_number-number PayloadType.file = refl
payload_type_from_number-number PayloadType.stream = refl

pub data EventType : Type 0 where
  unknown_event_type upgrade_path_available last_write_to_prior_channel safe_to_close_prior_channel
        client_introduction upgrade_failure client_introduction_ack upgrade_path_request :
      EventType

abbrev pub event_type_number : EventType → ℕ
event_type_number EventType.unknown_event_type = 0
event_type_number EventType.upgrade_path_available = 1
event_type_number EventType.last_write_to_prior_channel = 2
event_type_number EventType.safe_to_close_prior_channel = 3
event_type_number EventType.client_introduction = 4
event_type_number EventType.upgrade_failure = 5
event_type_number EventType.client_introduction_ack = 6
event_type_number EventType.upgrade_path_request = 7

abbrev pub event_type_from_number : ℕ → Option EventType
event_type_from_number zero = some EventType.unknown_event_type
event_type_from_number (suc zero) = some EventType.upgrade_path_available
event_type_from_number (suc (suc zero)) = some EventType.last_write_to_prior_channel
event_type_from_number (suc (suc (suc zero))) = some EventType.safe_to_close_prior_channel
event_type_from_number (suc (suc (suc (suc zero)))) = some EventType.client_introduction
event_type_from_number (suc (suc (suc (suc (suc zero))))) = some EventType.upgrade_failure
event_type_from_number (suc (suc (suc (suc (suc (suc zero)))))) =
    some EventType.client_introduction_ack
event_type_from_number (suc (suc (suc (suc (suc (suc (suc zero))))))) =
    some EventType.upgrade_path_request
event_type_from_number _ = none

abbrev pub event_type_try_from : ℤ → Option EventType
event_type_try_from (pos n) = event_type_from_number n
event_type_try_from (negsuc n) = none

pub event_type_from_number-number :
    (e : EventType) → event_type_from_number (event_type_number e) ≡ some e
event_type_from_number-number EventType.unknown_event_type = refl
event_type_from_number-number EventType.upgrade_path_available = refl
event_type_from_number-number EventType.last_write_to_prior_channel = refl
event_type_from_number-number EventType.safe_to_close_prior_channel = refl
event_type_from_number-number EventType.client_introduction = refl
event_type_from_number-number EventType.upgrade_failure = refl
event_type_from_number-number EventType.client_introduction_ack = refl
event_type_from_number-number EventType.upgrade_path_request = refl
