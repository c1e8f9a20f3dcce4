-- ===== src/Proto/Payload.antt =====
-- proto/offline_wire_formats.proto: payload transfers.
use nearby_rs.Prelude.{Bool, Option, none, Str, Bytes}
use nearby_rs.Prelude.Int.{ℤ}

pub record PayloadHeader : Type 0 where
  pub id : Option ℤ
  pub type : Option ℤ
  pub total_size : Option ℤ
  pub is_sensitive : Option Bool
  pub file_name : Option Str
  pub parent_folder : Option Str
  pub last_modified_timestamp_millis : Option ℤ

abbrev pub empty_payload_header : PayloadHeader
empty_payload_header = record {
  id = none;
  type = none;
  total_size = none;
  is_sensitive = none;
  file_name = none;
  parent_folder = none;
  last_modified_timestamp_millis = none;
}

pub record PayloadChunk : Type 0 where
  pub flags : Option ℤ
  pub offset : Option ℤ
  pub body : Option Bytes
  pub index : Option ℤ

abbrev pub empty_payload_chunk : PayloadChunk
empty_payload_chunk = record { flags = none; offset = none; body = none; index = none }

pub record ControlMessage : Type 0 where
  pub event : Option ℤ
  pub offset : Option ℤ

abbrev pub empty_control_message : ControlMessage
empty_control_message = record { event = none; offset = none }

pub record PayloadTransferFrame : Type 0 where
  pub packet_type : Option ℤ
  pub payload_header : Option PayloadHeader
  pub payload_chunk : Option PayloadChunk
  pub control_message : Option ControlMessage

abbrev pub empty_payload_transfer_frame : PayloadTransferFrame
empty_payload_transfer_frame = record {
  packet_type = none;
  payload_header = none;
  payload_chunk = none;
  control_message = none;
}
