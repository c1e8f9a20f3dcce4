-- ===== src/Validator/Payload.antt =====
-- validator.rs: connection frames and payload transfers.
use nearby_rs.Prelude.{
  Bool, true, false, not, ◌&&◌, ◌||◌, Option, none, some, [], ◌==◌, int_eq, if◌then◌else◌, is_empty,
  is_none, unwrap_or, ◌>>=◌,
}
use nearby_rs.Prelude.Int.{ℤ, pos, int_ltb, low_bit}
use nearby_rs.Proto.FrameEnums.{PacketType, packet_type_try_from, PayloadType, payload_type_number}
use nearby_rs.Proto.Connection.{ConnectionRequestFrame, ConnectionResponseFrame}
use nearby_rs.Proto.Payload.{PayloadHeader, PayloadChunk, ControlMessage, PayloadTransferFrame}
use nearby_rs.Frames.Defs.{Exception, indeterminate_size}
use nearby_rs.Validator.Text.{
  has_illegal_characters, illegal_file_name_patterns, illegal_parent_folder_patterns,
}

abbrev invalid : Exception
invalid = Exception.invalid_protocol_buffer

unfoldable pub ensure_valid_connection_request_frame : ConnectionRequestFrame → Exception
ensure_valid_connection_request_frame frame =
    if is_empty (unwrap_or frame.endpoint_id [])
    then invalid
    else if is_empty (unwrap_or frame.endpoint_name [])
    then invalid
    else Exception.success

unfoldable pub ensure_valid_connection_response_frame : ConnectionResponseFrame → Exception
ensure_valid_connection_response_frame frame = Exception.success

-- `x != INDETERMINATE_SIZE && x < offset`
abbrev falls_short : ℤ → ℤ → Bool
falls_short total_size offset = not (total_size == indeterminate_size) && int_ltb total_size offset

unfoldable pub ensure_valid_payload_transfer_data_frame : PayloadChunk → ℤ → Exception
ensure_valid_payload_transfer_data_frame payload_chunk total_size =
    let is_last_chunk = low_bit (unwrap_or payload_chunk.flags (pos 0)) in
    let offset = unwrap_or payload_chunk.offset (pos 0) in
    if is_none payload_chunk.flags
    then invalid
    else if is_none payload_chunk.body && not is_last_chunk
    then invalid
    else if is_none payload_chunk.offset || int_ltb offset (pos 0)
    then invalid
    else if falls_short total_size offset
    then invalid
    else Exception.success

unfoldable pub ensure_valid_payload_transfer_control_frame : ControlMessage → ℤ → Exception
ensure_valid_payload_transfer_control_frame control_message total_size =
    let offset = unwrap_or control_message.offset (pos 0) in
    if is_none control_message.offset || int_ltb offset (pos 0)
    then invalid
    else if falls_short total_size offset
    then invalid
    else Exception.success

abbrev known_packet_type : PayloadTransferFrame → Option PacketType
known_packet_type frame = frame.packet_type >>= packet_type_try_from

-- The checks of the names in the header of a file.
abbrev illegal_name : PayloadHeader → Bool
illegal_name header = elim header.file_name [
  | none ↦ false
  | some file_name ↦ has_illegal_characters file_name illegal_file_name_patterns
]

abbrev illegal_folder : PayloadHeader → Bool
illegal_folder header = elim header.parent_folder [
  | none ↦ false
  | some parent_folder ↦ has_illegal_characters parent_folder illegal_parent_folder_patterns
]

abbrev is_file : PayloadHeader → Bool
is_file header = elim header.type [
  | none ↦ false
  | some type ↦ type == pos (payload_type_number PayloadType.file)
]

-- The last match of `ensure_valid_payload_transfer_frame`, on the packet type.
unfoldable pub check_packet : PacketType → PayloadTransferFrame → ℤ → Exception
unfolding ensure_valid_payload_transfer_data_frame ensure_valid_payload_transfer_control_frame
check_packet PacketType.data_packet frame total_size = elim frame.payload_chunk [
  | none ↦ invalid
  | some chunk ↦ ensure_valid_payload_transfer_data_frame chunk total_size
]
check_packet PacketType.control frame total_size = elim frame.control_message [
  | none ↦ invalid
  | some control ↦ ensure_valid_payload_transfer_control_frame control total_size
]
check_packet _ frame total_size = Exception.success

abbrev is_payload_ack : PacketType → Bool
is_payload_ack PacketType.payload_ack = true
is_payload_ack _ = false

unfoldable pub check_header : PayloadHeader → PayloadTransferFrame → Exception
unfolding check_packet
check_header header frame =
    let packet_type = unwrap_or (known_packet_type frame) PacketType.unknown_packet_type in
    let total_size = unwrap_or header.total_size (pos 0) in
    if is_payload_ack packet_type
    then Exception.success
    else if is_none header.total_size
        || int_ltb total_size (pos 0) && not (total_size == indeterminate_size)
    then invalid
    else if is_file header && illegal_name header
    then Exception.illegal_characters
    else if is_file header && illegal_folder header
    then Exception.illegal_characters
    else if is_none (known_packet_type frame)
    then invalid
    else check_packet packet_type frame total_size

unfoldable pub ensure_valid_payload_transfer_frame : PayloadTransferFrame → Exception
unfolding check_header
ensure_valid_payload_transfer_frame frame = elim frame.payload_header [
  | none ↦ invalid
  | some header ↦ check_header header frame
]
