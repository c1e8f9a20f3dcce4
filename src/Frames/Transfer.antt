-- ===== src/Frames/Transfer.antt =====
-- frames.rs: the builders of payload transfers, keep-alives and disconnections.
use nearby_rs.Prelude.{ℕ, Bool, some, Bytes}
use nearby_rs.Prelude.Int.{ℤ, pos}
use nearby_rs.Proto.FrameEnums.{FrameType, PacketType, packet_type_number}
use nearby_rs.Proto.Payload.{
  PayloadHeader, empty_payload_header, PayloadChunk, ControlMessage, PayloadTransferFrame,
  empty_payload_transfer_frame,
}
use nearby_rs.Proto.Frame.{empty_keep_alive_frame}
use nearby_rs.Proto.Codec.{Codec}
use nearby_rs.Frames.Defs.{indeterminate_size}
use nearby_rs.Frames.Parse.{encode_v1}

module _ (codec : Codec) where
  abbrev payload_transfer : PayloadTransferFrame → Bytes
  payload_transfer sub =
      encode_v1 codec FrameType.payload_transfer λ v1. record v1 { payload_transfer = some sub }

  unfoldable pub for_data_payload_transfer : PayloadHeader → PayloadChunk → Bytes
  for_data_payload_transfer header chunk = payload_transfer (record empty_payload_transfer_frame {
    packet_type = some (pos (packet_type_number PacketType.data_packet));
    payload_header = some header;
    payload_chunk = some chunk;
  })

  unfoldable pub for_control_payload_transfer : PayloadHeader → ControlMessage → Bytes
  for_control_payload_transfer header control =
      payload_transfer (record empty_payload_transfer_frame {
        packet_type = some (pos (packet_type_number PacketType.control));
        payload_header = some header;
        control_message = some control;
      })

  unfoldable pub for_payload_ack_payload_transfer : ℤ → Bytes
  for_payload_ack_payload_transfer payload_id =
      payload_transfer (record empty_payload_transfer_frame {
        packet_type = some (pos (packet_type_number PacketType.payload_ack));
        payload_header = some (record empty_payload_header {
          id = some payload_id;
          total_size = some indeterminate_size;
        });
      })

  unfoldable pub for_keep_alive : Bytes
  for_keep_alive =
      encode_v1 codec FrameType.keep_alive
        λ v1. record v1 { keep_alive = some empty_keep_alive_frame }

  unfoldable pub for_keep_alive_ack : Bool → ℕ → Bytes
  for_keep_alive_ack ack seq_num =
      encode_v1 codec FrameType.keep_alive
        λ v1. record v1 { keep_alive = some (record { ack = some ack; seq_num = some seq_num }) }

  unfoldable pub for_disconnection : Bool → Bool → Bytes
  for_disconnection request_safe_to_disconnect ack_safe_to_disconnect =
      encode_v1 codec FrameType.disconnection λ v1. record v1 {
        disconnection = some (record {
          request_safe_to_disconnect = some request_safe_to_disconnect;
          ack_safe_to_disconnect = some ack_safe_to_disconnect;
        });
      }
