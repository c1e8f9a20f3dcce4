-- ===== src/Proto/Sample/Payload.antt =====
-- A serial form of the messages of Proto/Payload, for the sample codec.
use nearby_rs.Prelude.{refl, Bool, Option, Str, Bytes}
use nearby_rs.Prelude.Int.{ℤ}
use nearby_rs.Prelude.Serial.{
  Serial, int_serial, bool_serial, bytes_serial, option_serial, pair_serial, iso_serial,
}
use nearby_rs.Proto.Payload.{PayloadHeader, PayloadChunk, ControlMessage, PayloadTransferFrame}

pub payload_header_serial : Serial PayloadHeader
payload_header_serial =
    iso_serial
      {B = (Option ℤ)
        × ((Option ℤ)
            × ((Option ℤ) × ((Option Bool) × ((Option Str) × ((Option Str) × (Option ℤ))))))}
      (λ r. (
        r.id,
        (
          r.type,
          (
            r.total_size,
            (r.is_sensitive, (r.file_name, (r.parent_folder, r.last_modified_timestamp_millis))),
          ),
        ),
      ))
      (λ t. record {
        id = t.0;
        type = t.1.0;
        total_size = t.1.1.0;
        is_sensitive = t.1.1.1.0;
        file_name = t.1.1.1.1.0;
        parent_folder = t.1.1.1.1.1.0;
        last_modified_timestamp_millis = t.1.1.1.1.1.1;
      })
      (λ _. refl)
      (pair_serial (option_serial int_serial) (
        pair_serial (option_serial int_serial) (
          pair_serial (option_serial int_serial) (
            pair_serial (option_serial bool_serial) (
              pair_serial (option_serial bytes_serial)
                (pair_serial (option_serial bytes_serial) (option_serial int_serial)))))))

pub payload_chunk_serial : Serial PayloadChunk
payload_chunk_serial =
    iso_serial {B = (Option ℤ) × ((Option ℤ) × ((Option Bytes) × (Option ℤ)))}
      (λ r. (r.flags, (r.offset, (r.body, r.index))))
      (λ t. record { flags = t.0; offset = t.1.0; body = t.1.1.0; index = t.1.1.1 }) (λ _. refl)
      (pair_serial (option_serial int_serial) (
        pair_serial (option_serial int_serial)
          (pair_serial (option_serial bytes_serial) (option_serial int_serial))))

pub control_message_serial : Serial ControlMessage
control_message_serial =
    iso_serial {B = (Option ℤ) × (Option ℤ)} (λ r. (r.event, r.offset))
      (λ t. record { event = t.0; offset = t.1 }) (λ _. refl)
      (pair_serial (option_serial int_serial) (option_serial int_serial))

pub payload_transfer_frame_serial : Serial PayloadTransferFrame
payload_transfer_frame_serial =
    iso_serial
      {B = (Option ℤ)
        × ((Option PayloadHeader) × ((Option PayloadChunk) × (Option ControlMessage)))}
      (λ r. (r.packet_type, (r.payload_header, (r.payload_chunk, r.control_message))))
      (λ t. record {
        packet_type = t.0;
        payload_header = t.1.0;
        payload_chunk = t.1.1.0;
        control_message = t.1.1.1;
      })
      (λ _. refl)
      (pair_serial (option_serial int_serial) (
        pair_serial (option_serial payload_header_serial) (
          pair_serial (option_serial payload_chunk_serial) (option_serial control_message_serial))))
