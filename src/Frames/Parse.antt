-- ===== src/Frames/Parse.antt =====
-- frames.rs: parsing, and the frame that every builder encodes.
use nearby_rs.Prelude.{
  ◌≡◌, ◌≢◌, refl, false, [], ◌∷◌, is_empty, Option, none, some, Bytes, if◌then◌else◌,
}
use nearby_rs.Prelude.Int.{pos}
use nearby_rs.Proto.FrameEnums.{Version, version_number, FrameType, frame_type_number}
use nearby_rs.Proto.Frame.{OfflineFrame, V1Frame, empty_v1_frame}
use nearby_rs.Proto.Codec.{Codec}
use nearby_rs.Frames.Defs.{Exception, is_ok, Result, ok, err}
use nearby_rs.Validator.{ensure_valid_offline_frame}

-- The match of `from_bytes` on what `decode` returns.
abbrev pub validated : Option OfflineFrame → Result OfflineFrame
validated none = err Exception.invalid_protocol_buffer
validated (some frame) =
    let ex = ensure_valid_offline_frame frame in if is_ok ex then ok frame else err ex

unfoldable pub from_bytes : Codec → Bytes → Result OfflineFrame
from_bytes codec bytes = validated (codec.decode bytes)

-- The frame that `encode_v1` encodes; `fill` sets the frame's own field.
abbrev pub v1_offline_frame : FrameType → (V1Frame → V1Frame) → OfflineFrame
v1_offline_frame frame_type fill = record {
  version = some (pos (version_number Version.v1));
  v1 = some (fill (record empty_v1_frame { type = some (pos (frame_type_number frame_type)) }));
}

unfoldable pub encode_v1 : Codec → FrameType → (V1Frame → V1Frame) → Bytes
encode_v1 codec frame_type fill = codec.encode (v1_offline_frame frame_type fill)

-- What was built parses to the frame exactly when the validator accepts it.
pub from_bytes-encode_v1 :
    (codec : Codec) (frame_type : FrameType) (fill : V1Frame → V1Frame)
    → from_bytes codec (encode_v1 codec frame_type fill)
      ≡ validated (some (v1_offline_frame frame_type fill))
unfolding from_bytes encode_v1
from_bytes-encode_v1 codec frame_type fill = rw codec.decode-encode

is_empty_of_ne : (bytes : Bytes) → bytes ≢ [] → is_empty bytes ≡ false
is_empty_of_ne [] h = absurd (h refl)
is_empty_of_ne (b ∷ bytes) h = refl

-- What is built is never empty.
pub is_empty-encode_v1 :
    (codec : Codec) (frame_type : FrameType) (fill : V1Frame → V1Frame)
    → is_empty (encode_v1 codec frame_type fill) ≡ false
unfolding encode_v1
is_empty-encode_v1 codec frame_type fill =
    is_empty_of_ne _ (
      codec.encode-ne-nil (v1_offline_frame frame_type fill) (pos (version_number Version.v1)) refl)
