-- ===== src/Proto/Sample.antt =====
-- A codec that meets what `Codec` asks for. It is no protobuf encoding.
mod Metadata
mod Connection
mod Payload
mod Upgrade
mod Frame
use nearby_rs.Prelude.{ℕ, ◌≡◌, ◌≢◌, refl, arith, Option, none, some, [], ◌∷◌, ◌>>=◌, Bytes}
use nearby_rs.Prelude.Int.{ℤ}
use nearby_rs.Prelude.Serial.{Serial}
use nearby_rs.Proto.Frame.{OfflineFrame}
use nearby_rs.Proto.Codec.{Codec}
use Frame.{offline_frame_serial}

sample_encode : OfflineFrame → Bytes
sample_encode f = 0 ∷ offline_frame_serial.put f []

sample_decode : Bytes → Option OfflineFrame
sample_decode [] = none
sample_decode (_ ∷ s) = offline_frame_serial.take s >>= λ (f, _). some f

sample_decode-sample_encode : (f : OfflineFrame) → sample_decode (sample_encode f) ≡ some f
unfolding sample_decode sample_encode
sample_decode-sample_encode f = rw offline_frame_serial.take-put

sample_encode-ne-nil : (f : OfflineFrame) (v : ℤ) → f.version ≡ some v → sample_encode f ≢ []
unfolding sample_encode
sample_encode-ne-nil f v h = λ e. cc

pub sample_codec : Codec
sample_codec = record {
  encode = sample_encode;
  decode = sample_decode;
  decode-encode = sample_decode-sample_encode;
  encode-ne-nil = sample_encode-ne-nil;
}
