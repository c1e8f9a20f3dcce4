-- ===== src/Proto/Codec.antt =====
-- The protobuf library's codec of `OfflineFrame` (`Message::encode` and `Message::decode`), which
-- the program uses and does not implement.
use nearby_rs.Prelude.{◌≡◌, ◌≢◌, Option, some, [], Bytes}
use nearby_rs.Prelude.Int.{ℤ}
use nearby_rs.Proto.Frame.{OfflineFrame}

-- What is relied on: a message that was encoded decodes to itself, and the encoding of a message
-- whose version is set has a byte.
pub record Codec : Type 0 where
  pub encode : OfflineFrame → Bytes
  pub decode : Bytes → Option OfflineFrame
  pub decode-encode : (f : OfflineFrame) → decode (encode f) ≡ some f
  pub encode-ne-nil : (f : OfflineFrame) (v : ℤ) → f.version ≡ some v → encode f ≢ []
