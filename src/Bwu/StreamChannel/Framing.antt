-- ===== src/Bwu/StreamChannel/Framing.antt =====
-- bwu/stream_channel.rs: frames over the in-memory stream.
use nearby_rs.Prelude.{
  ℕ, ◌≤◌, ◌<◌, ◌^◌, ◌≡◌, refl, ap, arith, true, false, Option, none, some, [], ◌∷◌, ◌++◌, Bytes,
  length, length-append, take-append, drop-append, leb, if◌then◌else◌, is_empty,
}
use nearby_rs.Prelude.Int.{pos}
use nearby_rs.Proto.Codec.{Codec}
use nearby_rs.Frames.Defs.{Exception, ok, err}
use nearby_rs.Bwu.StreamChannel.{
  Cipher, StreamChannel, default_max_allowed_read_bytes, to_be_bytes, from_be_bytes, checked_length,
  read_raw, finish_read, read_payload, decrypted, read, encrypted, send_frame, write_payload, write,
}
use nearby_rs.Bwu.StreamChannel.Pipe.{PipeState, pipe, pipe_read_exact, pipe_write_all}

-- The length prefix is read as the length that was written, if it fits in 31 bits.
pub from_be_bytes-to_be_bytes :
    (n : ℕ) → n ≤ default_max_allowed_read_bytes → from_be_bytes (to_be_bytes n) ≡ pos n
unfolding from_be_bytes to_be_bytes
from_be_bytes-to_be_bytes n h = ground arith

-- From 2 ^ 31 on the prefix is a negative length, which no limit allows.
negative_length :
    (n max : ℕ)
    → 2 ^ 31 ≤ n
    → n < 2 ^ 32
    → checked_length (from_be_bytes (to_be_bytes n)) max ≡ none
unfolding from_be_bytes to_be_bytes checked_length
negative_length n max over small = ground arith

-- The bytes of a frame on the stream.
unfoldable pub framed : Bytes → Bytes
framed payload = to_be_bytes (length payload) ++ payload

abbrev holding : Bytes → PipeState
holding bytes = record { buf = bytes; closed = false }

pipe_read_exact-append :
    (bytes rest : Bytes)
    → pipe_read_exact (length bytes) (holding (bytes ++ rest)) ≡ some (ok bytes, holding rest)
unfolding pipe_read_exact
pipe_read_exact-append bytes rest =
    ground (arith, length-append bytes rest, take-append bytes rest, drop-append bytes rest)

pub append_assoc : (a b c : Bytes) → (a ++ b) ++ c ≡ a ++ (b ++ c)
append_assoc [] b c = refl
append_assoc (x ∷ a) b c = ap (λ t. x ∷ t) (append_assoc a b c)

read_length-framed :
    (payload rest : Bytes)
    → pipe_read_exact 4 (holding (framed payload ++ rest))
      ≡ some (ok (to_be_bytes (length payload)), holding (payload ++ rest))
unfolding framed to_be_bytes
read_length-framed payload rest =
    pipe_read_exact-append (to_be_bytes (length payload)) (payload ++ rest)

read_length-length :
    (n : ℕ) (rest : Bytes)
    → pipe_read_exact 4 (holding (to_be_bytes n ++ rest)) ≡ some (ok (to_be_bytes n), holding rest)
unfolding to_be_bytes
read_length-length n rest = pipe_read_exact-append (to_be_bytes n) rest

module _ {Session : Type 0} (codec : Codec) (session : Cipher Session) where
  read_raw-framed :
      (max : ℕ) (payload rest : Bytes)
      → max ≤ default_max_allowed_read_bytes
      → length payload ≤ max
      → read_raw codec pipe session max (holding (framed payload ++ rest))
        ≡ some (ok payload, holding rest)
  unfolding read_raw read_payload checked_length
  read_raw-framed max payload rest small h = ground (
    arith,
    read_length-framed payload rest,
    from_be_bytes-to_be_bytes (length payload) (omega arith),
    pipe_read_exact-append payload rest,
  )

  send_frame-framed :
      (payload rest : Bytes)
      → send_frame codec pipe session payload (holding rest)
        ≡ (Exception.success, holding (rest ++ framed payload))
  unfolding send_frame framed pipe_write_all
  send_frame-framed payload rest =
      ap (λ t. (Exception.success, holding t))
        (append_assoc rest (to_be_bytes (length payload)) payload)

  -- The channel over a stream that holds some bytes.
  abbrev pub on_pipe :
      Bytes → Option Session → StreamChannel PipeState Session → StreamChannel PipeState Session
  on_pipe bytes cipher c = record c { stream = holding bytes; cipher = cipher }

  -- A write on a channel that is not encrypted and not paused puts one frame behind what the
  -- stream holds, if the payload is within the channel's limit; a longer one is refused, and
  -- nothing is sent.
  pub write-framed :
      (c : StreamChannel PipeState Session) (payload rest : Bytes)
      → c.paused ≡ false
      → write codec pipe session payload (on_pipe rest none c) ≡ (
          if leb (length payload) c.max_allowed_read_bytes
          then some (Exception.success, on_pipe (rest ++ framed payload) none c)
          else some (Exception.io, on_pipe rest none c))
  unfolding write encrypted write_payload
  write-framed c payload rest h = ground (arith, send_frame-framed payload rest)

  -- A read on a channel that is not encrypted takes exactly the first frame, and gives its
  -- payload, if the payload is within the channel's limit: frames arrive in order, and whole.
  pub read-framed :
      (c : StreamChannel PipeState Session) (payload rest : Bytes)
      → c.max_allowed_read_bytes ≤ default_max_allowed_read_bytes
      → length payload ≤ c.max_allowed_read_bytes
      → read codec pipe session (on_pipe (framed payload ++ rest) none c)
        ≡ some (ok payload, on_pipe rest none c)
  unfolding read finish_read
  read-framed c payload rest small h =
      ground (arith, read_raw-framed c.max_allowed_read_bytes payload rest small h)

  -- On an encrypted channel, what the writer's session encodes is the frame that goes behind what
  -- the stream holds, and a reader whose session decodes it to the bytes that were written gets
  -- them back from the first frame, if they are not empty, the writer is not paused and the frame
  -- is within the limit.
  pub read-write_encrypted :
      (c : StreamChannel PipeState Session) (s s' t t' : Session) (plain sealed rest : Bytes)
      → c.paused ≡ false
      → c.max_allowed_read_bytes ≤ default_max_allowed_read_bytes
      → session.encode plain s ≡ (some sealed, s')
      → session.decode sealed t ≡ (some plain, t')
      → is_empty plain ≡ false
      → length sealed ≤ c.max_allowed_read_bytes
      → (write codec pipe session plain (on_pipe rest (some s) c)
          ≡ some (Exception.success, on_pipe (rest ++ framed sealed) (some s') c))
        × (read codec pipe session (on_pipe (framed sealed ++ rest) (some t) c)
            ≡ some (ok plain, on_pipe rest (some t') c))
  unfolding write encrypted write_payload read finish_read decrypted
  read-write_encrypted c s s' t t' plain sealed rest h small e d n l = (
    ground (arith, send_frame-framed sealed rest),
    ground (arith, read_raw-framed c.max_allowed_read_bytes sealed rest small l),
  )

  -- A read refuses a frame whose four bytes of length are those of a number from 2 ^ 31 on, which
  -- are a negative i32, after taking them off the stream, whatever the channel's limit; and a read of
  -- a closed stream with fewer bytes than a length has no data.
  pub read-refused :
      (c : StreamChannel PipeState Session) (k : Option Session) (n : ℕ) (bytes rest : Bytes)
      → 2 ^ 31 ≤ n
      → n < 2 ^ 32
      → length bytes < 4
      → (read codec pipe session (on_pipe (to_be_bytes n ++ rest) k c)
          ≡ some (err Exception.io, on_pipe rest k c))
        × (read codec pipe session
              (record c { stream = record { buf = bytes; closed = true }; cipher = k })
            ≡ some (
              err Exception.no_data,
              record c { stream = record { buf = []; closed = true }; cipher = k },
            ))
  unfolding read finish_read read_raw read_payload pipe_read_exact
  read-refused c k n bytes rest over small short = (
    ground
        (arith, read_length-length n rest, negative_length n c.max_allowed_read_bytes over small),
    ground arith,
  )
