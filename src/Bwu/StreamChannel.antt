-- ===== src/Bwu/StreamChannel.antt =====
-- bwu/stream_channel.rs: the framed channel over a byte stream. The functions return `none` where
-- the source blocks: a paused write, and a read for which the stream has too few bytes and is open.
pub mod Pipe
pub mod Framing
pub mod Queue
mod Examples
use nearby_rs.Prelude.{
  ℕ, ◌+◌, ◌-◌, ◌*◌, ◌/◌, ◌%◌, ◌^◌, Bool, true, false, not, Option, none, some, List, [], ◌∷◌, Bytes,
  Str, if◌then◌else◌, ltb, length, is_empty, is_some, ◌>>=◌, ◌++◌, ascii,
}
use nearby_rs.Prelude.Int.{ℤ, pos, negsuc}
use nearby_rs.Mediums.{Medium}
use nearby_rs.Proto.FrameEnums.{FrameType}
use nearby_rs.Proto.Frame.{OfflineFrame}
use nearby_rs.Proto.Codec.{Codec}
use nearby_rs.Frames.Defs.{Exception, Result, ok, err, get_frame_type}
use nearby_rs.Frames.Parse.{from_bytes}
use nearby_rs.Bwu.Platform.{DisconnectionReason}

-- The trait `Cipher`, over the state of a session.
pub record Cipher (Session : Type 0) : Type 0 where
  pub encode : Bytes → Session → Option Bytes × Session
  pub decode : Bytes → Session → Option Bytes × Session

-- The trait `DuplexStream`, over the state of a stream. A failed write or flush is `false`: the
-- channel looks only at `is_err`.
pub record DuplexStream (Stream : Type 0) : Type 0 where
  pub read_exact : ℕ → Stream → Option (Result Bytes × Stream)
  pub write_all : Bytes → Stream → Bool × Stream
  pub flush : Stream → Bool × Stream
  pub close : Stream → Stream

-- DEFAULT_MAX_ALLOWED_READ_BYTES, i32::MAX
abbrev pub default_max_allowed_read_bytes : ℕ
default_max_allowed_read_bytes = 2 ^ 31 - 1

pub record StreamChannel (Stream Session : Type 0) : Type 0 where
  pub service_id : Str
  pub name : Str
  pub medium : Medium
  pub max_allowed_read_bytes : ℕ
  pub stream : Stream
  pub cipher : Option Session
  pub paused : Bool
  pub closed : Bool
  pub local_endpoint_id : Str

-- `i32::to_be_bytes` of a number that is not negative
unfoldable pub to_be_bytes : ℕ → Bytes
to_be_bytes n = (n / 2 ^ 24 % 256) ∷ (n / 2 ^ 16 % 256) ∷ (n / 2 ^ 8 % 256) ∷ (n % 256) ∷ []

abbrev signed_32 : ℕ → ℤ
signed_32 n = if ltb n (2 ^ 31) then pos n else negsuc (2 ^ 32 - 1 - n)

-- `i32::from_be_bytes`; a buffer of four bytes is all that it is given
unfoldable pub from_be_bytes : Bytes → ℤ
from_be_bytes (a ∷ b ∷ c ∷ d ∷ []) = signed_32 (a * 2 ^ 24 + b * 2 ^ 16 + c * 2 ^ 8 + d)
from_be_bytes _ = pos 0

-- `len < 0 || len as usize > max`, and the length otherwise
unfoldable pub checked_length : ℤ → ℕ → Option ℕ
checked_length (pos n) max = if ltb max n then none else some n
checked_length (negsuc n) max = none

abbrev is_keep_alive : FrameType → Bool
is_keep_alive FrameType.keep_alive = true
is_keep_alive _ = false

-- What a frame that does not decrypt may still be.
unfoldable pub plaintext_keep_alive : Codec → Bytes → Result Bytes
plaintext_keep_alive codec raw = elim (from_bytes codec raw) [
  | ok frame ↦
      if is_keep_alive (get_frame_type frame) then ok raw else err Exception.invalid_protocol_buffer
  | err exception ↦ err exception
]

-- `ok_or(Exception::Execution)`
abbrev of_option : Option Bytes → Result Bytes
of_option none = err Exception.execution
of_option (some bytes) = ok bytes

-- The derived `Debug` of a medium.
abbrev medium_debug : Medium → Str
medium_debug Medium.unknown_medium = ascii "UnknownMedium"
medium_debug Medium.mdns = ascii "Mdns"
medium_debug Medium.bluetooth = ascii "Bluetooth"
medium_debug Medium.wifi_hotspot = ascii "WifiHotspot"
medium_debug Medium.ble = ascii "Ble"
medium_debug Medium.wifi_lan = ascii "WifiLan"
medium_debug Medium.wifi_aware = ascii "WifiAware"
medium_debug Medium.nfc = ascii "Nfc"
medium_debug Medium.wifi_direct = ascii "WifiDirect"
medium_debug Medium.web_rtc = ascii "WebRtc"
medium_debug Medium.ble_l2cap = ascii "BleL2cap"
medium_debug Medium.usb = ascii "Usb"
medium_debug Medium.web_rtc_non_cellular = ascii "WebRtcNonCellular"
medium_debug Medium.awdl = ascii "Awdl"

module _ {Stream Session : Type 0} (codec : Codec) (duplex : DuplexStream Stream)
    (session : Cipher Session) where
  unfoldable pub new : Str → Str → Medium → Stream → StreamChannel Stream Session
  new service_id name medium stream = record {
    service_id = service_id;
    name = name;
    medium = medium;
    max_allowed_read_bytes = default_max_allowed_read_bytes;
    stream = stream;
    cipher = none;
    paused = false;
    closed = false;
    local_endpoint_id = [];
  }

  unfoldable pub enable_encryption :
      Session → StreamChannel Stream Session → StreamChannel Stream Session
  enable_encryption s c = record c { cipher = some s }

  unfoldable pub disable_encryption : StreamChannel Stream Session → StreamChannel Stream Session
  disable_encryption c = record c { cipher = none }

  unfoldable pub is_encrypted : StreamChannel Stream Session → Bool
  is_encrypted c = is_some c.cipher

  unfoldable pub try_decrypt :
      Bytes → StreamChannel Stream Session → Result Bytes × StreamChannel Stream Session
  try_decrypt bytes c = elim c.cipher [
    | none ↦ (err Exception.failed, c)
    | some s ↦
        let (plaintext, s') = session.decode bytes s in
        (of_option plaintext, record c { cipher = some s' })
  ]

  unfoldable pub do_close : StreamChannel Stream Session → StreamChannel Stream Session
  do_close c =
      if c.closed
      then c
      else record c { closed = true; paused = false; stream = duplex.close c.stream }

  unfoldable close : StreamChannel Stream Session → StreamChannel Stream Session
  unfolding do_close
  close c = do_close c

  unfoldable close_with_reason :
      DisconnectionReason → StreamChannel Stream Session → StreamChannel Stream Session
  unfolding do_close
  close_with_reason _ c = do_close c

  unfoldable set_local_endpoint_id :
      Str → StreamChannel Stream Session → StreamChannel Stream Session
  set_local_endpoint_id id c = record c { local_endpoint_id = id }

  unfoldable channel_type : StreamChannel Stream Session → Str
  unfolding is_encrypted
  channel_type c = (if is_encrypted c then ascii "ENCRYPTED_" else []) ++ medium_debug c.medium

  unfoldable pub pause : StreamChannel Stream Session → StreamChannel Stream Session
  pause c = record c { paused = true }

  unfoldable pub resume : StreamChannel Stream Session → StreamChannel Stream Session
  resume c = record c { paused = false }

  -- The framed read, before decryption.
  unfoldable pub read_payload : Result Bytes → ℕ → Stream → Option (Result Bytes × Stream)
  unfolding checked_length from_be_bytes
  read_payload (err e) max s = some (err e, s)
  read_payload (ok len_buf) max s = elim (checked_length (from_be_bytes len_buf) max) [
    | none ↦ some (err Exception.io, s)
    | some len ↦ duplex.read_exact len s
  ]

  unfoldable pub read_raw : ℕ → Stream → Option (Result Bytes × Stream)
  unfolding read_payload
  read_raw max s = duplex.read_exact 4 s >>= λ (len_buf, s'). read_payload len_buf max s'

  -- What the cipher made of a frame.
  unfoldable pub decrypted : Option Bytes → Bytes → Result Bytes
  unfolding plaintext_keep_alive
  decrypted none raw = plaintext_keep_alive codec raw
  decrypted (some plaintext) raw =
      if is_empty plaintext then err Exception.invalid_protocol_buffer else ok plaintext

  unfoldable pub finish_read : Result Bytes → Option Session → Result Bytes × Option Session
  unfolding decrypted
  finish_read (err e) cipher = (err e, cipher)
  finish_read (ok raw) none = (ok raw, none)
  finish_read (ok raw) (some s) =
      let (plaintext, s') = session.decode raw s in (decrypted plaintext raw, some s')

  unfoldable pub read :
      StreamChannel Stream Session → Option (Result Bytes × StreamChannel Stream Session)
  unfolding read_raw finish_read
  read c = read_raw c.max_allowed_read_bytes c.stream >>= λ (raw, s).
      let (result, cipher) = finish_read raw c.cipher in
      some (result, record c { stream = s; cipher = cipher })

  -- The bytes to send, if the cipher gives any.
  unfoldable pub encrypted : Bytes → Option Session → Option Bytes × Option Session
  encrypted bytes none = (some bytes, none)
  encrypted bytes (some s) = let (payload, s') = session.encode bytes s in (payload, some s')

  -- The three calls that put a frame on the stream; each is made only if those before it succeed.
  unfoldable pub send_frame : Bytes → Stream → Exception × Stream
  unfolding to_be_bytes
  send_frame payload s =
      let (sent_length, s1) = duplex.write_all (to_be_bytes (length payload)) s in
      let (sent_payload, s2) = duplex.write_all payload s1 in
      let (flushed, s3) = duplex.flush s2 in
      if not sent_length
      then (Exception.io, s1)
      else if not sent_payload
      then (Exception.io, s2)
      else if not flushed
      then (Exception.io, s3)
      else (Exception.success, s3)

  unfoldable pub write_payload : Option Bytes → ℕ → Stream → Exception × Stream
  unfolding send_frame
  write_payload none max s = (Exception.io, s)
  write_payload (some payload) max s =
      if ltb max (length payload) then (Exception.io, s) else send_frame payload s

  unfoldable pub write :
      Bytes → StreamChannel Stream Session → Option (Exception × StreamChannel Stream Session)
  unfolding encrypted write_payload
  write bytes c =
      let (payload, cipher) = encrypted bytes c.cipher in
      let (result, s) = write_payload payload c.max_allowed_read_bytes c.stream in
      if c.paused then none else some (result, record c { stream = s; cipher = cipher })
