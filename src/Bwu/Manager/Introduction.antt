-- ===== src/Bwu/Manager/Introduction.antt =====
-- bwu/manager.rs: the frames that introduce the new channel, read and written on it.
use nearby_rs.Prelude.{
  ℕ, Bool, false, Option, none, some, Bytes, ◌==◌, int_eq, if◌then◌else◌, ◌>>=◌,
}
use nearby_rs.Prelude.Int.{ℤ, pos}
use nearby_rs.Proto.FrameEnums.{EventType, event_type_number}
use nearby_rs.Proto.Upgrade.{ClientIntroduction, BandwidthUpgradeNegotiationFrame}
use nearby_rs.Proto.Frame.{OfflineFrame}
use nearby_rs.Proto.Codec.{Codec}
use nearby_rs.Frames.Defs.{Result, ok, err, is_ok}
use nearby_rs.Frames.Parse.{from_bytes}
use nearby_rs.Frames.Upgrade.{for_bwu_introduction_ack}
use nearby_rs.Bwu.Platform.{Platform}
use nearby_rs.Bwu.World.{World, read_chan, write_chan}

-- `Result::ok`
abbrev to_option {ℓ} : {A : Type ℓ} → Result A → Option A
to_option (ok a) = some a
to_option (err _) = none

abbrev is_event : EventType → Option ℤ → Bool
is_event e none = false
is_event e (some v) = v == pos (event_type_number e)

abbrev negotiation_of : OfflineFrame → Option BandwidthUpgradeNegotiationFrame
negotiation_of frame = frame.v1 >>= λ v1. v1.bandwidth_upgrade_negotiation

-- What a read has to return to count as an introduction, and as its acknowledgement.
unfoldable pub parse_introduction : Codec → Result Bytes → Option ClientIntroduction
parse_introduction codec result = do
  bytes ← to_option result
  frame ← to_option (from_bytes codec bytes)
  bwu ← negotiation_of frame
  if is_event EventType.client_introduction bwu.event_type then bwu.client_introduction else none

abbrev event_of : Codec → Result Bytes → Option ℤ
event_of codec result = do
  bytes ← to_option result
  frame ← to_option (from_bytes codec bytes)
  bwu ← negotiation_of frame
  bwu.event_type

unfoldable pub parse_introduction_ack : Codec → Result Bytes → Bool
parse_introduction_ack codec result =
    is_event EventType.client_introduction_ack (event_of codec result)

module _ (p : Platform) where
  open p use {codec}

  unfoldable pub read_client_introduction_frame : ℕ → World p → Option ClientIntroduction × World p
  unfolding parse_introduction
  read_client_introduction_frame r w =
      let (result, w') = read_chan p r w in (parse_introduction codec result, w')

  unfoldable pub read_client_introduction_ack_frame : ℕ → World p → Bool × World p
  unfolding parse_introduction_ack
  read_client_introduction_ack_frame r w =
      let (result, w') = read_chan p r w in (parse_introduction_ack codec result, w')

  unfoldable pub write_client_introduction_ack_frame : ℕ → World p → Bool × World p
  write_client_introduction_ack_frame r w =
      let (result, w') = write_chan p r (for_bwu_introduction_ack codec) w in (is_ok result, w')
