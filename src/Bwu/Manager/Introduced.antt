-- ===== src/Bwu/Manager/Introduced.antt =====
-- bwu/manager.rs: the introductions that are built are the ones that are read.
use nearby_rs.Prelude.{◌≡◌, refl, Bool, true, false, some, none, Str}
use nearby_rs.Proto.Codec.{Codec}
use nearby_rs.Frames.Defs.{ok}
use nearby_rs.Frames.Receive.{from_bytes-introduction, from_bytes-handshake}
use nearby_rs.Frames.Upgrade.{
  introduction, for_bwu_introduction, for_bwu_introduction_ack, for_bwu_last_write,
}
use nearby_rs.Bwu.Manager.Introduction.{parse_introduction, parse_introduction_ack}

-- What the initiator reads from the frame that the responder writes first is the introduction that
-- the responder built, and what it answers is read as the acknowledgement; a last write in the
-- place of either is read as neither.
pub parse_introduction-built :
    (codec : Codec) (id last_id : Str) (disabling : Bool)
    → (parse_introduction codec (ok (for_bwu_introduction codec id last_id disabling))
        ≡ some (introduction id last_id disabling))
      × (parse_introduction_ack codec (ok (for_bwu_introduction_ack codec)) ≡ true)
      × (parse_introduction codec (ok (for_bwu_last_write codec)) ≡ none)
      × (parse_introduction_ack codec (ok (for_bwu_last_write codec)) ≡ false)
unfolding parse_introduction parse_introduction_ack
parse_introduction-built codec id last_id disabling =
    let (last, _, ack, _) = from_bytes-handshake codec id last_id disabling in
    (
      rw (from_bytes-introduction codec id last_id disabling) refl,
      rw ack refl,
      rw last refl,
      rw last refl,
    )
