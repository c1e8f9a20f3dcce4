-- ===== src/Bwu/Manager/Complete.antt =====
-- bwu/manager.rs: the whole handshake, from the swap of the channels to the end of the upgrade.
use nearby_rs.Prelude.{ℕ, ◌≡◌, refl, arith, Bool, true, false, none, some, Str, str_eq, str_beq_iff}
use nearby_rs.Prelude.Map
use nearby_rs.Prelude.Map.{get-insert}
use nearby_rs.Prelude.Set
use nearby_rs.Frames.Defs.{is_ok}
use nearby_rs.Frames.Upgrade.{for_bwu_safe_to_close}
use nearby_rs.Bwu.Client.{on_bandwidth_changed}
use nearby_rs.Bwu.Platform.{Platform}
use nearby_rs.Bwu.World.{World, update_chan, write_chan, get_channel_for_endpoint}
use nearby_rs.Bwu.Manager.Protocol.{
  process_last_write_to_prior_channel_event, run_upgrade_protocol,
  process_safe_to_close_prior_channel_event,
}
use nearby_rs.Bwu.Manager.Handshake.{
  parked, last_write_sent, swap_channel-parked, process_safe_to_close-end,
}

module _ (p : Platform) where
  -- The new channel knows the local endpoint, and is paused.
  abbrev pub prepared : ℕ → World p → World p
  prepared new w =
      update_chan p p.channel.pause new
        (update_chan p (p.channel.set_local_endpoint_id w.client.local_endpoint_id) new w)

  abbrev pub safe_to_close_sent : ℕ → World p → Bool
  safe_to_close_sent r w = is_ok (p.channel.write (for_bwu_safe_to_close p.codec) (w.chan r)).0

  pub run_upgrade_protocol-parked :
      (id : Str) (old new : ℕ) (e : Bool) (w : World p)
      → Map.get id w.ecm ≡ some old
      → last_write_sent p old (prepared new w) ≡ true
      → Set.contains id w.successfully_upgraded_endpoints ≡ false
      → run_upgrade_protocol p id new e w ≡ parked p id old new (prepared new w)
  unfolding run_upgrade_protocol get_channel_for_endpoint
  run_upgrade_protocol-parked id old new e w c k h =
      rw (run_upgrade_protocol, c) (swap_channel-parked p id old new e (prepared new w) k h)

  pub process_last_write-parked :
      (id : Str) (old : ℕ) (w : World p)
      → Map.get id w.previous_endpoint_channels ≡ some old
      → safe_to_close_sent old w ≡ true
      → process_last_write_to_prior_channel_event p id w
        ≡ (write_chan p old (for_bwu_safe_to_close p.codec) w).1
  unfolding process_last_write_to_prior_channel_event write_chan
  process_last_write-parked id old w n k = rw (process_last_write_to_prior_channel_event, n, k) refl

  -- The whole handshake: the channels are swapped, the peer's LAST_WRITE comes, and then its
  -- SAFE_TO_CLOSE. If the endpoint had a channel, no last write was remembered, and both frames
  -- that are written on the old channel go out, then the upgrade is over: the new channel is
  -- registered, nothing is parked, no upgrade of the endpoint is in progress, and the client is
  -- told the new channel's medium.
  pub handshake_complete :
      (id : Str) (old new : ℕ) (e : Bool) (w : World p)
      → Map.get id w.ecm ≡ some old
      → Set.contains id w.successfully_upgraded_endpoints ≡ false
      → last_write_sent p old (prepared new w) ≡ true
      → safe_to_close_sent old (parked p id old new (prepared new w)) ≡ true
      → (let w1 = run_upgrade_protocol p id new e w in
          let w2 = process_last_write_to_prior_channel_event p id w1 in
          let w3 = process_safe_to_close_prior_channel_event p id w2 in
          (Map.get id w3.previous_endpoint_channels ≡ none)
          × (Set.contains id w3.in_progress_upgrades ≡ false)
          × (get_channel_for_endpoint p id w3 ≡ some new)
          × (w3.client ≡ on_bandwidth_changed id (p.channel.medium (w3.chan new)) w.client))
  unfolding write_chan
  handshake_complete id old new e w c h k l =
      let u = parked p id old new (prepared new w) in
      let same = str_beq_iff id id in
      let parked_old : Map.get id u.previous_endpoint_channels ≡ some old =
        rw get-insert (ground (arith, same)) in
      let registered : Map.get id u.ecm ≡ some new = rw get-insert (ground (arith, same)) in
      rw
        (
          run_upgrade_protocol-parked id old new e w c k h,
          process_last_write-parked id old u parked_old l,
        )
        (process_safe_to_close-end p id old new
          (write_chan p old (for_bwu_safe_to_close p.codec) u).1 parked_old registered)
