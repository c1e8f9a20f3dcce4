-- ===== src/Bwu/Manager/Handshake.antt =====
-- bwu/manager.rs: the exchange that ends an upgrade, and the race of LAST_WRITE with it.
use nearby_rs.Prelude.{
  ℕ, ◌≡◌, refl, sym, ap, ◌∙◌, arith, Bool, true, false, none, some, List, [], ◌∷◌, Str, str_eq,
  str_beq_iff, if◌then◌else◌, nat_beq, Bool-cases, Option-cases, inl, inr,
}
use nearby_rs.Prelude.Map
use nearby_rs.Prelude.Map.{get-insert, get-remove}
use nearby_rs.Prelude.Set
use nearby_rs.Prelude.Set.{contains-insert, contains-remove}
use nearby_rs.Frames.Defs.{is_ok}
use nearby_rs.Frames.Upgrade.{for_bwu_last_write}
use nearby_rs.Bwu.Client.{on_bandwidth_changed}
use nearby_rs.Bwu.Platform.{Platform}
use nearby_rs.Bwu.World.{
  World, update_chan, write_chan, read_chan, get_channel_for_endpoint, replace_channel_for_endpoint,
}
use nearby_rs.Bwu.Manager.Protocol.{
  process_last_write_to_prior_channel_event, swap_channel, run_upgrade_protocol,
  close_prior_channel, process_safe_to_close_prior_channel_event,
}

remove-absent : (id : Str) (s : List Str) → Set.contains id s ≡ false → Set.remove id s ≡ s
unfolding Set.contains Set.remove
remove-absent id [] h = refl
remove-absent id (j ∷ s) h = ground (arith, remove-absent id s)

pub contains-head : (id : Str) (s : List Str) → Set.contains id (id ∷ s) ≡ true
unfolding Set.contains
contains-head id s = ground (arith, str_beq_iff id id)

remove-head : (id : Str) (s : List Str) → Set.contains id s ≡ false → Set.remove id (id ∷ s) ≡ s
unfolding Set.remove
remove-head id s h = ground (arith, str_beq_iff id id, remove-absent id s h)

module _ (p : Platform) where
  -- The write of LAST_WRITE on the channel `r`.
  abbrev pub last_write_sent : ℕ → World p → Bool
  last_write_sent r w = is_ok (p.channel.write (for_bwu_last_write p.codec) (w.chan r)).0

  -- The state in which LAST_WRITE has come before the channels were swapped.
  abbrev latched : Str → World p → World p
  latched id w = record w {
    successfully_upgraded_endpoints = id ∷ w.successfully_upgraded_endpoints;
  }

  -- The state in which the endpoint's channel is displaced, and LAST_WRITE written on the old one.
  abbrev displaced : Str → ℕ → ℕ → World p → World p
  displaced id old new w = record w {
    ecm = Map.insert id new w.ecm;
    chan = λ q.
        if nat_beq old q
        then (p.channel.write (for_bwu_last_write p.codec) (w.chan old)).1
        else w.chan q;
  }

  abbrev pub parked : Str → ℕ → ℕ → World p → World p
  parked id old new w = record (displaced id old new w) {
    previous_endpoint_channels = Map.insert id old w.previous_endpoint_channels;
  }

  process_last_write-latched :
      (id : Str) (w : World p)
      → Map.get id w.previous_endpoint_channels ≡ none
      → Set.contains id w.successfully_upgraded_endpoints ≡ false
      → process_last_write_to_prior_channel_event p id w ≡ latched id w
  unfolding process_last_write_to_prior_channel_event Set.insert
  process_last_write-latched id w n h = rw (process_last_write_to_prior_channel_event, n, h) refl

  swap_channel-failed :
      (id : Str) (old new : ℕ) (e : Bool) (w : World p)
      → last_write_sent old w ≡ false
      → swap_channel p id old new e w ≡ displaced id old new w
  unfolding swap_channel write_chan replace_channel_for_endpoint
  swap_channel-failed id old new e w k = rw (swap_channel, k) refl

  pub swap_channel-parked :
      (id : Str) (old new : ℕ) (e : Bool) (w : World p)
      → last_write_sent old w ≡ true
      → Set.contains id w.successfully_upgraded_endpoints ≡ false
      → swap_channel p id old new e w ≡ parked id old new w
  unfolding swap_channel write_chan replace_channel_for_endpoint
  swap_channel-parked id old new e w k h = rw (swap_channel, k, h) refl

  swap_channel-latched :
      (id : Str) (old new : ℕ) (e : Bool) (w : World p)
      → last_write_sent old w ≡ true
      → Set.contains id w.successfully_upgraded_endpoints ≡ false
      → swap_channel p id old new e (latched id w)
        ≡ process_last_write_to_prior_channel_event p id (parked id old new w)
  unfolding swap_channel write_chan replace_channel_for_endpoint
  swap_channel-latched id old new e w k h =
      let swapped : swap_channel p id old new e (latched id w)
          ≡ process_last_write_to_prior_channel_event p id (record (parked id old new w) {
            successfully_upgraded_endpoints =
                Set.remove id (id ∷ w.successfully_upgraded_endpoints);
          }) =
        rw (swap_channel, k, contains-head id w.successfully_upgraded_endpoints) refl in
      swapped
      ∙ ap
          (λ s.
            process_last_write_to_prior_channel_event p id
              (record (parked id old new w) { successfully_upgraded_endpoints = s }))
          (remove-head id w.successfully_upgraded_endpoints h)

  swap_channel-early :
      (id : Str) (old new : ℕ) (e : Bool) (w : World p)
      → Map.get id w.previous_endpoint_channels ≡ none
      → Set.contains id w.successfully_upgraded_endpoints ≡ false
      → swap_channel p id old new e (latched id w)
        ≡ process_last_write_to_prior_channel_event p id (swap_channel p id old new e w)
  swap_channel-early id old new e w n h = elim (Bool-cases (last_write_sent old w)) [
    | inl k ↦
        swap_channel-latched id old new e w k h
        ∙ sym (
            ap (process_last_write_to_prior_channel_event p id)
              (swap_channel-parked id old new e w k h))
    | inr k ↦
        swap_channel-failed id old new e (latched id w) k
        ∙ sym (process_last_write-latched id (displaced id old new w) n h)
        ∙ sym (
            ap (process_last_write_to_prior_channel_event p id)
              (swap_channel-failed id old new e w k))
  ]

  -- The order of the peer's LAST_WRITE_TO_PRIOR_CHANNEL and of the own swap of the channels does not
  -- matter: both orders end in the same state, if no channel was parked for the endpoint and no
  -- last write remembered.
  pub run_upgrade_protocol-early :
      (id : Str) (new : ℕ) (e : Bool) (w : World p)
      → Map.get id w.previous_endpoint_channels ≡ none
      → Set.contains id w.successfully_upgraded_endpoints ≡ false
      → run_upgrade_protocol p id new e (process_last_write_to_prior_channel_event p id w)
        ≡ process_last_write_to_prior_channel_event p id (run_upgrade_protocol p id new e w)
  unfolding run_upgrade_protocol get_channel_for_endpoint
  run_upgrade_protocol-early id new e w n h =
      let w2 : World p =
        update_chan p p.channel.pause new
          (update_chan p (p.channel.set_local_endpoint_id w.client.local_endpoint_id) new w) in
      ap (run_upgrade_protocol p id new e) (process_last_write-latched id w n h)
      ∙ elim (Option-cases (Map.get id w.ecm)) [
        | inl x ↦ rw (run_upgrade_protocol, x) (sym (process_last_write-latched id w2 n h))
        | inr (old, x) ↦ rw (run_upgrade_protocol, x) (swap_channel-early id old new e w2 n h)
      ]

  -- When SAFE_TO_CLOSE_PRIOR_CHANNEL comes for an endpoint that has a parked channel and a channel,
  -- the upgrade is over: nothing is parked, no upgrade is in progress, the endpoint's channel is
  -- still the one registered, and the client is told that channel's medium.
  pub process_safe_to_close-end :
      (id : Str) (prev r : ℕ) (w : World p)
      → Map.get id w.previous_endpoint_channels ≡ some prev
      → Map.get id w.ecm ≡ some r
      → (let w' = process_safe_to_close_prior_channel_event p id w in
          (Map.get id w'.previous_endpoint_channels ≡ none)
          × (Set.contains id w'.in_progress_upgrades ≡ false)
          × (get_channel_for_endpoint p id w' ≡ some r)
          × (w'.client ≡ on_bandwidth_changed id (p.channel.medium (w'.chan r)) w.client))
  unfolding process_safe_to_close_prior_channel_event close_prior_channel write_chan read_chan
      get_channel_for_endpoint
  process_safe_to_close-end id prev r w h k = ground (
    arith,
    str_beq_iff id id,
    get-remove id id w.previous_endpoint_channels,
    contains-remove id id w.in_progress_upgrades,
  )
