-- ===== src/Bwu/Manager/Invariant.antt =====
-- bwu/manager.rs: the invariant of the retries and of the channel registry, by operation.
use nearby_rs.Prelude.{
  ℕ, ◌≤◌, ◌≡◌, refl, ap, ◌∙◌, ◌⊎◌, inl, inr, arith, Bool, true, none, some, Str, str_eq,
  str_beq_iff, length, is_some, Option-cases,
}
use nearby_rs.Prelude.Map
use nearby_rs.Prelude.Map.{Map, get-insert, get-remove, length-insert}
use nearby_rs.Prelude.Set
use nearby_rs.Bwu.Platform.{Platform}
use nearby_rs.Bwu.World.{
  World, BwuConfig, Duration, write_chan, replace_channel_for_endpoint, update_chan,
  get_channel_for_endpoint,
}
use nearby_rs.Bwu.Manager.Retry.{
  calculate_next_retry_delay, cancel_retry_upgrade_alarm, retry_upgrades_after_delay,
}
use nearby_rs.Bwu.Manager.Protocol.{swap_channel, run_upgrade_protocol}
use nearby_rs.Bwu.Manager.Quiet.{Quiet, Quiet-write_chan, Quiet-process_last_write}
use nearby_rs.Frames.Upgrade.{for_bwu_last_write}

-- A delay is the first one, or at most the maximum.
abbrev pub InBounds : BwuConfig → Duration → Type 0
InBounds config d =
    (d ≡ config.bandwidth_upgrade_retry_delay) ⊎ (d ≤ config.bandwidth_upgrade_retry_max_delay)

-- Every retry that is pending has its delay on record, every delay on record is in bounds, and
-- the endpoints with a channel and what the client knows of endpoints are those of `w₀`.
pub record Sound (p : Platform) (w₀ w : World p) : Type 0 where
  pub config : w.config ≡ w₀.config
  pub tracked :
      (id : Str)
      → (Map.get id w.retry_upgrade_alarms ≡ none)
        ⊎ (Map.get id w.retry_upgrade_alarms ≡ Map.get id w.retry_delays)
  pub bounded : (id : Str) (d : Duration) → Map.get id w.retry_delays ≡ some d → InBounds w.config d
  pub keys : (id : Str) → Map.contains_key id w.ecm ≡ Map.contains_key id w₀.ecm
  pub count : length w.ecm ≡ length w₀.ecm
  pub endpoints : w.client.endpoints ≡ w₀.client.endpoints

module _ (p : Platform) (w₀ : World p) where
  pub Sound-Quiet : {w w' : World p} → Quiet p w w' → Sound p w₀ w → Sound p w₀ w'
  Sound-Quiet q s = record {
    config = q.config ∙ s.config;
    tracked = λ id. rw (q.alarms, q.delays) (s.tracked id);
    bounded = λ id d. rw (q.config, q.delays) (s.bounded id d);
    keys = λ id. rw q.ecm (s.keys id);
    count = rw q.ecm s.count;
    endpoints = q.endpoints ∙ s.endpoints;
  }

  pub Sound-cancel :
      (id : Str) (w : World p) → Sound p w₀ w → Sound p w₀ (cancel_retry_upgrade_alarm p id w)
  unfolding cancel_retry_upgrade_alarm
  Sound-cancel id w s = record {
    config = s.config;
    tracked = λ j. rw get-remove (ground (arith, s.tracked j));
    bounded = s.bounded;
    keys = s.keys;
    count = s.count;
    endpoints = s.endpoints;
  }

  next_delay_InBounds :
      (id : Str) (w : World p) → InBounds w.config (calculate_next_retry_delay p id w)
  unfolding calculate_next_retry_delay
  next_delay_InBounds id w = ground arith

  pub Sound-retry_upgrades_after_delay :
      (id : Str) (w : World p) → Sound p w₀ w → Sound p w₀ (retry_upgrades_after_delay p id w)
  unfolding retry_upgrades_after_delay cancel_retry_upgrade_alarm
  Sound-retry_upgrades_after_delay id w s = record {
    config = s.config;
    tracked = λ j. rw (get-insert, get-remove, get-insert) (ground (arith, s.tracked j));
    bounded = λ j d. rw get-insert (ground (arith, s.bounded j d, next_delay_InBounds id w));
    keys = s.keys;
    count = s.count;
    endpoints = s.endpoints;
  }

  Sound-replace :
      (id : Str) (r : ℕ) (e : Bool) (w : World p)
      → Map.contains_key id w.ecm ≡ true
      → Sound p w₀ w
      → Sound p w₀ (replace_channel_for_endpoint p id r e w)
  unfolding replace_channel_for_endpoint
  Sound-replace id r e w h s = record {
    config = s.config;
    tracked = s.tracked;
    bounded = s.bounded;
    keys = λ j. rw get-insert (ground (arith, s.keys j, str_beq_iff id j));
    count = length-insert id r w.ecm h ∙ s.count;
    endpoints = s.endpoints;
  }

  -- The write of LAST_WRITE and what follows it.
  Quiet-swap_channel :
      (id : Str) (old new : ℕ) (e : Bool) (w : World p)
      → Quiet p (replace_channel_for_endpoint p id new e w) (swap_channel p id old new e w)
  unfolding swap_channel
  Quiet-swap_channel id old new e w =
      let w1 = replace_channel_for_endpoint p id new e w in
      let bytes = for_bwu_last_write p.codec in
      let w2 = (write_chan p old bytes w1).1 in
      let w3 = record w2 {
        previous_endpoint_channels = Map.insert id old w2.previous_endpoint_channels;
        successfully_upgraded_endpoints = Set.remove id w2.successfully_upgraded_endpoints;
      } in
      grind (arith, Quiet-write_chan p old bytes w1, Quiet-process_last_write p id w3)

  pub Sound-swap_channel :
      (id : Str) (old new : ℕ) (e : Bool) (w : World p)
      → Map.contains_key id w.ecm ≡ true
      → Sound p w₀ w
      → Sound p w₀ (swap_channel p id old new e w)
  Sound-swap_channel id old new e w h s =
      Sound-Quiet (Quiet-swap_channel id old new e w) (Sound-replace id new e w h s)

  pub Sound-run_upgrade_protocol :
      (id : Str) (new : ℕ) (e : Bool) (w : World p)
      → Sound p w₀ w
      → Sound p w₀ (run_upgrade_protocol p id new e w)
  unfolding run_upgrade_protocol get_channel_for_endpoint
  Sound-run_upgrade_protocol id new e w s =
      let w2 : World p =
        update_chan p p.channel.pause new
          (update_chan p (p.channel.set_local_endpoint_id w.client.local_endpoint_id) new w) in
      let q : Quiet p w w2 = record {
        alarms = refl;
        delays = refl;
        config = refl;
        ecm = refl;
        endpoints = refl;
      } in
      elim (Option-cases (Map.get id w.ecm)) [
        | inl n ↦ rw (run_upgrade_protocol, n) (Sound-Quiet q s)
        | inr (r, n) ↦
            rw (run_upgrade_protocol, n)
              (Sound-swap_channel id r new e w2 (ap is_some n) (Sound-Quiet q s))
      ]
