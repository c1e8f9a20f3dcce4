-- ===== src/Bwu/Manager/Retry.antt =====
-- bwu/manager.rs: the choice of the next medium, and the delays of retries.
use nearby_rs.Prelude.{
  leb, ◌+◌, ◌*◌, min, Option, none, some, List, [], ◌∷◌, Str, ◌==◌, str_eq, if◌then◌else◌, any,
}
use nearby_rs.Prelude.Map
use nearby_rs.Mediums.{Medium, medium_eq}
use nearby_rs.Bwu.Platform.{Platform}
use nearby_rs.Bwu.World.{World, Duration, max_duration}
use nearby_rs.Bwu.Manager.Medium.{get_bwu_medium_for_endpoint, has_handler_for_medium}

-- The loop of `process_upgrade_failure_event` over the possible mediums: what stands behind the
-- medium that failed.
unfoldable pub untried_after : Medium → List Medium → List Medium
untried_after last [] = []
untried_after last (m ∷ ms) = if m == last then ms else untried_after last ms

-- `available.first()`, or the unknown medium
abbrev pub first_or_unknown : List Medium → Medium
first_or_unknown [] = Medium.unknown_medium
first_or_unknown (m ∷ ms) = m

module _ (p : Platform) where
  unfoldable pub strip_out_unavailable_mediums : List Medium → World p → List Medium
  strip_out_unavailable_mediums [] w = []
  strip_out_unavailable_mediums (m ∷ ms) w =
      if has_handler_for_medium p m w
      then m ∷ strip_out_unavailable_mediums ms w
      else strip_out_unavailable_mediums ms w

  unfoldable pub choose_best_upgrade_medium : Str → List Medium → World p → Medium
  choose_best_upgrade_medium endpoint_id mediums w =
      let available = strip_out_unavailable_mediums mediums w in
      let current = get_bwu_medium_for_endpoint p endpoint_id w in
      if current == Medium.unknown_medium
      then first_or_unknown available
      else if any (λ m. m == current) available
      then current
      else Medium.unknown_medium

  -- The next delay before the cap. On a sum or a product over the maximum of a duration the source
  -- panics: `none`.
  unfoldable pub uncapped_delay : Str → World p → Option Duration
  uncapped_delay endpoint_id w =
      let initial_delay = w.config.bandwidth_upgrade_retry_delay in
      elim (Map.get endpoint_id w.retry_delays) [
        | none ↦ some initial_delay
        | some last ↦
            let delay =
              if w.config.use_exp_backoff_in_bwu_retry then last * 2 else last + initial_delay in
            if leb delay max_duration then some delay else none
      ]

  -- The delay where nothing overflows; `uncapped_delay` says where that is.
  unfoldable pub calculate_next_retry_delay : Str → World p → Duration
  calculate_next_retry_delay endpoint_id w =
      let initial_delay = w.config.bandwidth_upgrade_retry_delay in
      elim (Map.get endpoint_id w.retry_delays) [
        | none ↦ initial_delay
        | some last ↦
            min (if w.config.use_exp_backoff_in_bwu_retry then last * 2 else last + initial_delay)
              w.config.bandwidth_upgrade_retry_max_delay
      ]

  unfoldable pub cancel_retry_upgrade_alarm : Str → World p → World p
  cancel_retry_upgrade_alarm endpoint_id w = record w {
    retry_upgrade_alarms = Map.remove endpoint_id w.retry_upgrade_alarms;
  }

  unfoldable pub cancel_all_retry_upgrade_alarms : World p → World p
  cancel_all_retry_upgrade_alarms w = record w { retry_upgrade_alarms = []; retry_delays = [] }

  unfoldable pub retry_upgrades_after_delay : Str → World p → World p
  unfolding calculate_next_retry_delay cancel_retry_upgrade_alarm
  retry_upgrades_after_delay endpoint_id w =
      let delay = calculate_next_retry_delay endpoint_id w in
      let w' = cancel_retry_upgrade_alarm endpoint_id w in
      record w' {
        retry_upgrade_alarms = Map.insert endpoint_id delay w'.retry_upgrade_alarms;
        retry_delays = Map.insert endpoint_id delay w'.retry_delays;
      }

  unfoldable pub pending_retry_delay : Str → World p → Option Duration
  pending_retry_delay endpoint_id w = Map.get endpoint_id w.retry_upgrade_alarms

  unfoldable pub pending_retry_delays : World p → List (Str × Duration)
  pending_retry_delays w = w.retry_upgrade_alarms
