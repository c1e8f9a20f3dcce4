-- ===== src/Bwu/Manager/Steps.antt =====
-- bwu/manager.rs: the invariant, kept by the attempts of an upgrade and by the path to one.
use nearby_rs.Prelude.{
  ℕ, zero, suc, refl, inl, inr, arith, false, not, Option, none, some, List, Str, str_eq,
  Option-cases, unwrap_or,
}
use nearby_rs.Prelude.Set
use nearby_rs.Mediums.{Medium}
use nearby_rs.Proto.Upgrade.{UpgradePathInfo}
use nearby_rs.Bwu.Client.{get_upgrade_mediums}
use nearby_rs.Bwu.Platform.{Platform}
use nearby_rs.Bwu.World.{World, write_chan, get_channel_for_endpoint}
use nearby_rs.Bwu.Manager.Medium.{
  set_bwu_medium_for_endpoint, upi_medium, upgrade_path_info_for_medium,
}
use nearby_rs.Bwu.Manager.Retry.{
  choose_best_upgrade_medium, untried_after, cancel_retry_upgrade_alarm,
}
use nearby_rs.Bwu.Manager.Initiate.{
  Attempt, try_next_best_upgrade_mediums, revert_failed_medium, process_upgrade_failure_event,
  initialize_medium, offer_upgrade, start_upgrade, initiate_bwu_for_endpoint, fire_retry_alarm,
}
use nearby_rs.Bwu.Manager.Respond.{
  process_bwu_path_available_event_internal, adopt_medium, accept_path,
  process_bwu_path_available_event,
}
use nearby_rs.Bwu.Manager.Quiet.{
  Quiet, Quiet-write_chan, Quiet-set_bwu_medium_for_endpoint, Quiet-revert_failed_medium,
  Quiet-initialize_medium, Quiet-run_upgrade_failed_protocol, Quiet-close_out_of_sync,
  Quiet-adopt_medium, Quiet-internal,
}
use nearby_rs.Bwu.Manager.Invariant.{
  Sound, Sound-Quiet, Sound-cancel, Sound-retry_upgrades_after_delay, Sound-run_upgrade_protocol,
}

module _ (p : Platform) (w₀ : World p) where
  Sound-accept_path :
      (id : Str) (info : UpgradePathInfo) (w : World p)
      → Sound p w₀ w
      → Sound p w₀ (accept_path p id info w)
  unfolding accept_path
  Sound-accept_path id info w s =
      let w1 = (process_bwu_path_available_event_internal p id info w).1 in
      let w2 = record w1 { in_progress_upgrades = Set.insert id w1.in_progress_upgrades } in
      let q = Quiet-internal p id info w in
      let q2 : Quiet p w w2 = record {
        alarms = q.alarms;
        delays = q.delays;
        config = q.config;
        ecm = q.ecm;
        endpoints = q.endpoints;
      } in
      let failed =
        Sound-Quiet p w₀ (Quiet-run_upgrade_failed_protocol p id info w1) (Sound-Quiet p w₀ q s) in
      let joined = λ (r : ℕ).
        Sound-run_upgrade_protocol p w₀ id r
          (not (unwrap_or info.supports_disabling_encryption false)) w2 (Sound-Quiet p w₀ q2 s) in
      elim (Option-cases (process_bwu_path_available_event_internal p id info w).0) [
        | inl n ↦ rw (accept_path, n) failed
        | inr (r, n) ↦ rw (accept_path, n) (joined r)
      ]

  pub Sound-process_bwu_path_available_event :
      (id : Str) (info : UpgradePathInfo) (w : World p)
      → Sound p w₀ w
      → Sound p w₀ (process_bwu_path_available_event p id info w)
  unfolding process_bwu_path_available_event
  Sound-process_bwu_path_available_event id info w s =
      let w1 = adopt_medium p id info w in
      let s1 = Sound-Quiet p w₀ (Quiet-adopt_medium p id info w) s in
      ground (
        arith,
        Sound-Quiet p w₀ (Quiet-run_upgrade_failed_protocol p id info w) s,
        Sound-Quiet p w₀ (Quiet-run_upgrade_failed_protocol p id info w1) s1,
        Sound-Quiet p w₀ (Quiet-close_out_of_sync p id w) s,
        Sound-accept_path id info w1 s1,
      )

  -- The state that a call returns, if it returns, has the invariant.
  unfoldable pub Kept : Option (World p) → Type 0
  Kept none = Unit
  Kept (some w) = Sound p w₀ w

  abbrev Keeps : Attempt p → Type 0
  Keeps attempt = (m : Medium) (w : World p) → Sound p w₀ w → Kept (attempt m w)

  module _ (attempt : Attempt p) (keeps : Keeps attempt) (id : Str) where
    Kept-try_next :
        (l : List Medium) (w : World p)
        → Sound p w₀ w
        → Kept (try_next_best_upgrade_mediums p attempt id l w)
    unfolding try_next_best_upgrade_mediums Kept
    Kept-try_next l w s =
        let next = choose_best_upgrade_medium p id l w in
        ground (
          arith,
          Sound-retry_upgrades_after_delay p w₀ id w s,
          keeps next (set_bwu_medium_for_endpoint p id next w)
              (Sound-Quiet p w₀ (Quiet-set_bwu_medium_for_endpoint p id next w) s),
        )

    pub Kept-failure :
        (info : UpgradePathInfo) (w : World p)
        → Sound p w₀ w
        → Kept (process_upgrade_failure_event p attempt id info w)
    unfolding process_upgrade_failure_event Kept
    Kept-failure info w s =
        let w1 : World p = record w {
          in_progress_upgrades = Set.remove id w.in_progress_upgrades;
        } in
        let q : Quiet p w w1 = record {
          alarms = refl;
          delays = refl;
          config = refl;
          ecm = refl;
          endpoints = refl;
        } in
        let s1 = Sound-Quiet p w₀ q s in
        ground (
          arith,
          s1,
          Kept-try_next (untried_after (upi_medium info) (get_upgrade_mediums id w.client))
              (revert_failed_medium p id w1)
              (Sound-Quiet p w₀ (Quiet-revert_failed_medium p id w1) s1),
        )

    Kept-offer :
        (m : Medium) (r : ℕ) (w : World p) → Sound p w₀ w → Kept (offer_upgrade p attempt id m r w)
    unfolding offer_upgrade Kept
    Kept-offer m r w s =
        let service_id = p.channel.service_id (w.chan r) in
        let bytes = (initialize_medium p m service_id id w).0 in
        let w1 = (initialize_medium p m service_id id w).1 in
        let w2 = (write_chan p r bytes w1).1 in
        let w3 = record w2 { in_progress_upgrades = Set.insert id w2.in_progress_upgrades } in
        let q : Quiet p w2 w3 = record {
          alarms = refl;
          delays = refl;
          config = refl;
          ecm = refl;
          endpoints = refl;
        } in
        let s1 = Sound-Quiet p w₀ (Quiet-initialize_medium p m service_id id w) s in
        let s2 = Sound-Quiet p w₀ (Quiet-write_chan p r bytes w1) s1 in
        let info = upgrade_path_info_for_medium m in
        ground (arith, Sound-Quiet p w₀ q s2, Kept-failure info w1 s1, Kept-failure info w2 s2)

    Kept-start : (m : Medium) (w : World p) → Sound p w₀ w → Kept (start_upgrade p attempt id m w)
    unfolding start_upgrade Kept
    Kept-start m w s =
        let w1 = set_bwu_medium_for_endpoint p id m w in
        let s1 = Sound-Quiet p w₀ (Quiet-set_bwu_medium_for_endpoint p id m w) s in
        let w2 = cancel_retry_upgrade_alarm p id w1 in
        let s2 = Sound-cancel p w₀ id w1 s1 in
        let offer = λ (r : ℕ). Kept-offer m r w2 s2 in
        elim (Option-cases (get_channel_for_endpoint p id w2)) [
          | inl n ↦ ground (arith, s1, s2)
          | inr (r, n) ↦ ground (arith, s1, s2, offer r)
        ]

  pub Kept-initiate :
      (fuel : ℕ) (id : Str) (m : Medium) (w : World p)
      → Sound p w₀ w
      → Kept (initiate_bwu_for_endpoint p fuel id m w)
  unfolding initiate_bwu_for_endpoint Kept
  Kept-initiate zero id m w s = tt
  Kept-initiate (suc fuel) id m w s =
      ground (
        arith,
        s,
        Kept-start (initiate_bwu_for_endpoint p fuel id) (Kept-initiate fuel id) id m w s,
      )

  pub Kept-fire :
      (fuel : ℕ) (id : Str) (w : World p) → Sound p w₀ w → Kept (fire_retry_alarm p fuel id w)
  unfolding fire_retry_alarm Kept
  Kept-fire fuel id w s =
      let w1 = cancel_retry_upgrade_alarm p id w in
      let s1 = Sound-cancel p w₀ id w s in
      ground (
        arith,
        s1,
        Kept-try_next (initiate_bwu_for_endpoint p fuel id) (Kept-initiate fuel id) id
            (get_upgrade_mediums id w1.client) w1 s1,
      )
