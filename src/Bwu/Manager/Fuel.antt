-- ===== src/Bwu/Manager/Fuel.antt =====
-- bwu/manager.rs: what more fuel changes of the attempts that follow a failed upgrade.
use nearby_rs.Prelude.{
  ℕ, zero, suc, ◌≤◌, ◌≡◌, arith, true, List, Str, str_eq, is_some, Option-cases, inl, inr,
}
use nearby_rs.Mediums.{Medium, medium_eq}
use nearby_rs.Proto.Upgrade.{UpgradePathInfo}
use nearby_rs.Bwu.Client.{get_upgrade_mediums}
use nearby_rs.Bwu.Platform.{Platform}
use nearby_rs.Bwu.World.{World, write_chan, get_channel_for_endpoint}
use nearby_rs.Bwu.Manager.Medium.{
  upi_medium, upgrade_path_info_for_medium, set_bwu_medium_for_endpoint,
}
use nearby_rs.Bwu.Manager.Retry.{
  untried_after, choose_best_upgrade_medium, cancel_retry_upgrade_alarm,
}
use nearby_rs.Prelude.Set
use nearby_rs.Bwu.Manager.Initiate.{
  Attempt, try_next_best_upgrade_mediums, process_upgrade_failure_event, revert_failed_medium,
  initialize_medium, offer_upgrade, start_upgrade, initiate_bwu_for_endpoint,
}

module _ (p : Platform) (id : Str) where
  -- Where one attempt returns, the other returns the same.
  abbrev Extends : Attempt p → Attempt p → Type 0
  Extends g f = (m : Medium) (w : World p) → is_some (f m w) ≡ true → g m w ≡ f m w

  module _ (g f : Attempt p) (e : Extends g f) where
    try_next-Extends :
        (l : List Medium) (w : World p)
        → is_some (try_next_best_upgrade_mediums p f id l w) ≡ true
        → try_next_best_upgrade_mediums p g id l w ≡ try_next_best_upgrade_mediums p f id l w
    unfolding try_next_best_upgrade_mediums
    try_next-Extends l w h =
        let next = choose_best_upgrade_medium p id l w in
        ground (arith, e next (set_bwu_medium_for_endpoint p id next w))

    pub process_failure-Extends :
        (info : UpgradePathInfo) (w : World p)
        → is_some (process_upgrade_failure_event p f id info w) ≡ true
        → process_upgrade_failure_event p g id info w ≡ process_upgrade_failure_event p f id info w
    unfolding process_upgrade_failure_event
    process_failure-Extends info w h =
        let w1 : World p = record w {
          in_progress_upgrades = Set.remove id w.in_progress_upgrades;
        } in
        ground (
          arith,
          try_next-Extends (untried_after (upi_medium info) (get_upgrade_mediums id w.client))
              (revert_failed_medium p id w1),
        )

    offer-Extends :
        (m : Medium) (r : ℕ) (w : World p)
        → is_some (offer_upgrade p f id m r w) ≡ true
        → offer_upgrade p g id m r w ≡ offer_upgrade p f id m r w
    unfolding offer_upgrade
    offer-Extends m r w h =
        let (b, w1) = initialize_medium p m (p.channel.service_id (w.chan r)) id w in
        let failure = process_failure-Extends (upgrade_path_info_for_medium m) in
        ground (arith, failure w1, failure (write_chan p r b w1).1)

    start-Extends :
        (m : Medium) (w : World p)
        → is_some (start_upgrade p f id m w) ≡ true
        → start_upgrade p g id m w ≡ start_upgrade p f id m w
    unfolding start_upgrade cancel_retry_upgrade_alarm
    start-Extends m w h =
        let w2 = cancel_retry_upgrade_alarm p id (set_bwu_medium_for_endpoint p id m w) in
        elim (Option-cases (get_channel_for_endpoint p id w2)) [
          | inl n ↦ ground (arith, n)
          | inr (r, q) ↦ ground (arith, q, offer-Extends m r w2)
        ]

  pub initiate-Extends :
      (n fuel : ℕ)
      → fuel ≤ n
      → Extends (initiate_bwu_for_endpoint p n id) (initiate_bwu_for_endpoint p fuel id)
  unfolding initiate_bwu_for_endpoint
  initiate-Extends n zero l m w h = absurd (ground (arith, h))
  initiate-Extends zero (suc fuel) l m w h = absurd (omega arith)
  initiate-Extends (suc n) (suc fuel) l m w h = ground (
    arith,
    start-Extends (initiate_bwu_for_endpoint p n id) (initiate_bwu_for_endpoint p fuel id)
        (initiate-Extends n fuel (omega arith)) m w,
  )
