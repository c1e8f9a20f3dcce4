-- ===== src/Bwu/Manager/Choice.antt =====
-- bwu/manager.rs: the choice of the next medium.
use nearby_rs.Prelude.{◌≡◌, refl, ◌⊎◌, inl, arith, true, List, [], ◌∷◌, Str, str_eq}
use nearby_rs.Mediums.{Medium, medium_eq, medium_beq_iff}
use nearby_rs.Bwu.Platform.{Platform}
use nearby_rs.Bwu.World.{World}
use nearby_rs.Bwu.Manager.Medium.{get_bwu_medium_for_endpoint, has_handler_for_medium}
use nearby_rs.Bwu.Manager.Retry.{
  first_or_unknown, strip_out_unavailable_mediums, choose_best_upgrade_medium,
}
use nearby_rs.Bwu.Manager.Termination.{has}
use nearby_rs.Bwu.Manager.Attempts.{choose_cases}

module _ (p : Platform) where
  handled-first :
      (l : List Medium) (w : World p)
      → (first_or_unknown (strip_out_unavailable_mediums p l w) ≡ Medium.unknown_medium)
        ⊎ (has_handler_for_medium p (first_or_unknown (strip_out_unavailable_mediums p l w)) w
            ≡ true)
  unfolding strip_out_unavailable_mediums
  handled-first [] w = inl refl
  handled-first (m ∷ l) w = ground (arith, handled-first l w)

  handled-member :
      (m : Medium) (l : List Medium) (w : World p)
      → has m (strip_out_unavailable_mediums p l w) ≡ true
      → has_handler_for_medium p m w ≡ true
  unfolding strip_out_unavailable_mediums
  handled-member m [] w h = ground (arith, h)
  handled-member m (x ∷ l) w h = ground (arith, medium_beq_iff x m, handled-member m l w)

  -- The medium chosen for an endpoint is unknown, or it is one of those offered and has a handler.
  pub choose_best-available :
      (id : Str) (l : List Medium) (w : World p)
      → (choose_best_upgrade_medium p id l w ≡ Medium.unknown_medium)
        ⊎ ((has (choose_best_upgrade_medium p id l w) l ≡ true)
            × (has_handler_for_medium p (choose_best_upgrade_medium p id l w) w ≡ true))
  unfolding choose_best_upgrade_medium
  choose_best-available id l w = ground (
    arith,
    choose_cases p id l w,
    handled-first l w,
    handled-member (get_bwu_medium_for_endpoint p id w) l w,
  )
