-- ===== src/Bwu/Manager/Termination.antt =====
-- bwu/manager.rs: the attempts end. Each failed attempt leaves fewer untried mediums, if the
-- endpoint's upgrade mediums are distinct and known.
use nearby_rs.Prelude.{
  ◌<◌, ◌≤◌, ◌≡◌, refl, inl, inr, arith, Bool, true, false, List, [], ◌∷◌, ◌==◌, if◌then◌else◌,
  length, any, Bool-cases,
}
use nearby_rs.Mediums.{Medium, medium_eq, medium_beq, medium_beq_iff}
use nearby_rs.Bwu.Manager.Medium.{upi_medium, upgrade_path_info_for_medium}
use nearby_rs.Bwu.Manager.Retry.{untried_after}

abbrev pub has : Medium → List Medium → Bool
has m l = any (λ x. x == m) l

abbrev pub Distinct : List Medium → Type 0
Distinct [] = Unit
Distinct (x ∷ xs) = (has x xs ≡ false) × Distinct xs

pub has-untried_after :
    (last next : Medium) (l : List Medium)
    → has next (untried_after last l) ≡ true
    → has next l ≡ true
unfolding untried_after
has-untried_after last next [] h = h
has-untried_after last next (x ∷ xs) h = ground (arith, has-untried_after last next xs)

pub untried_after-lt :
    (next : Medium) (l : List Medium) → has next l ≡ true → length (untried_after next l) < length l
unfolding untried_after
untried_after-lt next [] h = ground arith
untried_after-lt next (x ∷ xs) h = ground (arith, untried_after-lt next xs)

pub untried_after-shrinks :
    (last next : Medium) (l : List Medium)
    → Distinct l
    → has next (untried_after last l) ≡ true
    → length (untried_after next l) < length (untried_after last l)
unfolding untried_after
untried_after-shrinks last next [] d h = ground arith
untried_after-shrinks last next (x ∷ xs) d h = ground (
  arith,
  untried_after-shrinks last next xs d.1,
  untried_after-lt next xs,
  has-untried_after last next xs,
  medium_beq_iff x next,
)

pub untried_after-absent : (m : Medium) (l : List Medium) → has m l ≡ false → untried_after m l ≡ []
unfolding untried_after
untried_after-absent m [] h = refl
untried_after-absent m (x ∷ xs) h = ground (arith, untried_after-absent m xs)

pub upi_medium-upgrade_path_info_for_medium :
    (m : Medium)
    → upi_medium (upgrade_path_info_for_medium m)
      ≡ (if m == Medium.ble_l2cap then Medium.unknown_medium else m)
unfolding medium_beq upi_medium upgrade_path_info_for_medium
upi_medium-upgrade_path_info_for_medium Medium.mdns = refl
upi_medium-upgrade_path_info_for_medium _ = refl

has-pos : (m : Medium) (l : List Medium) → has m l ≡ true → 0 < length l
has-pos m [] h = ground arith
has-pos m (x ∷ l) h = omega arith

-- An attempt on one of the mediums left by a failure leaves fewer.
pub untried_after-attempt :
    (last next : Medium) (l : List Medium)
    → Distinct l
    → has Medium.unknown_medium l ≡ false
    → has next (untried_after last l) ≡ true
    → length (untried_after (upi_medium (upgrade_path_info_for_medium next)) l)
      < length (untried_after last l)
untried_after-attempt last next l d u h = elim (Bool-cases (next == Medium.ble_l2cap)) [
  | inl e ↦
      rw
        (
          upi_medium-upgrade_path_info_for_medium next,
          e,
          untried_after-absent Medium.unknown_medium l u,
        )
        (has-pos next (untried_after last l) h)
  | inr e ↦
      rw (upi_medium-upgrade_path_info_for_medium next, e) (untried_after-shrinks last next l d h)
]

pub untried_after-le : (m : Medium) (l : List Medium) → length (untried_after m l) ≤ length l
unfolding untried_after
untried_after-le m [] = omega arith
untried_after-le m (x ∷ l) = ground (arith, untried_after-le m l)
