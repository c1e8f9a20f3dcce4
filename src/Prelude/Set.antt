-- ===== src/Prelude/Set.antt =====
-- `HashSet`, as a list.
use mathlib.Core.Path.{◌≡◌}
use mathlib.Core.Bool.{Bool, true, false, ◌||◌}
use mathlib.Core.List.{List, [], ◌∷◌}
use native.Mathlib.Omega.{arith}
use nearby_rs.Prelude.Tests.{if◌then◌else◌}
use nearby_rs.Prelude.Equality.{Eq, ◌==◌}

module _ {ℓ} {K : Type ℓ} ⦃e : Eq K⦄ where
  unfoldable pub contains : K → List K → Bool
  contains k [] = false
  contains k (j ∷ s) = j == k || contains k s

  unfoldable pub insert : K → List K → List K
  unfolding contains
  insert k s = if contains k s then s else k ∷ s

  unfoldable pub remove : K → List K → List K
  remove k [] = []
  remove k (j ∷ s) = let rest = remove k s in if j == k then rest else j ∷ rest

  pub contains-insert :
      (k j : K) (s : List K) → contains j (insert k s) ≡ (if k == j then true else contains j s)
  unfolding insert
  contains-insert k j s = ground (arith, e.beq_iff k j)

  pub contains-remove :
      (k j : K) (s : List K) → contains j (remove k s) ≡ (if k == j then false else contains j s)
  unfolding contains remove
  contains-remove k j [] = ground arith
  contains-remove k j (i ∷ s) =
      ground (arith, e.beq_iff k j, e.beq_iff i k, e.beq_iff i j, contains-remove k j s)
