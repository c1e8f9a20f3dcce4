-- ===== src/Prelude/Map.antt =====
-- `HashMap`, as an association list. The order of the entries stands for the order of iteration,
-- which the source leaves open.
use mathlib.Core.Path.{◌≡◌, refl}
use mathlib.Core.Bool.{Bool, true}
use mathlib.Core.Option.{Option, none, some}
use mathlib.Core.List.{List, [], ◌∷◌, map}
use native.Mathlib.Omega.{arith}
use nearby_rs.Prelude.Tests.{if◌then◌else◌, is_some}
use nearby_rs.Prelude.Equality.{Eq, ◌==◌}
use nearby_rs.Prelude.Lists.{length, any}

abbrev pub Map {ℓ κ} : Type ℓ → Type κ → Type (ℓ ⊔ κ)
Map K V = List (K × V)

module _ {ℓ κ} {K : Type ℓ} {V : Type κ} ⦃e : Eq K⦄ where
  unfoldable pub get : K → Map K V → Option V
  get k [] = none
  get k ((j, v) ∷ m) = if j == k then some v else get k m

  unfoldable pub insert : K → V → Map K V → Map K V
  insert k v [] = (k, v) ∷ []
  insert k v ((j, w) ∷ m) = if j == k then (k, v) ∷ m else (j, w) ∷ insert k v m

  unfoldable pub remove : K → Map K V → Map K V
  remove k [] = []
  remove k ((j, v) ∷ m) = let rest = remove k m in if j == k then rest else (j, v) ∷ rest

  abbrev pub contains_key : K → Map K V → Bool
  contains_key k m = is_some (get k m)

  pub get-insert :
      (k j : K) (v : V) (m : Map K V) → get j (insert k v m) ≡ (if k == j then some v else get j m)
  unfolding get insert
  get-insert k j v [] = refl
  get-insert k j v ((i, w) ∷ m) =
      ground (arith, e.beq_iff k j, e.beq_iff i k, e.beq_iff i j, get-insert k j v m)

  pub get-remove : (k j : K) (m : Map K V) → get j (remove k m) ≡ (if k == j then none else get j m)
  unfolding get remove
  get-remove k j [] = ground arith
  get-remove k j ((i, w) ∷ m) =
      ground (arith, e.beq_iff k j, e.beq_iff i k, e.beq_iff i j, get-remove k j m)

  -- Replacing the value of a key that is there adds no entry.
  pub length-insert :
      (k : K) (v : V) (m : Map K V) → contains_key k m ≡ true → length (insert k v m) ≡ length m
  unfolding get insert
  length-insert k v [] h = ground arith
  length-insert k v ((i, w) ∷ m) h = ground (arith, length-insert k v m)

  -- The keys are the entries that have a value.
  abbrev pub keys : Map K V → List K
  keys m = map (λ (k, _). k) m

  pub get-keys : (k : K) (m : Map K V) → any (λ j. j == k) (keys m) ≡ is_some (get k m)
  unfolding get
  get-keys k [] = refl
  get-keys k ((j, v) ∷ m) = ground (arith, get-keys k m)
