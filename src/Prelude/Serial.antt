-- ===== src/Prelude/Serial.antt =====
-- A serial form with its round trip, built up along the structure of a type. It serves to show
-- that what is assumed of a codec can be met.
use mathlib.Core.Path.{◌≡◌, refl}
use mathlib.Core.Bool.{Bool, true, false}
use mathlib.Core.Option.{Option, none, some}
use mathlib.Core.List.{List, [], ◌∷◌}
use Prim.Native.Nat.{ℕ, zero, suc}
use nearby_rs.Prelude.Int.{ℤ, pos, negsuc}
use nearby_rs.Prelude.Tests.{◌>>=◌}
use nearby_rs.Prelude.Lists.{length}
use nearby_rs.Prelude.Equality.{Bytes}

pub record Serial (A : Type 0) : Type 0 where
  pub put : A → Bytes → Bytes
  pub take : Bytes → Option (A × Bytes)
  pub take-put : (a : A) (rest : Bytes) → take (put a rest) ≡ some (a, rest)

abbrev take_nat : Bytes → Option (ℕ × Bytes)
take_nat [] = none
take_nat (n ∷ rest) = some (n, rest)

pub nat_serial : Serial ℕ
nat_serial = record { put = λ n rest. n ∷ rest; take = take_nat; take-put = λ n rest. refl }

abbrev put_int : ℤ → Bytes → Bytes
put_int (pos n) rest = 0 ∷ n ∷ rest
put_int (negsuc n) rest = 1 ∷ n ∷ rest

abbrev take_int : Bytes → Option (ℤ × Bytes)
take_int (zero ∷ n ∷ rest) = some (pos n, rest)
take_int (suc _ ∷ n ∷ rest) = some (negsuc n, rest)
take_int _ = none

take_int-put_int : (n : ℤ) (rest : Bytes) → take_int (put_int n rest) ≡ some (n, rest)
take_int-put_int (pos n) rest = refl
take_int-put_int (negsuc n) rest = refl

pub int_serial : Serial ℤ
int_serial = record { put = put_int; take = take_int; take-put = take_int-put_int }

abbrev put_bool : Bool → Bytes → Bytes
put_bool false rest = 0 ∷ rest
put_bool true rest = 1 ∷ rest

abbrev take_bool : Bytes → Option (Bool × Bytes)
take_bool [] = none
take_bool (zero ∷ rest) = some (false, rest)
take_bool (suc _ ∷ rest) = some (true, rest)

take_bool-put_bool : (b : Bool) (rest : Bytes) → take_bool (put_bool b rest) ≡ some (b, rest)
take_bool-put_bool false rest = refl
take_bool-put_bool true rest = refl

pub bool_serial : Serial Bool
bool_serial = record { put = put_bool; take = take_bool; take-put = take_bool-put_bool }

module _ {A B : Type 0} (p : Serial A) (q : Serial B) where
  abbrev put_pair : A × B → Bytes → Bytes
  put_pair (a, b) rest = p.put a (q.put b rest)

  abbrev take_pair : Bytes → Option ((A × B) × Bytes)
  take_pair s = p.take s >>= λ (a, s'). q.take s' >>= λ (b, s''). some ((a, b), s'')

  take_pair-put_pair : (t : A × B) (rest : Bytes) → take_pair (put_pair t rest) ≡ some (t, rest)
  take_pair-put_pair (a, b) rest = rw (p.take-put, q.take-put)

  pub pair_serial : Serial (A × B)
  pair_serial = record { put = put_pair; take = take_pair; take-put = take_pair-put_pair }

module _ {A B : Type 0} (to : A → B) (from : B → A) (back : (a : A) → from (to a) ≡ a)
    (q : Serial B) where
  abbrev take_iso : Bytes → Option (A × Bytes)
  take_iso s = q.take s >>= λ (b, s'). some (from b, s')

  take_iso-put : (a : A) (rest : Bytes) → take_iso (q.put (to a) rest) ≡ some (a, rest)
  take_iso-put a rest = rw (q.take-put, back)

  pub iso_serial : Serial A
  iso_serial = record {
    put = λ a rest. q.put (to a) rest;
    take = take_iso;
    take-put = take_iso-put;
  }

module _ {A : Type 0} (p : Serial A) where
  abbrev put_option : Option A → Bytes → Bytes
  put_option none rest = 0 ∷ rest
  put_option (some a) rest = 1 ∷ p.put a rest

  abbrev take_option : Bytes → Option (Option A × Bytes)
  take_option [] = none
  take_option (zero ∷ rest) = some (none, rest)
  take_option (suc _ ∷ rest) = p.take rest >>= λ (a, s). some (some a, s)

  take_option-put_option :
      (o : Option A) (rest : Bytes) → take_option (put_option o rest) ≡ some (o, rest)
  take_option-put_option none rest = refl
  take_option-put_option (some a) rest = rw p.take-put

  pub option_serial : Serial (Option A)
  option_serial = record { put = put_option; take = take_option; take-put = take_option-put_option }

  put_all : List A → Bytes → Bytes
  put_all [] rest = rest
  put_all (a ∷ l) rest = p.put a (put_all l rest)

  take_all : ℕ → Bytes → Option (List A × Bytes)
  take_all zero s = some ([], s)
  take_all (suc n) s = p.take s >>= λ (a, s'). take_all n s' >>= λ (l, s''). some (a ∷ l, s'')

  abbrev put_list : List A → Bytes → Bytes
  put_list l rest = length l ∷ put_all l rest

  abbrev take_list : Bytes → Option (List A × Bytes)
  take_list [] = none
  take_list (n ∷ rest) = take_all n rest

  take_all-put_all :
      (l : List A) (rest : Bytes) → take_all (length l) (put_all l rest) ≡ some (l, rest)
  unfolding put_all take_all
  take_all-put_all [] rest = refl
  take_all-put_all (a ∷ l) rest = rw (p.take-put, take_all-put_all l rest)

  pub list_serial : Serial (List A)
  list_serial = record { put = put_list; take = take_list; take-put = take_all-put_all }

pub bytes_serial : Serial Bytes
bytes_serial = list_serial nat_serial
