-- ===== src/Prelude/Utf8.antt =====
-- `String::from_utf8_lossy` of the source's standard library: each maximal ill-formed part of the
-- bytes is replaced by U+FFFD.
use mathlib.Core.Path.{◌≡◌, refl}
use mathlib.Core.Bool.{Bool, true, false, ◌&&◌}
use mathlib.Core.Option.{Option, none, some}
use mathlib.Core.List.{List, [], ◌∷◌, ◌++◌}
use native.Mathlib.Omega.{arith}
use Prim.Native.Nat.{ℕ}
use mathlib.Core.Logic.{inl, inr, ◌≢◌}
use nearby_rs.Prelude.Tests.{ltb, leb, nat_beq, if◌then◌else◌, Bool-cases, Option-cases}
use nearby_rs.Prelude.Lists.{all, is_empty}
use nearby_rs.Prelude.Equality.{Bytes, Str}

abbrev replacement : Bytes
replacement = 0xef ∷ 0xbf ∷ 0xbd ∷ []

-- The ranges of the bytes that are to follow.
abbrev Ranges : Type 0
Ranges = List (ℕ × ℕ)

abbrev tail_range : ℕ × ℕ
tail_range = (0x80, 0xbf)

-- What may follow a lead byte, by the table of well-formed byte sequences.
lead_ranges : ℕ → Option Ranges
lead_ranges b =
    if leb 0xc2 b && leb b 0xdf
    then some (tail_range ∷ [])
    else if nat_beq b 0xe0
    then some ((0xa0, 0xbf) ∷ tail_range ∷ [])
    else if nat_beq b 0xed
    then some ((0x80, 0x9f) ∷ tail_range ∷ [])
    else if leb 0xe1 b && leb b 0xef
    then some (tail_range ∷ tail_range ∷ [])
    else if nat_beq b 0xf0
    then some ((0x90, 0xbf) ∷ tail_range ∷ tail_range ∷ [])
    else if leb 0xf1 b && leb b 0xf3
    then some (tail_range ∷ tail_range ∷ tail_range ∷ [])
    else if nat_beq b 0xf4
    then some ((0x80, 0x8f) ∷ tail_range ∷ tail_range ∷ [])
    else none

-- The bytes put out, the bytes of an unfinished character, and what may follow them.
abbrev Step : Type 0
Step = Bytes × Bytes × Ranges

begin_char : Bytes → ℕ → Step
unfolding lead_ranges
begin_char out b = if ltb b 0x80 then (out ++ b ∷ [], [], []) else elim (lead_ranges b) [
  | none ↦ (out ++ replacement, [], [])
  | some ranges ↦ (out, b ∷ [], ranges)
]

in_range : ℕ × ℕ → ℕ → Bool
in_range (lo, hi) b = leb lo b && leb b hi

feed : Bytes → Ranges → ℕ → Step
unfolding begin_char in_range
feed pending [] b = begin_char [] b
feed pending (r ∷ []) b =
    if in_range r b then (pending ++ b ∷ [], [], []) else begin_char replacement b
feed pending (r ∷ s ∷ rs) b =
    if in_range r b then ([], pending ++ b ∷ [], s ∷ rs) else begin_char replacement b

lossy : Bytes → Ranges → Bytes → Str
unfolding feed
lossy pending [] [] = []
lossy pending (_ ∷ _) [] = replacement
lossy pending ranges (b ∷ bs) =
    let (out, pending', ranges') = feed pending ranges b in out ++ lossy pending' ranges' bs

unfoldable pub from_utf8_lossy : Bytes → Str
unfolding lossy
from_utf8_lossy bs = lossy [] [] bs

abbrev pub is_ascii : Bytes → Bool
is_ascii = all (λ b. ltb b 0x80)

lossy_ascii : (bs : Bytes) → is_ascii bs ≡ true → lossy [] [] bs ≡ bs
unfolding lossy
lossy_ascii [] h = refl
lossy_ascii (b ∷ bs) h = ground (arith, lossy_ascii bs)

pub from_utf8_lossy_ascii : (bs : Bytes) → is_ascii bs ≡ true → from_utf8_lossy bs ≡ bs
unfolding from_utf8_lossy
from_utf8_lossy_ascii bs h = lossy_ascii bs h

-- What one step puts out, followed by the rest.
abbrev emit : Step → Bytes → Str
emit (out, pending, ranges) bs = out ++ lossy pending ranges bs

lead_ranges-ne-nil : (b : ℕ) → lead_ranges b ≢ some []
unfolding lead_ranges
lead_ranges-ne-nil b h = ground arith

emit-begin_char :
    (b : ℕ) (bs : Bytes)
    → ((r : ℕ × ℕ) (rs : Ranges) → is_empty (lossy (b ∷ []) (r ∷ rs) bs) ≡ false)
    → is_empty (emit (begin_char [] b) bs) ≡ false
unfolding begin_char
emit-begin_char b bs h = elim (Bool-cases (ltb b 0x80)) [
  | inl e ↦ rw (e, begin_char) refl
  | inr e ↦ elim (Option-cases (lead_ranges b)) [
    | inl n ↦ rw (e, n, begin_char) refl
    | inr ([], q) ↦ absurd (lead_ranges-ne-nil b q)
    | inr (r ∷ rs, q) ↦ rw (e, q, begin_char) (h r rs)
  ]
]

emit-begin_char-replacement :
    (b : ℕ) (bs : Bytes) → is_empty (emit (begin_char replacement b) bs) ≡ false
unfolding begin_char
emit-begin_char-replacement b bs = elim (Bool-cases (ltb b 0x80)) [
  | inl e ↦ rw (e, begin_char) refl
  | inr e ↦ elim (Option-cases (lead_ranges b)) [
    | inl n ↦ rw (e, n, begin_char) refl
    | inr (r, q) ↦ rw (e, q, begin_char) refl
  ]
]

lossy_pending :
    (p : ℕ) (pending : Bytes) (r : ℕ × ℕ) (ranges : Ranges) (bs : Bytes)
    → is_empty (lossy (p ∷ pending) (r ∷ ranges) bs) ≡ false
unfolding lossy
lossy_pending p pending r ranges [] = refl
lossy_pending p pending r [] (b ∷ bs) = elim (Bool-cases (in_range r b)) [
  | inl e ↦ rw (e, feed) refl
  | inr e ↦ rw (e, feed) (emit-begin_char-replacement b bs)
]
lossy_pending p pending r (s ∷ rs) (b ∷ bs) = elim (Bool-cases (in_range r b)) [
  | inl e ↦ rw (e, feed) (lossy_pending p (pending ++ b ∷ []) s rs bs)
  | inr e ↦ rw (e, feed) (emit-begin_char-replacement b bs)
]

-- Only the empty text comes from no bytes.
pub is_empty-from_utf8_lossy : (bs : Bytes) → is_empty (from_utf8_lossy bs) ≡ is_empty bs
unfolding from_utf8_lossy
is_empty-from_utf8_lossy [] = refl
is_empty-from_utf8_lossy (b ∷ bs) = emit-begin_char b bs (λ r rs. lossy_pending b [] r rs bs)

-- A well-formed character stays; a lone lead byte, a surrogate and a cut character do not.
lossy_example :
    from_utf8_lossy (0x41 ∷ 0xc3 ∷ 0xa9 ∷ 0xc3 ∷ 0x41 ∷ 0xe2 ∷ 0x82 ∷ [])
    ≡ 0x41 ∷ 0xc3 ∷ 0xa9 ∷ 0xef ∷ 0xbf ∷ 0xbd ∷ 0x41 ∷ 0xef ∷ 0xbf ∷ 0xbd ∷ []
unfolding from_utf8_lossy
lossy_example = refl
