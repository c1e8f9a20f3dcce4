-- ===== src/Validator/Ipv4.antt =====
-- validator.rs: `is_valid_ipv4` against a description of its texts.
use nearby_rs.Prelude.{
  ℕ, ◌+◌, ◌≡◌, refl, arith, Bool, not, ◌&&◌, List, [], ◌∷◌, ◌++◌, Str, nat_beq, length, all,
  nat_beq_iff, Bool-cases, inl, inr, ◌*◌, ◌-◌, some, none, true, is_empty, leb, if◌then◌else◌,
}
use nearby_rs.Validator.Text.{
  split, is_ascii_digit, digits_value, is_bad_octet, check_octets, is_valid_ipv4,
}

-- The number that digits write.
unfoldable pub decimal : ℕ → Str → ℕ
decimal acc [] = acc
decimal acc (b ∷ s) = decimal (acc * 10 + (b - 48)) s

-- An octet is one to three digits that write a number of at most 255.
abbrev pub good_octet : Str → Bool
good_octet octet =
    not (is_empty octet)
    && leb (length octet) 3
    && all (λ b. leb 48 b && leb b 57) octet
    && leb (decimal 0 octet) 255

digits_value-decimal :
    (acc : ℕ) (s : Str)
    → all is_ascii_digit s ≡ true
    → digits_value acc s ≡ (if leb (decimal acc s) 65535 then some (decimal acc s) else none)
unfolding digits_value decimal
digits_value-decimal acc [] h = refl
digits_value-decimal acc (b ∷ s) h = ground (arith, digits_value-decimal (acc * 10 + (b - 48)) s)

is_bad_octet-good_octet : (octet : Str) → is_bad_octet octet ≡ not (good_octet octet)
unfolding is_bad_octet decimal
is_bad_octet-good_octet [] = refl
is_bad_octet-good_octet (b ∷ s) = ground (arith, digits_value-decimal 0 (b ∷ s))

check_octets-all :
    (n : ℕ) (l : List Str) → check_octets n l ≡ (nat_beq (n + length l) 4 && all good_octet l)
unfolding check_octets
check_octets-all n [] = ground arith
check_octets-all n (octet ∷ octets) =
    ground (arith, check_octets-all (n + 1) octets, is_bad_octet-good_octet octet)

-- The parts of a text, joined by the separator.
unfoldable pub join : ℕ → List Str → Str
join sep [] = []
join sep (part ∷ []) = part
join sep (part ∷ next ∷ parts) = part ++ (sep ∷ join sep (next ∷ parts))

split-cons : (sep : ℕ) (s : Str) → (part : Str) × (parts : List Str) × (split sep s ≡ part ∷ parts)
unfolding split
split-cons sep [] = ([], [], refl)
split-cons sep (b ∷ s) =
    let (part, parts, e) = split-cons sep s in
    elim (Bool-cases (nat_beq b sep)) [
      | inl q ↦ ([], split sep s, rw q refl)
      | inr q ↦ (b ∷ part, parts, rw (q, e) refl)
    ]

join-onto_first :
    (sep b : ℕ) (part : Str) (parts : List Str)
    → join sep ((b ∷ part) ∷ parts) ≡ b ∷ join sep (part ∷ parts)
unfolding join
join-onto_first sep b part [] = refl
join-onto_first sep b part (next ∷ parts) = refl

join-split : (sep : ℕ) (s : Str) → join sep (split sep s) ≡ s
unfolding split join
join-split sep [] = refl
join-split sep (b ∷ s) =
    let (part, parts, e) = split-cons sep s in
    ground (arith, e, nat_beq_iff b sep, join-split sep s, join-onto_first sep b part parts)

-- A text is an IPv4 address exactly if its parts between the dots, of which it is the dotted
-- join, are four octets: one to three digits each, that write a number of at most 255.
pub is_valid_ipv4-octets :
    (s : Str)
    → (join b'.' (split b'.' s) ≡ s)
      × (is_valid_ipv4 s ≡ (nat_beq (length (split b'.' s)) 4 && all good_octet (split b'.' s)))
unfolding is_valid_ipv4
is_valid_ipv4-octets s = (join-split b'.' s, ground (arith, check_octets-all 0 (split b'.' s)))
