-- ===== src/Bwu/Tcp/AddressText.antt =====
-- `std::net`'s texts of IPv4 addresses: what is printed is parsed, and passes the validator.
use nearby_rs.Prelude.{
  ℕ, ◌<◌, ◌≡◌, refl, arith, Bool, true, not, some, [], ◌∷◌, ◌++◌, Str, nat_beq, all,
}
use nearby_rs.Validator.Text.{split, is_bad_octet, check_octets, digits_value, is_valid_ipv4}
use nearby_rs.Bwu.Tcp.Address.{
  Ipv4Addr, IsIpv4Addr, octet_text, to_string, parse_octet, parse_octets, parse,
}

abbrev has_no : ℕ → Str → Bool
has_no sep = all (λ c. not (nat_beq c sep))

split-append :
    (sep : ℕ) (part rest : Str)
    → has_no sep part ≡ true
    → split sep (part ++ sep ∷ rest) ≡ part ∷ split sep rest
unfolding split
split-append sep [] rest h = ground arith
split-append sep (c ∷ part) rest h = ground (arith, split-append sep part rest)

split-whole : (sep : ℕ) (part : Str) → has_no sep part ≡ true → split sep part ≡ part ∷ []
unfolding split
split-whole sep [] h = refl
split-whole sep (c ∷ part) h = ground (arith, split-whole sep part)

has_no-octet_text : (n : ℕ) → n < 256 → has_no b'.' (octet_text n) ≡ true
unfolding octet_text
has_no-octet_text n h = ground arith

parse_octet-octet_text : (n : ℕ) → n < 256 → parse_octet (octet_text n) ≡ some n
unfolding octet_text parse_octet
parse_octet-octet_text n h = ground arith

is_bad_octet-octet_text : (n : ℕ) → n < 256 → not (is_bad_octet (octet_text n)) ≡ true
unfolding octet_text is_bad_octet digits_value
is_bad_octet-octet_text n h = ground arith

split-to_string :
    (ip : Ipv4Addr)
    → IsIpv4Addr ip
    → split b'.' (to_string ip)
      ≡ octet_text ip.a ∷ octet_text ip.b ∷ octet_text ip.c ∷ octet_text ip.d ∷ []
unfolding to_string
split-to_string ip (a, b, c, d) =
    let rest_c = octet_text ip.c ++ b'.' ∷ octet_text ip.d in
    let rest_b = octet_text ip.b ++ b'.' ∷ rest_c in
    rw
      (
        split-append b'.' (octet_text ip.a) rest_b (has_no-octet_text ip.a a),
        split-append b'.' (octet_text ip.b) rest_c (has_no-octet_text ip.b b),
        split-append b'.' (octet_text ip.c) (octet_text ip.d) (has_no-octet_text ip.c c),
        split-whole b'.' (octet_text ip.d) (has_no-octet_text ip.d d),
      )
      refl

-- The text of an address is parsed as the address.
pub parse-to_string : (ip : Ipv4Addr) → IsIpv4Addr ip → parse (to_string ip) ≡ some ip
unfolding parse parse_octets
parse-to_string ip h = ground (
  arith,
  split-to_string ip h,
  parse_octet-octet_text ip.a h.0,
  parse_octet-octet_text ip.b h.1,
  parse_octet-octet_text ip.c h.2,
  parse_octet-octet_text ip.d h.3,
)

-- The text of an address passes the validator's test.
pub is_valid_ipv4-to_string : (ip : Ipv4Addr) → IsIpv4Addr ip → is_valid_ipv4 (to_string ip) ≡ true
unfolding is_valid_ipv4 check_octets
is_valid_ipv4-to_string ip h = ground (
  arith,
  split-to_string ip h,
  is_bad_octet-octet_text ip.a h.0,
  is_bad_octet-octet_text ip.b h.1,
  is_bad_octet-octet_text ip.c h.2,
  is_bad_octet-octet_text ip.d h.3,
)
