-- ===== src/Bwu/Tcp/Address.antt =====
-- `std::net`'s IPv4 addresses as bwu/tcp.rs, bwu/wifi_lan.rs and bwu/wifi_hotspot.rs use them: the
-- four octets, the dotted text of `to_string`, and the parser of `from_str`.
use nearby_rs.Prelude.{
  ℕ, ◌+◌, ◌-◌, ◌*◌, ◌/◌, ◌%◌, ◌<◌, not, ◌&&◌, Option, none, some, List, [], ◌∷◌, ◌++◌, Bytes, Str,
  if◌then◌else◌, ltb, leb, nat_beq, ◌>>=◌,
}
use nearby_rs.Prelude.Int.{ℤ, pos, negsuc}
use nearby_rs.Validator.Text.{split, is_ascii_digit}

pub record Ipv4Addr : Type 0 where
  pub a : ℕ
  pub b : ℕ
  pub c : ℕ
  pub d : ℕ

-- `SocketAddr::from((ip, port))`
pub record SocketAddr : Type 0 where
  pub ip : Ipv4Addr
  pub port : ℕ

-- The octets are bytes.
abbrev pub IsIpv4Addr : Ipv4Addr → Type 0
IsIpv4Addr ip = (ip.a < 256) × (ip.b < 256) × (ip.c < 256) × (ip.d < 256)

abbrev pub localhost : Ipv4Addr
localhost = record { a = 127; b = 0; c = 0; d = 1 }

abbrev pub octets : Ipv4Addr → Bytes
octets ip = ip.a ∷ ip.b ∷ ip.c ∷ ip.d ∷ []

-- `Ipv4Addr::new(ip[0], ip[1], ip[2], ip[3])` behind the test of the length
unfoldable pub from_octets : Bytes → Option Ipv4Addr
from_octets (a ∷ b ∷ c ∷ d ∷ []) = some (record { a = a; b = b; c = c; d = d })
from_octets _ = none

-- A byte in decimal.
unfoldable pub octet_text : ℕ → Str
octet_text n =
    if ltb n 10
    then (b'0' + n) ∷ []
    else if ltb n 100
    then (b'0' + n / 10) ∷ (b'0' + n % 10) ∷ []
    else (b'0' + n / 100) ∷ (b'0' + n / 10 % 10) ∷ (b'0' + n % 10) ∷ []

-- `Ipv4Addr::to_string`
unfoldable pub to_string : Ipv4Addr → Str
to_string ip =
    octet_text ip.a
    ++ b'.' ∷ (octet_text ip.b ++ b'.' ∷ (octet_text ip.c ++ b'.' ∷ octet_text ip.d))

abbrev digit : ℕ → ℕ
digit c = c - b'0'

-- One octet of `Ipv4Addr::from_str`: one to three digits, no leading zero, at most 255.
unfoldable pub parse_octet : Str → Option ℕ
parse_octet (x ∷ []) = if is_ascii_digit x then some (digit x) else none
parse_octet (x ∷ y ∷ []) =
    if is_ascii_digit x && is_ascii_digit y && not (nat_beq x b'0')
    then some (digit x * 10 + digit y)
    else none
parse_octet (x ∷ y ∷ z ∷ []) =
    let n = digit x * 100 + digit y * 10 + digit z in
    if is_ascii_digit x && is_ascii_digit y && is_ascii_digit z && not (nat_beq x b'0') && leb n 255
    then some n
    else none
parse_octet _ = none

unfoldable pub parse_octets : List Str → Option Ipv4Addr
unfolding parse_octet
parse_octets (p ∷ q ∷ r ∷ s ∷ []) = parse_octet p >>= λ a. parse_octet q >>= λ b.
    parse_octet r >>= λ c. parse_octet s >>= λ d. some (record { a = a; b = b; c = c; d = d })
parse_octets _ = none

-- `Ipv4Addr::from_str`
unfoldable pub parse : Str → Option Ipv4Addr
unfolding parse_octets
parse s = parse_octets (split b'.' s)

-- `u16::try_from` of an `i32`
unfoldable pub port_of : ℤ → Option ℕ
port_of (pos n) = if ltb n 65_536 then some n else none
port_of (negsuc n) = none
