-- ===== src/Validator/Examples.antt =====
-- The validator at concrete inputs.
use nearby_rs.Prelude.{◌≡◌, ◌&&◌, Str, ascii, length, all, nat_beq}
use nearby_rs.Validator.Text.{split, is_valid_ipv4}
use nearby_rs.Validator.Ipv4.{join, good_octet, is_valid_ipv4-octets}

abbrev address : Str
address = ascii "192.168.0.1"

is_valid_ipv4-octets_example :
    (join b'.' (split b'.' address) ≡ address)
    × (is_valid_ipv4 address
        ≡ (nat_beq (length (split b'.' address)) 4 && all good_octet (split b'.' address)))
is_valid_ipv4-octets_example = is_valid_ipv4-octets address
