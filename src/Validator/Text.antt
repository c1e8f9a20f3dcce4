-- ===== src/Validator/Text.antt =====
-- validator.rs: the tests on texts. A text is its UTF-8 bytes; a byte below 0x80 is a character.
use nearby_rs.Prelude.{
  ℕ, ◌+◌, ◌-◌, ◌*◌, Bool, true, false, not, ◌&&◌, ◌||◌, Option, none, some, List, [], ◌∷◌, Str,
  ascii, ltb, leb, nat_beq, if◌then◌else◌, length, is_empty, all, any,
}

-- ILLEGAL_FILE_NAME_PATTERNS, ILLEGAL_PARENT_FOLDER_PATTERNS
abbrev pub illegal_file_name_patterns : List Str
illegal_file_name_patterns = ascii ":" ∷ ascii "/" ∷ ascii "\\" ∷ []

abbrev pub illegal_parent_folder_patterns : List Str
illegal_parent_folder_patterns = ascii ":" ∷ ascii ".." ∷ []

abbrev pub wifi_direct_ssid_max_length : ℕ
wifi_direct_ssid_max_length = 32

abbrev pub wifi_password_ssid_min_length : ℕ
wifi_password_ssid_min_length = 8

abbrev pub wifi_password_ssid_max_length : ℕ
wifi_password_ssid_max_length = 64

abbrev pub wifi_direct_pin_min_length : ℕ
wifi_direct_pin_min_length = 0

abbrev pub wifi_direct_pin_max_length : ℕ
wifi_direct_pin_max_length = 16

unfoldable pub within_range : ℕ → ℕ → ℕ → Bool
within_range value min max = leb min value && ltb value max

-- `str::split` at a character
abbrev onto_first : ℕ → List Str → List Str
onto_first b [] = (b ∷ []) ∷ []
onto_first b (part ∷ parts) = (b ∷ part) ∷ parts

unfoldable pub split : ℕ → Str → List Str
split sep [] = [] ∷ []
split sep (b ∷ s) =
    let parts = split sep s in if nat_beq b sep then [] ∷ parts else onto_first b parts

abbrev pub is_ascii_digit : ℕ → Bool
is_ascii_digit b = leb b'0' b && leb b b'9'

abbrev pub is_ascii_alphanumeric : ℕ → Bool
is_ascii_alphanumeric b = is_ascii_digit b || leb b'a' b && leb b b'z' || leb b'A' b && leb b b'Z'

-- `str::parse::<u16>`: an optional plus sign, then digits, in range
unfoldable pub digits_value : ℕ → Str → Option ℕ
digits_value acc [] = if leb acc 65535 then some acc else none
digits_value acc (b ∷ s) =
    let value = digits_value (acc * 10 + (b - b'0')) s in if is_ascii_digit b then value else none

abbrev nonempty_digits : Str → Option ℕ
nonempty_digits [] = none
nonempty_digits (b ∷ s) = digits_value 0 (b ∷ s)

abbrev pub parse_u16 : Str → Option ℕ
parse_u16 [] = none
parse_u16 (b ∷ s) = if nat_beq b b'+' then nonempty_digits s else nonempty_digits (b ∷ s)

abbrev above_255 : Option ℕ → Bool
above_255 none = true
above_255 (some n) = ltb 255 n

-- The test of one octet: the loop returns false where it holds.
unfoldable pub is_bad_octet : Str → Bool
unfolding digits_value
is_bad_octet octet =
    is_empty octet
    || ltb 3 (length octet)
    || not (all is_ascii_digit octet)
    || above_255 (parse_u16 octet)

-- The loop of `is_valid_ipv4`.
unfoldable pub check_octets : ℕ → List Str → Bool
unfolding is_bad_octet
check_octets parts [] = nat_beq parts 4
check_octets parts (octet ∷ octets) =
    let rest = check_octets (parts + 1) octets in
    if ltb 4 (parts + 1) then false else if is_bad_octet octet then false else rest

unfoldable pub is_valid_ipv4 : Str → Bool
unfolding split check_octets
is_valid_ipv4 s = check_octets 0 (split b'.' s)

-- `str::strip_prefix`
unfoldable pub strip_prefix : Str → Str → Option Str
strip_prefix [] s = some s
strip_prefix (p ∷ ps) [] = none
strip_prefix (p ∷ ps) (b ∷ s) = if nat_beq p b then strip_prefix ps s else none

abbrev is_line_end : ℕ → Bool
is_line_end b = nat_beq b 10 || nat_beq b 13

abbrev after_direct : Option Str → Bool
after_direct none = false
after_direct (some []) = false
after_direct (some (a ∷ [])) = false
after_direct (some (a ∷ b ∷ rest)) =
    is_ascii_alphanumeric a && is_ascii_alphanumeric b && not (any is_line_end rest)

unfoldable pub matches_wifi_direct_ssid : Str → Bool
unfolding strip_prefix
matches_wifi_direct_ssid s = after_direct (strip_prefix (ascii "DIRECT-") s)

-- `str::contains`
abbrev starts_with : Str → Str → Bool
starts_with [] s = true
starts_with (p ∷ ps) [] = false
starts_with (p ∷ ps) (b ∷ s) = nat_beq p b && starts_with ps s

unfoldable pub contains : Str → Str → Bool
contains pat [] = starts_with pat []
contains pat (b ∷ s) = starts_with pat (b ∷ s) || contains pat s

unfoldable pub has_illegal_characters : Str → List Str → Bool
unfolding contains
has_illegal_characters to_validate illegal_patterns =
    if is_empty to_validate then false else any (λ pat. contains pat to_validate) illegal_patterns
