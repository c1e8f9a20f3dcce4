-- ===== src/Bwu/ServiceId.antt =====
-- bwu/service_id.rs
pub mod Wrap
use nearby_rs.Prelude.{
  Bool, not, ◌&&◌, ◌||◌, Option, none, some, [], ◌∷◌, ◌++◌, Str, ◌==◌, str_eq, ascii, if◌then◌else◌,
  is_empty, unwrap_or, ◌>>=◌,
}

-- UNKNOWN_SERVICE_ID
abbrev pub unknown_service_id : Str
unknown_service_id = ascii "UNKNOWN_SERVICE"

-- INITIATOR_UPGRADE_SERVICE_ID_POSTFIX
abbrev pub initiator_upgrade_service_id_postfix : Str
initiator_upgrade_service_id_postfix = ascii "_UPGRADE"

-- `str::ends_with`
unfoldable pub ends_with : Str → Str → Bool
ends_with suffix [] = is_empty suffix
ends_with suffix (b ∷ s) = b ∷ s == suffix || ends_with suffix s

-- `str::strip_suffix`
unfoldable pub strip_suffix : Str → Str → Option Str
strip_suffix suffix [] = if is_empty suffix then some [] else none
strip_suffix suffix (b ∷ s) =
    let rest = strip_suffix suffix s in
    if b ∷ s == suffix then some [] else rest >>= λ t. some (b ∷ t)

unfoldable pub is_initiator_upgrade_service_id : Str → Bool
unfolding ends_with
is_initiator_upgrade_service_id service_id =
    not (is_empty service_id) && ends_with initiator_upgrade_service_id_postfix service_id

unfoldable pub wrap_initiator_upgrade_service_id : Str → Str
unfolding is_initiator_upgrade_service_id
wrap_initiator_upgrade_service_id service_id =
    if is_empty service_id || is_initiator_upgrade_service_id service_id
    then service_id
    else service_id ++ initiator_upgrade_service_id_postfix

unfoldable pub unwrap_initiator_upgrade_service_id : Str → Str
unfolding is_initiator_upgrade_service_id strip_suffix
unwrap_initiator_upgrade_service_id service_id =
    if is_empty service_id || not (is_initiator_upgrade_service_id service_id)
    then service_id
    else unwrap_or (strip_suffix initiator_upgrade_service_id_postfix service_id) service_id
