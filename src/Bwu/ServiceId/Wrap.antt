-- ===== src/Bwu/ServiceId/Wrap.antt =====
-- bwu/service_id.rs: a service id under the initiator's postfix, and back.
use nearby_rs.Prelude.{
  ℕ, ◌≡◌, refl, ap, arith, true, false, not, some, [], ◌∷◌, ◌++◌, Str, ◌==◌, str_eq, str_beq_iff,
  length, length-append, is_empty,
}
use nearby_rs.Bwu.ServiceId.{
  initiator_upgrade_service_id_postfix, ends_with, strip_suffix, is_initiator_upgrade_service_id,
  wrap_initiator_upgrade_service_id, unwrap_initiator_upgrade_service_id,
}

-- A text with something before the suffix is not the suffix.
longer_is_not : (b : ℕ) (s suffix : Str) → (b ∷ (s ++ suffix) == suffix) ≡ false
longer_is_not b s suffix = ground (
  arith,
  str_beq_iff (b ∷ (s ++ suffix)) suffix,
  length-append s suffix,
  λ (e : b ∷ (s ++ suffix) ≡ suffix). ap length e,
)

ends_with-append : (suffix s : Str) → ends_with suffix (s ++ suffix) ≡ true
unfolding ends_with
ends_with-append [] [] = refl
ends_with-append (b ∷ t) [] = ground (arith, str_beq_iff (b ∷ t) (b ∷ t))
ends_with-append suffix (b ∷ s) = ground (arith, ends_with-append suffix s)

strip_suffix-append : (suffix s : Str) → strip_suffix suffix (s ++ suffix) ≡ some s
unfolding strip_suffix
strip_suffix-append [] [] = refl
strip_suffix-append (b ∷ t) [] = ground (arith, str_beq_iff (b ∷ t) (b ∷ t))
strip_suffix-append suffix (b ∷ s) =
    ground (arith, strip_suffix-append suffix s, longer_is_not b s suffix)

-- What wrapping makes of a service id that is not empty is an initiator's service id.
pub is_initiator-wrap :
    (s : Str)
    → is_initiator_upgrade_service_id (wrap_initiator_upgrade_service_id s) ≡ not (is_empty s)
unfolding wrap_initiator_upgrade_service_id is_initiator_upgrade_service_id
is_initiator-wrap [] = refl
is_initiator-wrap (b ∷ s) =
    ground (arith, ends_with-append initiator_upgrade_service_id_postfix (b ∷ s))

-- Wrapping twice is wrapping once.
pub wrap-wrap :
    (s : Str)
    → wrap_initiator_upgrade_service_id (wrap_initiator_upgrade_service_id s)
      ≡ wrap_initiator_upgrade_service_id s
unfolding wrap_initiator_upgrade_service_id
wrap-wrap s = ground (arith, is_initiator-wrap s)

-- Unwrapping gives back a service id that was wrapped, if it was not an initiator's already.
-- Wrapping twice is wrapping once, and what wrapping makes is an initiator's service id exactly if
-- the service id is not empty.
pub unwrap-wrap :
    (s : Str)
    → is_initiator_upgrade_service_id s ≡ false
    → (unwrap_initiator_upgrade_service_id (wrap_initiator_upgrade_service_id s) ≡ s)
      × (wrap_initiator_upgrade_service_id (wrap_initiator_upgrade_service_id s)
          ≡ wrap_initiator_upgrade_service_id s)
      × (is_initiator_upgrade_service_id (wrap_initiator_upgrade_service_id s) ≡ not (is_empty s))
unfolding wrap_initiator_upgrade_service_id unwrap_initiator_upgrade_service_id
unwrap-wrap s h = (
  ground (arith, is_initiator-wrap s, strip_suffix-append initiator_upgrade_service_id_postfix s),
  wrap-wrap s,
  is_initiator-wrap s,
)
