-- ===== src/Bwu/Manager/Backoff.antt =====
-- bwu/manager.rs: the delays of an endpoint whose upgrade is put off again and again.
use nearby_rs.Prelude.{
  ℕ, zero, suc, ◌+◌, ◌*◌, ◌^◌, min, ◌≤◌, ◌≡◌, refl, ap, ◌∙◌, arith, true, false, none, some, Str,
  str_eq, str_beq_iff, if◌then◌else◌, is_some,
}
use native.Mathlib.Nat.{pow-suc, mul_assoc}
use nearby_rs.Prelude.Map
use nearby_rs.Prelude.Map.{get-insert}
use nearby_rs.Bwu.Platform.{Platform}
use nearby_rs.Bwu.World.{World, max_duration}
use nearby_rs.Bwu.Manager.Retry.{
  uncapped_delay, calculate_next_retry_delay, cancel_retry_upgrade_alarm,
  retry_upgrades_after_delay, pending_retry_delay,
}

min_doubled : (x m c : ℕ) → c ≡ min x m → min (c * 2) m ≡ min (x * 2) m
min_doubled x m c e = grind arith

power_doubled : (x n : ℕ) → x * 2 ^ n * 2 ≡ x * 2 ^ suc n
power_doubled x n = rw (pow-suc 2 n) (mul_assoc x (2 ^ n) 2)

module _ (p : Platform) (id : Str) where
  -- `n` retries in a row.
  unfoldable pub retries : ℕ → World p → World p
  retries zero w = w
  retries (suc n) w = retry_upgrades_after_delay p id (retries n w)

  config-retries : (n : ℕ) (w : World p) → (retries n w).config ≡ w.config
  unfolding retries retry_upgrades_after_delay cancel_retry_upgrade_alarm
  config-retries zero w = refl
  config-retries (suc n) w = config-retries n w

  get-retries :
      (n : ℕ) (w : World p)
      → Map.get id (retries (suc n) w).retry_delays
        ≡ some (calculate_next_retry_delay p id (retries n w))
  unfolding retries retry_upgrades_after_delay cancel_retry_upgrade_alarm
  get-retries n w = rw get-insert (ground (arith, str_beq_iff id id))

  pending-retries :
      (n : ℕ) (w : World p)
      → pending_retry_delay p id (retries (suc n) w)
        ≡ some (calculate_next_retry_delay p id (retries n w))
  unfolding retries retry_upgrades_after_delay cancel_retry_upgrade_alarm pending_retry_delay
  pending-retries n w = rw get-insert (ground (arith, str_beq_iff id id))

  -- The delay that follows the next one.
  next-retries :
      (n : ℕ) (w : World p)
      → calculate_next_retry_delay p id (retries (suc n) w) ≡ (
          let last = calculate_next_retry_delay p id (retries n w) in
          let c = w.config in
          min
            (if c.use_exp_backoff_in_bwu_retry
              then last * 2
              else last + c.bandwidth_upgrade_retry_delay)
            c.bandwidth_upgrade_retry_max_delay)
  unfolding calculate_next_retry_delay
  next-retries n w = ground (arith, get-retries n w, config-retries (suc n) w)

  first-retries :
      (w : World p)
      → Map.get id w.retry_delays ≡ none
      → calculate_next_retry_delay p id (retries zero w) ≡ w.config.bandwidth_upgrade_retry_delay
  unfolding calculate_next_retry_delay retries
  first-retries w e = ground (arith, e)

  module _ (w : World p) (none_yet : Map.get id w.retry_delays ≡ none)
      (ordered : w.config.bandwidth_upgrade_retry_delay
        ≤ w.config.bandwidth_upgrade_retry_max_delay)
      (representable : w.config.bandwidth_upgrade_retry_max_delay * 2 ≤ max_duration) where
    next-exponential :
        (n : ℕ)
        → w.config.use_exp_backoff_in_bwu_retry ≡ true
        → calculate_next_retry_delay p id (retries n w)
          ≡ min
              (w.config.bandwidth_upgrade_retry_delay * 2 ^ n)
              w.config.bandwidth_upgrade_retry_max_delay
    next-exponential zero x = omega (arith, first-retries w none_yet)
    next-exponential (suc n) x =
        next-retries n w
        ∙ simp x (
            min_doubled (w.config.bandwidth_upgrade_retry_delay * 2 ^ n)
              w.config.bandwidth_upgrade_retry_max_delay
              (calculate_next_retry_delay p id (retries n w)) (next-exponential n x))
        ∙ ap (λ t. min t w.config.bandwidth_upgrade_retry_max_delay)
            (power_doubled w.config.bandwidth_upgrade_retry_delay n)

    next-linear :
        (n : ℕ)
        → w.config.use_exp_backoff_in_bwu_retry ≡ false
        → calculate_next_retry_delay p id (retries n w)
          ≡ min
              (w.config.bandwidth_upgrade_retry_delay * suc n)
              w.config.bandwidth_upgrade_retry_max_delay
    next-linear zero x = omega (arith, first-retries w none_yet)
    next-linear (suc n) x = next-retries n w ∙ simp x (omega (arith, next-linear n x))

    next-bounded :
        (n : ℕ)
        → calculate_next_retry_delay p id (retries n w) ≤ w.config.bandwidth_upgrade_retry_max_delay
    next-bounded zero = omega (arith, first-retries w none_yet)
    next-bounded (suc n) = grind (arith, next-retries n w)

    -- No retry in the row overflows.
    uncapped-retries : (n : ℕ) → is_some (uncapped_delay p id (retries n w)) ≡ true
    unfolding uncapped_delay retries
    uncapped-retries zero = ground (arith, none_yet)
    uncapped-retries (suc n) =
        ground (arith, get-retries n w, config-retries (suc n) w, next-bounded n)

    -- With exponential backoff, the delay that the retry numbered `n`, from zero, waits is the first
    -- delay times 2 ^ n, capped at the maximum, and computing it does not overflow, if no delay was
    -- on record, the first delay is at most the maximum, and twice the maximum is a duration.
    pub pending_retry_delay-exponential :
        (n : ℕ)
        → w.config.use_exp_backoff_in_bwu_retry ≡ true
        → (is_some (uncapped_delay p id (retries n w)) ≡ true)
          × (pending_retry_delay p id (retries (suc n) w)
              ≡ some (
                  min
                    (w.config.bandwidth_upgrade_retry_delay * 2 ^ n)
                    w.config.bandwidth_upgrade_retry_max_delay))
    pending_retry_delay-exponential n x =
        (uncapped-retries n, pending-retries n w ∙ ap some (next-exponential n x))

    -- With linear backoff, the delay that the retry numbered `n`, from zero, waits is the first delay
    -- times n + 1, capped at the maximum, and computing it does not overflow, if no delay was on
    -- record, the first delay is at most the maximum, and twice the maximum is a duration.
    pub pending_retry_delay-linear :
        (n : ℕ)
        → w.config.use_exp_backoff_in_bwu_retry ≡ false
        → (is_some (uncapped_delay p id (retries n w)) ≡ true)
          × (pending_retry_delay p id (retries (suc n) w)
              ≡ some (
                  min
                    (w.config.bandwidth_upgrade_retry_delay * suc n)
                    w.config.bandwidth_upgrade_retry_max_delay))
    pending_retry_delay-linear n x =
        (uncapped-retries n, pending-retries n w ∙ ap some (next-linear n x))
