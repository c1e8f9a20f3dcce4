-- ===== src/Bwu/Actor/Timers.antt =====
-- bwu/actor.rs: the timers against the manager's pending retries.
use nearby_rs.Prelude.{
  ℕ, ◌+◌, ◌≡◌, arith, Option, none, some, List, [], ◌∷◌, Str, str_eq, str_beq_iff, if◌then◌else◌,
  unwrap_or, ◌>>=◌,
}
use nearby_rs.Prelude.Map
use nearby_rs.Prelude.Map.{Map, get-insert}
use nearby_rs.Bwu.Platform.{Platform}
use nearby_rs.Bwu.World.{Duration}
use nearby_rs.Bwu.Manager.Retry.{pending_retry_delay, pending_retry_delays}
use nearby_rs.Bwu.Actor.{BwuActor, retain_pending, arm_new, reconcile_timers}

module _ (p : Platform) where
  get-retain_pending :
      (pending : List (Str × Duration)) (armed : Map Str ℕ) (id : Str)
      → Map.get id (retain_pending p pending armed)
        ≡ (if Map.contains_key id pending then Map.get id armed else none)
  unfolding retain_pending Map.get
  get-retain_pending pending [] id = ground arith
  get-retain_pending pending ((j, deadline) ∷ armed) id =
      ground (arith, str_beq_iff j id, get-retain_pending pending armed id)

  -- What an endpoint's timer is after arming: the one it has, or one for its pending delay.
  abbrev timer : Option ℕ → Option Duration → ℕ → Option ℕ
  timer (some deadline) _ now = some deadline
  timer none none now = none
  timer none (some delay) now = some (now + delay)

  get-arm_new :
      (now : ℕ) (pending : List (Str × Duration)) (armed : Map Str ℕ) (id : Str)
      → Map.get id (arm_new p now pending armed) ≡ timer (Map.get id armed) (Map.get id pending) now
  unfolding arm_new Map.get
  get-arm_new now [] armed id = ground arith
  get-arm_new now ((j, delay) ∷ pending) armed id =
      let armed' = if Map.contains_key j armed then armed else Map.insert j (now + delay) armed in
      ground (
        arith,
        str_beq_iff j id,
        get-arm_new now pending armed' id,
        get-insert j id (now + delay) armed,
      )

  -- Once the timers are reconciled, an endpoint has a timer exactly if it has a pending retry: the
  -- deadline that it had, or otherwise the time plus the pending delay.
  pub get-reconcile_timers :
      (now : ℕ) (a : BwuActor p) (id : Str)
      → Map.get id (reconcile_timers p now a).armed ≡ (
          pending_retry_delay p id a.world >>= λ delay.
          some (unwrap_or (Map.get id a.armed) (now + delay)))
  unfolding reconcile_timers pending_retry_delay pending_retry_delays
  get-reconcile_timers now a id =
      let pending = pending_retry_delays p a.world in
      ground (
        arith,
        get-arm_new now pending (retain_pending p pending a.armed) id,
        get-retain_pending pending a.armed id,
      )
