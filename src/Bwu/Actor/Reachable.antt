-- ===== src/Bwu/Actor/Reachable.antt =====
-- bwu/actor.rs: what holds of every state that the actor's loop reaches.
use nearby_rs.Prelude.{
  ℕ, ◌≡◌, refl, inl, arith, some, List, [], ◌∷◌, Str, str_eq, is_some, some-bind, some-injective,
  subst,
}
use nearby_rs.Prelude.Map
use nearby_rs.Prelude.Map.{Map}
use nearby_rs.Mediums.{Medium}
use nearby_rs.Bwu.Client.{ClientProxy}
use nearby_rs.Bwu.Platform.{Platform}
use nearby_rs.Bwu.World
use nearby_rs.Bwu.World.{World, BwuConfig, Duration}
use nearby_rs.Bwu.Manager.Retry.{pending_retry_delay}
use nearby_rs.Bwu.Manager.Initiate.{fire_retry_alarm}
use nearby_rs.Bwu.Manager.Invariant.{InBounds}
use nearby_rs.Bwu.Actor.{
  BwuCommand, BwuActor, handle, reconcile_timers, due_endpoints, fire_all, fire_due_retries,
  run_command,
}
use nearby_rs.Bwu.Actor.Schedule.{Scheduled, handle-Scheduled, fire-Scheduled}
use nearby_rs.Bwu.Actor.Timers.{get-reconcile_timers}

-- The states that the actor reaches from a new manager: commands, and retry timers that fire, each
-- with the timers reconciled.
pub data Reachable (p : Platform) (fuel : ℕ) : BwuActor p → Type 0 where
  start :
      (handlers : Map Medium p.Handler) (config : BwuConfig) (client : ClientProxy)
      (chan : ℕ → p.Chan)
      → Reachable p fuel (record { world = World.new p handlers config client chan; armed = [] })
  command :
      {a a' : BwuActor p} (now : ℕ) (cmd : BwuCommand)
      → Reachable p fuel a
      → run_command p fuel now cmd a ≡ some a'
      → Reachable p fuel a'
  tick :
      {a a' : BwuActor p} (now : ℕ)
      → Reachable p fuel a
      → fire_due_retries p fuel now a ≡ some a'
      → Reachable p fuel a'

module _ (p : Platform) (fuel : ℕ) where
  -- The retries are in order, and the timers are those of the pending retries.
  record InStep (a : BwuActor p) : Type 0 where
    scheduled : Scheduled p a.world
    timers : (id : Str) → Map.contains_key id a.armed ≡ is_some (pending_retry_delay p id a.world)

  new-Scheduled :
      (handlers : Map Medium p.Handler) (config : BwuConfig) (client : ClientProxy)
      (chan : ℕ → p.Chan)
      → Scheduled p (World.new p handlers config client chan)
  unfolding World.new Map.get
  new-Scheduled handlers config client chan = record {
    tracked = λ id. inl refl;
    bounded = λ id d. ground arith;
  }

  reconcile_timers-InStep :
      (now : ℕ) (a : BwuActor p) → Scheduled p a.world → InStep (reconcile_timers p now a)
  unfolding reconcile_timers
  reconcile_timers-InStep now a s = record {
    scheduled = s;
    timers = λ id. ground (arith, get-reconcile_timers p now a id);
  }

  fire_all-Scheduled :
      (due : List Str) (a a' : BwuActor p)
      → Scheduled p a.world
      → fire_all p fuel due a ≡ some a'
      → Scheduled p a'.world
  unfolding fire_all
  fire_all-Scheduled [] a a' s e = subst (λ a. Scheduled p a.world) (some-injective e) s
  fire_all-Scheduled (id ∷ due) a a' s e =
      let (w, e1, e2) =
        some-bind (fire_retry_alarm p fuel id a.world)
          (λ w. fire_all p fuel due (record { world = w; armed = Map.remove id a.armed })) a' e in
      fire_all-Scheduled due (record { world = w; armed = Map.remove id a.armed }) a'
        (fire-Scheduled p fuel id a.world w s e1) e2

  run_command-InStep :
      (now : ℕ) (cmd : BwuCommand) (a a' : BwuActor p)
      → Scheduled p a.world
      → run_command p fuel now cmd a ≡ some a'
      → InStep a'
  unfolding run_command
  run_command-InStep now cmd a a' s e =
      let (w, e1, e2) =
        some-bind (handle p fuel cmd a.world)
          (λ w. some (reconcile_timers p now (record a { world = w }))) a' e in
      subst InStep (some-injective e2) (
        reconcile_timers-InStep now (record a { world = w })
          (handle-Scheduled p fuel cmd a.world w s e1))

  fire_due_retries-InStep :
      (now : ℕ) (a a' : BwuActor p)
      → Scheduled p a.world
      → fire_due_retries p fuel now a ≡ some a'
      → InStep a'
  unfolding fire_due_retries
  fire_due_retries-InStep now a a' s e =
      let due = due_endpoints p now a.armed in
      let (b, e1, e2) =
        some-bind (fire_all p fuel due a) (λ b. some (reconcile_timers p now b)) a' e in
      subst InStep (some-injective e2)
        (reconcile_timers-InStep now b (fire_all-Scheduled due a b s e1))

  Reachable-InStep : {a : BwuActor p} → Reachable p fuel a → InStep a
  unfolding World.new pending_retry_delay Map.get
  Reachable-InStep (start handlers config client chan) = record {
    scheduled = new-Scheduled handlers config client chan;
    timers = λ id. refl;
  }
  Reachable-InStep (command {a} {a'} now cmd r e) =
      run_command-InStep now cmd a a' (Reachable-InStep r).scheduled e
  Reachable-InStep (tick {a} {a'} now r e) =
      fire_due_retries-InStep now a a' (Reachable-InStep r).scheduled e

  -- In every state that the actor reaches, an endpoint has a timer exactly if the manager has a
  -- retry pending for it.
  pub timers-Reachable :
      (a : BwuActor p) (id : Str)
      → Reachable p fuel a
      → Map.contains_key id a.armed ≡ is_some (pending_retry_delay p id a.world)
  timers-Reachable a id r = (Reachable-InStep r).timers id

  -- In every state that the actor reaches, the delay of a pending retry is the first delay, or at
  -- most the maximum.
  pub pending_retry_delay-InBounds :
      (a : BwuActor p) (id : Str) (d : Duration)
      → Reachable p fuel a
      → pending_retry_delay p id a.world ≡ some d
      → InBounds a.world.config d
  unfolding pending_retry_delay
  pending_retry_delay-InBounds a id d r e =
      let s = (Reachable-InStep r).scheduled in s.bounded id d (ground (arith, s.tracked id))

  -- In every state that the actor reaches, the retries are in order.
  pub Scheduled-Reachable : {a : BwuActor p} → Reachable p fuel a → Scheduled p a.world
  Scheduled-Reachable r = (Reachable-InStep r).scheduled
