-- ===== src/Bwu/Actor/Trace.antt =====
-- bwu/actor.rs: the steps of the loop, with what it has received and replied.
use nearby_rs.Prelude.{
  ℕ, ◌≡◌, refl, sym, ap, subst, ◌∙◌, arith, ◌⊎◌, inl, inr, Bool, true, false, not, some, List, [],
  ◌∷◌, ◌++◌, Str, str_eq, str_beq_iff, ◌>>=◌, some-bind, some-injective, Bool-cases,
}
use nearby_rs.Prelude.Map
use nearby_rs.Prelude.Map.{Map}
use nearby_rs.Bwu.Platform.{Platform}
use nearby_rs.Bwu.World.{Duration}
use nearby_rs.Bwu.Manager.Retry.{pending_retry_delay, pending_retry_delays}
use nearby_rs.Bwu.Manager.Dispatch
use nearby_rs.Bwu.Actor.{
  BwuActor, BwuCommand, retain_pending, arm_new, reconcile_timers, fire_due_retries, run_command,
}
use nearby_rs.Bwu.Actor.Reachable.{Reachable, command, tick, timers-Reachable}
use nearby_rs.Bwu.Actor.Run.{
  BwuMessage, BwuQuery, BwuReply, query, shutdown, Arrival, Loop, timer_ready, next_deadline,
  answer, receive, recv, turn,
}

pub append_assoc : (a b c : List BwuMessage) → (a ++ b) ++ c ≡ a ++ (b ++ c)
append_assoc [] b c = refl
append_assoc (x ∷ a) b c = ap (λ t. x ∷ t) (append_assoc a b c)

module _ (p : Platform) (fuel : ℕ) where
  retain_pending-all :
      (pending : List (Str × Duration)) (armed : Map Str ℕ)
      → ((id : Str) → Map.contains_key id armed ≡ true → Map.contains_key id pending ≡ true)
      → retain_pending p pending armed ≡ armed
  unfolding retain_pending Map.get
  retain_pending-all pending [] h = refl
  retain_pending-all pending ((j, deadline) ∷ armed) h =
      let tail = retain_pending-all pending armed (λ id e. h id (ground (arith, e))) in
      ground (arith, h j, str_beq_iff j j, tail)

  arm_new-none :
      (now : ℕ) (pending : List (Str × Duration)) (armed : Map Str ℕ)
      → ((id : Str) → Map.contains_key id pending ≡ true → Map.contains_key id armed ≡ true)
      → arm_new p now pending armed ≡ armed
  unfolding arm_new Map.get
  arm_new-none now [] armed h = refl
  arm_new-none now ((j, delay) ∷ pending) armed h =
      rw (h j (ground (arith, str_beq_iff j j)))
        (arm_new-none now pending armed (λ id e. h id (ground (arith, e))))

  -- Where the timers are those of the pending retries, there is nothing to reconcile.
  pub reconcile_timers-Reachable :
      (now : ℕ) (a : BwuActor p) → Reachable p fuel a → reconcile_timers p now a ≡ a
  unfolding reconcile_timers pending_retry_delays pending_retry_delay
  reconcile_timers-Reachable now a r =
      let pending = pending_retry_delays p a.world in
      ap (λ armed. record a { armed = armed })
        (ap (arm_new p now pending)
            (retain_pending-all pending a.armed (λ id e. sym (timers-Reachable p fuel a id r) ∙ e))
          ∙ arm_new-none now pending a.armed (λ id e. timers-Reachable p fuel a id r ∙ e))

  -- What the loop may do, step by step: from `a₀` it has received the messages of the first list in
  -- their order, has given the replies of the second, and holds the state. A timer that is due goes
  -- before a message; a query is answered in the state it meets and changes nothing.
  pub data IsTrace (a₀ : BwuActor p) : List BwuMessage → List BwuReply → BwuActor p → Type 0 where
    begin : IsTrace a₀ [] [] a₀
    fired :
        {received : List BwuMessage} {replies : List BwuReply} {a a' : BwuActor p} (now : ℕ)
        → timer_ready now (next_deadline a.armed) ≡ true
        → fire_due_retries p fuel now a ≡ some a'
        → IsTrace a₀ received replies a
        → IsTrace a₀ received replies a'
    handled :
        {received : List BwuMessage} {replies : List BwuReply} {a a' : BwuActor p} (now : ℕ)
        (cmd : BwuCommand)
        → timer_ready now (next_deadline a.armed) ≡ false
        → run_command p fuel now cmd a ≡ some a'
        → IsTrace a₀ received replies a
        → IsTrace a₀ (received ++ BwuMessage.command cmd ∷ []) replies a'
    answered :
        {received : List BwuMessage} {replies : List BwuReply} {a : BwuActor p} (now : ℕ)
        (q : BwuQuery)
        → timer_ready now (next_deadline a.armed) ≡ false
        → IsTrace a₀ received replies a
        → IsTrace a₀ (received ++ query q ∷ []) (replies ++ answer p q a.world ∷ []) a

  Reachable-IsTrace :
      {a₀ a : BwuActor p} {received : List BwuMessage} {replies : List BwuReply}
      → Reachable p fuel a₀
      → IsTrace a₀ received replies a
      → Reachable p fuel a
  Reachable-IsTrace r begin = r
  Reachable-IsTrace r (fired now ready e t) = tick now (Reachable-IsTrace r t) e
  Reachable-IsTrace r (handled now cmd ready e t) = command now cmd (Reachable-IsTrace r t) e
  Reachable-IsTrace r (answered now q ready t) = Reachable-IsTrace r t

  -- The loop has followed such a trace with the first of the messages that have come in, and the
  -- others wait in their order; or it has ended with the shutdown, which came after the trace.
  abbrev pub IsRun : BwuActor p → List BwuMessage → Loop p → Type 0
  IsRun a₀ arrived l =
      ((received : List BwuMessage) × IsTrace a₀ received l.replies l.actor
        × (arrived ≡ received ++ l.queue))
      ⊎ ((received : List BwuMessage) × (a : BwuActor p) × IsTrace a₀ received l.replies a
          × (l.stopped ≡ true)
          × (l.actor ≡ record a { world = Dispatch.shutdown p a.world })
          × (arrived ≡ received ++ shutdown ∷ l.queue))

  module _ (a₀ : BwuActor p) (r₀ : Reachable p fuel a₀) where
    next_message :
        (received : List BwuMessage) (message : BwuMessage) (rest arrived : List BwuMessage)
        → arrived ≡ received ++ message ∷ rest
        → arrived ≡ (received ++ message ∷ []) ++ rest
    next_message received message rest arrived h =
        h ∙ sym (append_assoc received (message ∷ []) rest)

    IsRun-receive :
        (now : ℕ) (message : BwuMessage) (l l' : Loop p) (received arrived : List BwuMessage)
        → IsTrace a₀ received l.replies l.actor
        → timer_ready now (next_deadline l.actor.armed) ≡ false
        → arrived ≡ received ++ message ∷ l.queue
        → receive p fuel now message l ≡ some l'
        → IsRun a₀ arrived l'
    unfolding receive
    IsRun-receive now (BwuMessage.command cmd) l l' received arrived t ready h e =
        let (a, e1, e2) =
          some-bind (run_command p fuel now cmd l.actor) (λ a. some (record l { actor = a })) l'
            e in
        subst (IsRun a₀ arrived) (some-injective e2)
          (inl (_, handled now cmd ready e1 t, next_message received _ l.queue arrived h))
    IsRun-receive now (query q) l l' received arrived t ready h e =
        let same = reconcile_timers-Reachable now l.actor (Reachable-IsTrace r₀ t) in
        subst (IsRun a₀ arrived) (some-injective e) (
          inl (
            _,
            subst (IsTrace a₀ _ _) (sym same) (answered now q ready t),
            next_message received (query q) l.queue arrived h,
          ))
    IsRun-receive now shutdown l l' received arrived t ready h e =
        subst (IsRun a₀ arrived) (some-injective e) (inr (received, l.actor, t, refl, refl, h))

    IsRun-recv :
        (now : ℕ) (connected : Bool) (l l' : Loop p) (received arrived : List BwuMessage)
        → IsTrace a₀ received l.replies l.actor
        → timer_ready now (next_deadline l.actor.armed) ≡ false
        → arrived ≡ received ++ l.queue
        → recv p fuel now connected l ≡ some l'
        → IsRun a₀ arrived l'
    unfolding recv
    IsRun-recv now connected l l' received arrived t ready h e = go l.queue h e
      where
        go :
            (queue : List BwuMessage)
            → arrived ≡ received ++ queue
            → elim queue [
              | [] ↦ some (record l { stopped = not connected })
              | message ∷ rest ↦ receive p fuel now message (record l { queue = rest })
            ]
              ≡ some l'
            → IsRun a₀ arrived l'
        go [] _ e = subst (IsRun a₀ arrived) (some-injective e) (inl (received, t, h))
        go (message ∷ rest) hq e =
            IsRun-receive now message (record l { queue = rest }) l' received arrived t ready hq e

    pub IsRun-turn :
        (e : Arrival) (l l' : Loop p) (received arrived : List BwuMessage)
        → IsTrace a₀ received l.replies l.actor
        → arrived ≡ received ++ l.queue
        → turn p fuel e l ≡ some l'
        → IsRun a₀ (arrived ++ e.messages) l'
    unfolding turn
    IsRun-turn e l l' received arrived t h q =
        let l₁ : Loop p = record l { queue = l.queue ++ e.messages } in
        let come : arrived ++ e.messages ≡ received ++ (l.queue ++ e.messages) =
          ap (λ m. m ++ e.messages) h ∙ append_assoc received l.queue e.messages in
        elim (Bool-cases (timer_ready e.now (next_deadline l.actor.armed))) [
          | inl ready ↦
              let step : (fire_due_retries p fuel e.now l.actor >>= λ a.
              some (record l₁ { actor = a }))
                  ≡ some l' =
                sym (rw (ready, turn) refl) ∙ q in
              let (a, e1, e2) =
                some-bind (fire_due_retries p fuel e.now l.actor)
                  (λ a. some (record l₁ { actor = a })) l' step in
              subst (IsRun a₀ (arrived ++ e.messages)) (some-injective e2)
                (inl (received, fired e.now ready e1 t, come))
          | inr ready ↦
              IsRun-recv e.now e.connected l₁ l' received (arrived ++ e.messages) t ready come
                (sym (rw (ready, turn) refl) ∙ q)
        ]
