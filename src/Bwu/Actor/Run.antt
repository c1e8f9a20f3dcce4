-- ===== src/Bwu/Actor/Run.antt =====
-- bwu/actor.rs: the command channel, the actor's construction and its loop. The environment of the
-- loop is a script: for each turn, the time, the messages that have come in, and whether a handle
-- is left that could send more.
use nearby_rs.Prelude.{
  ℕ, Bool, true, false, not, Option, none, some, List, [], ◌∷◌, ◌++◌, Str, str_eq, if◌then◌else◌,
  leb, ltb, length, unwrap_or, ◌>>=◌,
}
use nearby_rs.Prelude.Int.{pos}
use nearby_rs.Prelude.Map.{Map}
use nearby_rs.Mediums.{Medium}
use nearby_rs.Bwu.Client
use nearby_rs.Bwu.Platform.{Platform}
use nearby_rs.Bwu.World
use nearby_rs.Bwu.World.{World, BwuConfig, Duration, get_channel_for_endpoint}
use nearby_rs.Bwu.Manager.Retry
use nearby_rs.Bwu.Manager.Dispatch
use nearby_rs.Bwu.Actor.{BwuCommand, BwuActor, reconcile_timers, fire_due_retries, run_command}

-- The commands that reply.
pub data BwuQuery : Type 0 where
  is_upgrade_ongoing pending_retry_delay get_upgraded_channel : Str → BwuQuery
  bandwidth_changed_events : BwuQuery

pub data BwuReply : Type 0 where
  ongoing : Bool → BwuReply
  scheduled_delay : Option Duration → BwuReply
  changed_events : List (Str × Medium) → BwuReply
  upgraded_channel : Option ℕ → BwuReply

-- All of `BwuCommand`: what is handled, what is asked, and the shutdown.
pub data BwuMessage : Type 0 where
  command : BwuCommand → BwuMessage
  query : BwuQuery → BwuMessage
  shutdown : BwuMessage

-- The bounded command channel, and whether its receiver is still there.
pub record Mailbox : Type 0 where
  pub capacity : ℕ
  pub queue : List BwuMessage
  pub receiving : Bool

-- `BwuActor::channel`
unfoldable pub new_mailbox : ℕ → Mailbox
new_mailbox command_buffer = record {
  capacity = if ltb command_buffer 1 then 1 else command_buffer;
  queue = [];
  receiving = true;
}

-- `BwuHandle::fire`: `none` while the channel is full. Once the actor has stopped, nothing happens.
unfoldable pub fire : BwuMessage → Mailbox → Option Mailbox
fire cmd m =
    if not m.receiving
    then some m
    else if leb m.capacity (length m.queue)
    then none
    else some (record m { queue = m.queue ++ cmd ∷ [] })

-- What a handle's query methods return: the reply, or a default once the actor has stopped.
unfoldable pub is_upgrade_ongoing_reply : Option BwuReply → Bool
is_upgrade_ongoing_reply (some (ongoing b)) = b
is_upgrade_ongoing_reply _ = false

unfoldable pub pending_retry_delay_reply : Option BwuReply → Option Duration
pending_retry_delay_reply (some (scheduled_delay d)) = d
pending_retry_delay_reply _ = none

unfoldable pub bandwidth_changed_events_reply : Option BwuReply → List (Str × Medium)
bandwidth_changed_events_reply (some (changed_events l)) = l
bandwidth_changed_events_reply _ = []

unfoldable pub get_upgraded_channel_reply : Option BwuReply → Option ℕ
get_upgraded_channel_reply (some (upgraded_channel r)) = r
get_upgraded_channel_reply _ = none

-- The least deadline of the armed timers.
unfoldable pub next_deadline : Map Str ℕ → Option ℕ
next_deadline [] = none
next_deadline ((_, deadline) ∷ armed) =
    let rest = unwrap_or (next_deadline armed) deadline in
    some (if leb deadline rest then deadline else rest)

-- `sleep_until` the least deadline, or never.
abbrev pub timer_ready : ℕ → Option ℕ → Bool
timer_ready now none = false
timer_ready now (some deadline) = leb deadline now

-- One turn of the loop sees the time, what has come in, and whether a handle is left.
pub record Arrival : Type 0 where
  pub now : ℕ
  pub messages : List BwuMessage
  pub connected : Bool

module _ (p : Platform) where
  unfoldable pub answer : BwuQuery → World p → BwuReply
  answer (is_upgrade_ongoing id) w = ongoing (Dispatch.is_upgrade_ongoing p id w)
  answer (pending_retry_delay id) w = scheduled_delay (Retry.pending_retry_delay p id w)
  answer bandwidth_changed_events w = changed_events w.client.bandwidth_changed
  answer (get_upgraded_channel id) w = upgraded_channel (get_channel_for_endpoint p id w)

  -- `BwuActor::build`; its channels are references into `chan`.
  unfoldable pub build : Map Medium p.Handler → BwuConfig → Str → (ℕ → p.Chan) → BwuActor p
  unfolding World.new
  build handlers config local_endpoint_id chan = record {
    world = World.new p handlers config (Client.new (pos 0) local_endpoint_id) chan;
    armed = [];
  }

  -- The loop's state: the actor, the messages that wait, the replies so far, and whether the loop
  -- has ended.
  pub record Loop : Type 0 where
    pub actor : BwuActor p
    pub queue : List BwuMessage
    pub replies : List BwuReply
    pub stopped : Bool

  -- The branch of a message that is received.
  unfoldable pub receive : ℕ → ℕ → BwuMessage → Loop → Option Loop
  unfolding run_command reconcile_timers Dispatch.shutdown answer
  receive fuel now (command cmd) l =
      run_command p fuel now cmd l.actor >>= λ a. some (record l { actor = a })
  receive fuel now (query q) l = some (record l {
    actor = reconcile_timers p now l.actor;
    replies = l.replies ++ answer q l.actor.world ∷ [];
  })
  receive fuel now shutdown l = some (record l {
    actor = record (l.actor) { world = Dispatch.shutdown p l.actor.world };
    stopped = true;
  })

  -- The branch of `rx.recv()`: a message, a wait, or the end if no handle is left.
  unfoldable pub recv : ℕ → ℕ → Bool → Loop → Option Loop
  unfolding receive
  recv fuel now connected l = elim l.queue [
    | [] ↦ some (record l { stopped = not connected })
    | message ∷ rest ↦ receive fuel now message (record l { queue = rest })
  ]

  -- One turn: a timer that is due goes before a message.
  unfoldable pub turn : ℕ → Arrival → Loop → Option Loop
  unfolding next_deadline fire_due_retries recv
  turn fuel e l =
      let l' = record l { queue = l.queue ++ e.messages } in
      if timer_ready e.now (next_deadline l'.actor.armed)
      then (fire_due_retries p fuel e.now l'.actor >>= λ a. some (record l' { actor = a }))
      else recv fuel e.now e.connected l'

  -- The turns of the loop, up to its end.
  unfoldable pub turns : ℕ → List Arrival → Loop → Option Loop
  unfolding turn
  turns fuel [] l = some l
  turns fuel (e ∷ script) l =
      if l.stopped then some l else turn fuel e l >>= λ l'. turns fuel script l'

  unfoldable pub run : ℕ → ℕ → List Arrival → BwuActor p → Option Loop
  unfolding reconcile_timers turns
  run fuel now script a =
      turns fuel script
        (record { actor = reconcile_timers p now a; queue = []; replies = []; stopped = false })
