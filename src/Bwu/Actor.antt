-- ===== src/Bwu/Actor.antt =====
-- bwu/actor.rs: the single owner that applies commands and retry timers one at a time. Time is an
-- argument, in nanoseconds. The queries that only reply are the functions that they call.
pub mod Totality
pub mod Reachable
pub mod Timers
pub mod Schedule
pub mod Run
pub mod Handle
pub mod Trace
pub mod Loop
pub mod Endpoints
mod Examples
use nearby_rs.Prelude.{
  ℕ, ◌+◌, Bool, true, false, Option, none, some, List, [], ◌∷◌, map, Str, str_eq, if◌then◌else◌,
  leb, is_some, ◌>>=◌,
}
use nearby_rs.Prelude.Map
use nearby_rs.Prelude.Map.{Map}
use nearby_rs.Mediums.{Medium}
use nearby_rs.Proto.Frame.{OfflineFrame}
use nearby_rs.Bwu.Client
use nearby_rs.Bwu.Client.{ClientProxy}
use nearby_rs.Bwu.Platform.{Platform}
use nearby_rs.Bwu.World.{
  World, Duration, register_channel_for_endpoint, unregister_channel_for_endpoint,
}
use nearby_rs.Bwu.Manager.Retry.{pending_retry_delays}
use nearby_rs.Bwu.Manager.Initiate.{initiate_bwu_for_endpoint, fire_retry_alarm}
use nearby_rs.Bwu.Manager.Respond.{on_incoming_connection}
use nearby_rs.Bwu.Manager.Dispatch.{
  reset_upgrade_for_endpoint, on_incoming_frame, on_endpoint_disconnect,
}

-- A channel comes as a reference. `Shutdown` and the queries are not among the commands.
pub data BwuCommand : Type 0 where
  connection_initiated : Str → Bool → Bool → BwuCommand
  connection_accepted local_endpoint_accepted remote_endpoint_accepted disconnected :
      Str → BwuCommand
  set_upgrade_mediums : Str → List Medium → BwuCommand
  register_channel : Str → ℕ → BwuCommand
  unregister_channel : Str → BwuCommand
  initiate_bwu : Str → Medium → BwuCommand
  reset_upgrade : Str → BwuCommand
  incoming_frame : OfflineFrame → Str → BwuCommand
  incoming_connection : ℕ → BwuCommand
  endpoint_disconnect : Str → Str → BwuCommand

pub record BwuActor (p : Platform) : Type 0 where
  pub world : World p
  pub armed : Map Str ℕ

module _ (p : Platform) where
  abbrev on_client : (ClientProxy → ClientProxy) → World p → World p
  on_client f w = record w { client = f w.client }

  -- `handle`, with the fuel of the manager's attempts.
  unfoldable pub handle : ℕ → BwuCommand → World p → Option (World p)
  handle fuel (connection_initiated id is_incoming auto_upgrade) w =
      some (on_client (Client.on_connection_initiated id is_incoming auto_upgrade) w)
  handle fuel (connection_accepted id) w = some (on_client (Client.on_connection_accepted id) w)
  handle fuel (local_endpoint_accepted id) w =
      some (on_client (Client.local_endpoint_accepted_connection id) w)
  handle fuel (remote_endpoint_accepted id) w =
      some (on_client (Client.remote_endpoint_accepted_connection id) w)
  handle fuel (disconnected id) w = some (on_client (Client.on_disconnected id) w)
  handle fuel (set_upgrade_mediums id mediums) w =
      some (on_client (Client.set_upgrade_mediums id mediums) w)
  handle fuel (register_channel id r) w = some (register_channel_for_endpoint p id r w)
  handle fuel (unregister_channel id) w = some (unregister_channel_for_endpoint p id w).1
  handle fuel (initiate_bwu id medium) w = initiate_bwu_for_endpoint p fuel id medium w
  handle fuel (reset_upgrade id) w = some (reset_upgrade_for_endpoint p id w)
  handle fuel (incoming_frame frame id) w = on_incoming_frame p fuel frame id w
  handle fuel (incoming_connection r) w = some (on_incoming_connection p r w)
  handle fuel (endpoint_disconnect service_id id) w =
      some (on_endpoint_disconnect p service_id id w)

  -- `armed.retain(|ep, _| pending.contains(ep))`
  unfoldable pub retain_pending : List (Str × Duration) → Map Str ℕ → Map Str ℕ
  retain_pending pending [] = []
  retain_pending pending ((id, deadline) ∷ armed) =
      let rest = retain_pending pending armed in
      if Map.contains_key id pending then (id, deadline) ∷ rest else rest

  -- The loop that arms what is newly pending.
  unfoldable pub arm_new : ℕ → List (Str × Duration) → Map Str ℕ → Map Str ℕ
  arm_new now [] armed = armed
  arm_new now ((id, delay) ∷ pending) armed =
      arm_new now pending
        (if Map.contains_key id armed then armed else Map.insert id (now + delay) armed)

  unfoldable pub reconcile_timers : ℕ → BwuActor p → BwuActor p
  unfolding retain_pending arm_new
  reconcile_timers now a =
      let pending = pending_retry_delays p a.world in
      record a { armed = arm_new now pending (retain_pending pending a.armed) }

  -- The endpoints whose deadline has come.
  unfoldable pub due_endpoints : ℕ → Map Str ℕ → List Str
  due_endpoints now [] = []
  due_endpoints now ((id, deadline) ∷ armed) =
      let rest = due_endpoints now armed in if leb deadline now then id ∷ rest else rest

  unfoldable pub fire_all : ℕ → List Str → BwuActor p → Option (BwuActor p)
  fire_all fuel [] a = some a
  fire_all fuel (id ∷ due) a = fire_retry_alarm p fuel id a.world >>= λ w.
      fire_all fuel due (record { world = w; armed = Map.remove id a.armed })

  unfoldable pub fire_due_retries : ℕ → ℕ → BwuActor p → Option (BwuActor p)
  unfolding due_endpoints fire_all reconcile_timers
  fire_due_retries fuel now a =
      fire_all fuel (due_endpoints now a.armed) a >>= λ a'. some (reconcile_timers now a')

  -- A command in the loop of `run`.
  unfoldable pub run_command : ℕ → ℕ → BwuCommand → BwuActor p → Option (BwuActor p)
  unfolding handle reconcile_timers
  run_command fuel now cmd a =
      handle fuel cmd a.world >>= λ w. some (reconcile_timers now (record a { world = w }))
