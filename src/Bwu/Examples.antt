-- ===== src/Bwu/Examples.antt =====
-- The actor at concrete states, over the platform of the oracle tests.
use nearby_rs.Prelude.{
  ◌+◌, ◌≡◌, refl, arith, inl, inr, true, some, [], ◌∷◌, Str, ◌==◌, str_eq, nat_eq, is_some,
  Bool-cases, ◌⊎◌, subst, sym, unwrap_or, length, ◌>>=◌,
}
use nearby_rs.Prelude.Map
use nearby_rs.Prelude.Set
use nearby_rs.Mediums.{Medium, medium_eq, medium_beq}
use nearby_rs.Frames.Defs.{Exception, ok, err}
use nearby_rs.Bwu.Client
use nearby_rs.Bwu.Client.{
  ClientProxy, EndpointState, default_endpoint_state, get_upgrade_mediums, is_connected_to_endpoint,
  on_bandwidth_changed, is_incoming_connection,
}
use nearby_rs.Bwu.World
use nearby_rs.Bwu.World.{
  World, BwuConfig, default_config, from_secs, Duration, get_channel_for_endpoint,
}
use nearby_rs.Bwu.Handler.{BaseBwuHandler}
use nearby_rs.Bwu.Testing.{FakeBwuHandler}
use nearby_rs.Bwu.Manager.Medium.{has_handler_for_medium, upi_medium, upgrade_path_info_for_medium}
use nearby_rs.Bwu.Manager.Retry.{choose_best_upgrade_medium, pending_retry_delay}
use nearby_rs.Bwu.Manager.Initiate.{fire_retry_alarm}
use nearby_rs.Bwu.Manager.Termination.{Distinct}
use nearby_rs.Bwu.Manager.Attempts.{HasRoom}
use nearby_rs.Bwu.Manager.Dispatch.{on_incoming_frame, on_endpoint_disconnect}
use nearby_rs.Bwu.Manager.Invariant.{InBounds}
use nearby_rs.Bwu.Actor.{
  BwuActor, handle, run_command, reconcile_timers, initiate_bwu, incoming_frame,
}
use nearby_rs.Bwu.Actor.Totality.{handle_total}
use nearby_rs.Bwu.Actor.Schedule.{Scheduled, contains_key-handle, handle-Scheduled}
use nearby_rs.Bwu.Actor.Timers.{get-reconcile_timers}
use nearby_rs.Bwu.Actor.Reachable.{
  Reachable, start, command, timers-Reachable, pending_retry_delay-InBounds,
}
use nearby_rs.Bwu.Sample.{p, endpoint, client, channels, fresh, failure_frame}

client_mediums :
    (id : Str)
    → (get_upgrade_mediums id client ≡ Medium.wifi_lan ∷ Medium.web_rtc ∷ [])
      ⊎ (get_upgrade_mediums id client ≡ [])
unfolding get_upgrade_mediums Map.get
client_mediums id = elim (Bool-cases (endpoint == id)) [
  | inl e ↦ inl (rw e refl)
  | inr e ↦ inr (rw e refl)
]

room : (id : Str) → HasRoom p 3 id client
unfolding medium_beq
room id = elim (client_mediums id) [
  | inl e ↦ record {
    distinct = subst Distinct (sym e) (refl, (refl, tt));
    known = rw e refl;
    room = rw e (omega arith);
  }
  | inr e ↦ record {
    distinct = subst Distinct (sym e) tt;
    known = rw e refl;
    room = rw e (omega arith);
  }
]

handle_total_example :
    (is_some (handle p 3 (initiate_bwu endpoint Medium.wifi_lan) fresh) ≡ true)
    × (handle p 9 (initiate_bwu endpoint Medium.wifi_lan) fresh
        ≡ handle p 3 (initiate_bwu endpoint Medium.wifi_lan) fresh)
handle_total_example =
    handle_total p 9 3 (initiate_bwu endpoint Medium.wifi_lan) fresh room (omega arith)

-- The actor, new, and after the failure of an upgrade that leaves WebRTC to try, for which there is
-- no handler: a retry is pending.
abbrev handlers : Map.Map Medium (BaseBwuHandler FakeBwuHandler)
handlers = []

abbrev actor : BwuActor p
actor = record { world = World.new p handlers default_config client channels; armed = [] }

abbrev failed : BwuActor p
failed = unwrap_or (run_command p 3 7 (incoming_frame failure_frame endpoint) actor) actor

Reachable-failed : Reachable p 3 failed
unfolding run_command World.new Map.get Map.insert Map.remove Set.contains Set.remove medium_beq
    pending_retry_delay Client.is_connected_to_endpoint Client.get_upgrade_mediums on_incoming_frame
    nearby_rs.Frames.Defs.get_frame_type nearby_rs.Bwu.Manager.Dispatch.on_bwu_negotiation_frame
    nearby_rs.Bwu.Manager.Initiate.process_upgrade_failure_event
    nearby_rs.Bwu.Manager.Initiate.try_next_best_upgrade_mediums
    nearby_rs.Bwu.Manager.Initiate.current_medium get_channel_for_endpoint
    nearby_rs.Bwu.Manager.Medium.get_bwu_medium_for_endpoint
    nearby_rs.Bwu.Manager.Retry.choose_best_upgrade_medium
    nearby_rs.Bwu.Manager.Retry.strip_out_unavailable_mediums
    nearby_rs.Bwu.Manager.Retry.untried_after upi_medium upgrade_path_info_for_medium
    nearby_rs.Bwu.Manager.Medium.has_handler_for_medium
    nearby_rs.Bwu.Manager.Retry.retry_upgrades_after_delay
Reachable-failed =
    command 7 (incoming_frame failure_frame endpoint)
      (start handlers default_config client channels) refl

timers-Reachable_example :
    Map.contains_key endpoint failed.armed ≡ is_some (pending_retry_delay p endpoint failed.world)
timers-Reachable_example = timers-Reachable p 3 failed endpoint Reachable-failed

pending_retry_delay-InBounds_example : InBounds failed.world.config (from_secs 3)
unfolding run_command World.new Map.get Map.insert Map.remove Set.contains Set.remove medium_beq
    pending_retry_delay Client.is_connected_to_endpoint Client.get_upgrade_mediums on_incoming_frame
    nearby_rs.Frames.Defs.get_frame_type nearby_rs.Bwu.Manager.Dispatch.on_bwu_negotiation_frame
    nearby_rs.Bwu.Manager.Initiate.process_upgrade_failure_event
    nearby_rs.Bwu.Manager.Initiate.try_next_best_upgrade_mediums
    nearby_rs.Bwu.Manager.Initiate.current_medium get_channel_for_endpoint
    nearby_rs.Bwu.Manager.Medium.get_bwu_medium_for_endpoint
    nearby_rs.Bwu.Manager.Retry.choose_best_upgrade_medium
    nearby_rs.Bwu.Manager.Retry.strip_out_unavailable_mediums
    nearby_rs.Bwu.Manager.Retry.untried_after upi_medium upgrade_path_info_for_medium
    nearby_rs.Bwu.Manager.Medium.has_handler_for_medium
    nearby_rs.Bwu.Manager.Retry.retry_upgrades_after_delay
pending_retry_delay-InBounds_example =
    pending_retry_delay-InBounds p 3 failed endpoint (from_secs 3) Reachable-failed refl

Scheduled-fresh : Scheduled p fresh
unfolding Map.get
Scheduled-fresh = record { tracked = λ id. inl refl; bounded = λ id d. ground arith }

-- The state after the failure, from one with a channel.
abbrev after_failure : World p
after_failure = unwrap_or (handle p 3 (incoming_frame failure_frame endpoint) fresh) fresh

handle-after_failure : handle p 3 (incoming_frame failure_frame endpoint) fresh ≡ some after_failure
unfolding handle World.new Map.get Map.insert Map.remove Set.contains Set.remove medium_beq
    pending_retry_delay Client.is_connected_to_endpoint Client.get_upgrade_mediums on_incoming_frame
    nearby_rs.Frames.Defs.get_frame_type nearby_rs.Bwu.Manager.Dispatch.on_bwu_negotiation_frame
    nearby_rs.Bwu.Manager.Initiate.process_upgrade_failure_event
    nearby_rs.Bwu.Manager.Initiate.try_next_best_upgrade_mediums
    nearby_rs.Bwu.Manager.Initiate.current_medium get_channel_for_endpoint
    nearby_rs.Bwu.Manager.Medium.get_bwu_medium_for_endpoint
    nearby_rs.Bwu.Manager.Retry.choose_best_upgrade_medium
    nearby_rs.Bwu.Manager.Retry.strip_out_unavailable_mediums
    nearby_rs.Bwu.Manager.Retry.untried_after upi_medium upgrade_path_info_for_medium
    nearby_rs.Bwu.Manager.Medium.has_handler_for_medium
    nearby_rs.Bwu.Manager.Retry.retry_upgrades_after_delay
handle-after_failure = refl

contains_key-handle_example :
    ((id : Str) → Map.contains_key id after_failure.ecm ≡ Map.contains_key id fresh.ecm)
    × (length after_failure.ecm ≡ length fresh.ecm)
contains_key-handle_example =
    contains_key-handle p 3 (incoming_frame failure_frame endpoint) fresh after_failure refl
      Scheduled-fresh handle-after_failure

handle-Scheduled_example : Scheduled p after_failure
handle-Scheduled_example =
    handle-Scheduled p 3 (incoming_frame failure_frame endpoint) fresh after_failure Scheduled-fresh
      handle-after_failure

get-reconcile_timers_example : Map.get endpoint (reconcile_timers p 9 failed).armed ≡ (
    pending_retry_delay p endpoint failed.world >>= λ delay.
    some (unwrap_or (Map.get endpoint failed.armed) (9 + delay)))
get-reconcile_timers_example = get-reconcile_timers p 9 failed endpoint
