-- ===== src/Bwu/Manager/Dispatch.antt =====
-- bwu/manager.rs: the dispatch of incoming frames, disconnects and the shutdown.
use nearby_rs.Prelude.{
  ℕ, Bool, true, false, not, ◌||◌, Option, none, some, [], map, Str, str_eq, if◌then◌else◌, leb,
  unwrap_or, ◌>>=◌,
}
use nearby_rs.Prelude.Map
use nearby_rs.Prelude.Map.{Map}
use nearby_rs.Prelude.Set
use nearby_rs.Mediums.{Medium, medium_eq}
use nearby_rs.Proto.FrameEnums.{FrameType, EventType, event_type_try_from}
use nearby_rs.Proto.Upgrade.{UpgradePathInfo, BandwidthUpgradeNegotiationFrame}
use nearby_rs.Proto.Frame.{OfflineFrame}
use nearby_rs.Frames.Defs.{get_frame_type}
use nearby_rs.Bwu.Client.{is_connected_to_endpoint}
use nearby_rs.Bwu.Platform.{Platform, DisconnectionReason}
use nearby_rs.Bwu.World.{World, get_connected_endpoints_count}
use nearby_rs.Bwu.Manager.Medium.{
  get_bwu_medium_for_endpoint, has_handler_for_medium, update_handler,
  revert_bwu_medium_for_endpoint,
}
use nearby_rs.Bwu.Manager.Retry.{cancel_retry_upgrade_alarm, cancel_all_retry_upgrade_alarms}
use nearby_rs.Bwu.Manager.Initiate.{initiate_bwu_for_endpoint, process_upgrade_failure_event}
use nearby_rs.Bwu.Manager.Protocol.{
  process_last_write_to_prior_channel_event, process_safe_to_close_prior_channel_event,
  run_upgrade_failed_protocol, close_parked,
}
use nearby_rs.Bwu.Manager.Respond.{process_bwu_path_available_event}

abbrev pub is_bwu_frame : FrameType → Bool
is_bwu_frame FrameType.bandwidth_upgrade_negotiation = true
is_bwu_frame _ = false

module _ (p : Platform) where
  open p use {Handler, channel, handler}

  unfoldable pub is_upgrade_ongoing : Str → World p → Bool
  is_upgrade_ongoing endpoint_id w = Set.contains endpoint_id w.in_progress_upgrades

  unfoldable pub reset_upgrade_for_endpoint : Str → World p → World p
  reset_upgrade_for_endpoint endpoint_id w = record w {
    in_progress_upgrades = Set.remove endpoint_id w.in_progress_upgrades;
  }

  -- A frame of an endpoint that is not connected.
  unfoldable pub drop_frame : EventType → Option UpgradePathInfo → Str → World p → World p
  drop_frame EventType.upgrade_path_available (some info) endpoint_id w =
      run_upgrade_failed_protocol p endpoint_id info w
  drop_frame EventType.upgrade_path_available none endpoint_id w = w
  drop_frame _ _ endpoint_id w = w

  -- A frame of an endpoint that is connected.
  unfoldable pub dispatch_frame :
      ℕ → EventType → Option UpgradePathInfo → Str → World p → Option (World p)
  dispatch_frame fuel EventType.upgrade_path_available none endpoint_id w = some w
  dispatch_frame fuel EventType.upgrade_path_available (some info) endpoint_id w =
      some (process_bwu_path_available_event p endpoint_id info w)
  dispatch_frame fuel EventType.upgrade_failure none endpoint_id w = some w
  dispatch_frame fuel EventType.upgrade_failure (some info) endpoint_id w =
      process_upgrade_failure_event p (initiate_bwu_for_endpoint p fuel endpoint_id) endpoint_id
        info w
  dispatch_frame fuel EventType.last_write_to_prior_channel _ endpoint_id w =
      if not (Set.contains endpoint_id w.in_progress_upgrades)
      then some w
      else some (process_last_write_to_prior_channel_event p endpoint_id w)
  dispatch_frame fuel EventType.safe_to_close_prior_channel _ endpoint_id w =
      if not (Set.contains endpoint_id w.in_progress_upgrades)
      then some w
      else some (process_safe_to_close_prior_channel_event p endpoint_id w)
  dispatch_frame fuel _ _ endpoint_id w = some w

  unfoldable pub on_bwu_negotiation_frame :
      ℕ → BandwidthUpgradeNegotiationFrame → Str → World p → Option (World p)
  unfolding drop_frame dispatch_frame
  on_bwu_negotiation_frame fuel frame endpoint_id w =
      let event_type =
        unwrap_or (frame.event_type >>= event_type_try_from) EventType.unknown_event_type in
      if not (is_connected_to_endpoint endpoint_id w.client)
      then some (drop_frame event_type frame.upgrade_path_info endpoint_id w)
      else dispatch_frame fuel event_type frame.upgrade_path_info endpoint_id w

  unfoldable pub on_incoming_frame : ℕ → OfflineFrame → Str → World p → Option (World p)
  on_incoming_frame fuel frame endpoint_id w =
      if not (is_bwu_frame (get_frame_type frame))
      then some w
      else elim (frame.v1 >>= λ v1. v1.bandwidth_upgrade_negotiation) [
        | none ↦ some w
        | some bwu ↦ on_bwu_negotiation_frame fuel bwu endpoint_id w
      ]

  -- The start of `on_endpoint_disconnect`: the medium's handler hears of the disconnect.
  unfoldable pub notify_handler : Str → World p → World p
  notify_handler endpoint_id w =
      let medium = get_bwu_medium_for_endpoint p endpoint_id w in
      if has_handler_for_medium p medium w
      then update_handler p medium (handler.on_endpoint_disconnect w.client endpoint_id) w
      else w

  -- Its middle: what is kept about the upgrade of the endpoint goes.
  unfoldable pub clear_endpoint : Str → World p → World p
  clear_endpoint endpoint_id w =
      let w1 = close_parked p DisconnectionReason.shutdown endpoint_id w in
      let w2 = cancel_retry_upgrade_alarm p endpoint_id (record w1 {
        in_progress_upgrades = Set.remove endpoint_id w1.in_progress_upgrades;
        retry_delays = Map.remove endpoint_id w1.retry_delays;
      }) in
      record w2 {
        successfully_upgraded_endpoints = Set.remove endpoint_id w2.successfully_upgraded_endpoints;
      }

  unfoldable pub on_endpoint_disconnect : Str → Str → World p → World p
  unfolding notify_handler clear_endpoint
  on_endpoint_disconnect service_id endpoint_id w =
      let w' = clear_endpoint endpoint_id (notify_handler endpoint_id w) in
      if w'.config.support_multiple_bwu_mediums || leb (get_connected_endpoints_count p w') 1
      then revert_bwu_medium_for_endpoint p service_id endpoint_id w'
      else w'

  -- The shutdown reverts every handler.
  abbrev revert_all : Map Medium Handler → Map Medium Handler
  revert_all hs = map (λ (m, h). (m, handler.revert_initiator_state h)) hs

  unfoldable pub shutdown : World p → World p
  shutdown w = record (cancel_all_retry_upgrade_alarms p w) {
    handlers = revert_all w.handlers;
    in_progress_upgrades = [];
    previous_endpoint_channels = [];
    successfully_upgraded_endpoints = [];
  }
