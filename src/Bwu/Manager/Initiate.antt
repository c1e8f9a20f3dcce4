-- ===== src/Bwu/Manager/Initiate.antt =====
-- bwu/manager.rs: the initiator's entry, the failure of an upgrade, and the next attempt. These
-- call each other: an upgrade that fails at once is tried again on the next medium. The calls are
-- on fuel, one unit for each attempt, and `none` is an attempt with no fuel left.
use nearby_rs.Prelude.{
  ℕ, zero, suc, not, ◌&&◌, ◌||◌, Option, none, some, List, [], Bytes, Str, ◌==◌, str_eq,
  if◌then◌else◌, ltb, is_empty, unwrap_or, ◌>>=◌,
}
use nearby_rs.Prelude.Map
use nearby_rs.Prelude.Set
use nearby_rs.Mediums.{Medium, medium_eq}
use nearby_rs.Proto.Upgrade.{UpgradePathInfo}
use nearby_rs.Frames.Defs.{is_ok}
use nearby_rs.Bwu.ServiceId.{unknown_service_id, wrap_initiator_upgrade_service_id}
use nearby_rs.Bwu.Client.{get_upgrade_mediums, is_connected_to_endpoint}
use nearby_rs.Bwu.Platform.{Platform}
use nearby_rs.Bwu.World.{
  World, write_chan, get_channel_for_endpoint, get_connected_endpoints_count, is_wifi_lan_connected,
}
use nearby_rs.Bwu.Manager.Medium.{
  upi_medium, upgrade_path_info_for_medium, get_bwu_medium_for_endpoint,
  set_bwu_medium_for_endpoint, has_handler_for_medium, revert_bwu_medium_for_endpoint,
}
use nearby_rs.Bwu.Manager.Retry.{
  untried_after, choose_best_upgrade_medium, cancel_retry_upgrade_alarm, retry_upgrades_after_delay,
}

module _ (p : Platform) where
  open p use {handler, channel}

  -- `channel.as_ref().map(|c| c.medium()).unwrap_or(UnknownMedium)`
  unfoldable pub current_medium : Str → World p → Medium
  current_medium endpoint_id w =
      unwrap_or (get_channel_for_endpoint p endpoint_id w >>= λ r. some (channel.medium (w.chan r)))
        Medium.unknown_medium

  -- An attempt on a medium, as the next section's functions call it.
  abbrev pub Attempt : Type 0
  Attempt = Medium → World p → Option (World p)

  unfoldable pub try_next_best_upgrade_mediums :
      Attempt → Str → List Medium → World p → Option (World p)
  try_next_best_upgrade_mediums attempt endpoint_id upgrade_mediums w =
      let next_medium = choose_best_upgrade_medium p endpoint_id upgrade_mediums w in
      let current = current_medium endpoint_id w in
      if not (current == Medium.wifi_lan)
        && (next_medium == current
            || next_medium == Medium.unknown_medium
            || is_empty upgrade_mediums)
      then some (retry_upgrades_after_delay p endpoint_id w)
      else if not (has_handler_for_medium p next_medium w)
      then some w
      else attempt next_medium (set_bwu_medium_for_endpoint p endpoint_id next_medium w)

  -- The service id of an endpoint's channel, or UNKNOWN_SERVICE_ID.
  abbrev channel_service_id : Str → World p → Str
  channel_service_id endpoint_id w =
      unwrap_or
        (get_channel_for_endpoint p endpoint_id w >>= λ r. some (channel.service_id (w.chan r)))
        unknown_service_id

  -- The revert of `process_upgrade_failure_event`, under the wrapped service id.
  unfoldable pub revert_failed_medium : Str → World p → World p
  revert_failed_medium endpoint_id w =
      if not (get_bwu_medium_for_endpoint p endpoint_id w == Medium.unknown_medium)
      then revert_bwu_medium_for_endpoint p
          (wrap_initiator_upgrade_service_id (channel_service_id endpoint_id w)) endpoint_id w
      else w

  unfoldable pub process_upgrade_failure_event :
      Attempt → Str → UpgradePathInfo → World p → Option (World p)
  unfolding revert_failed_medium
  process_upgrade_failure_event attempt endpoint_id info w =
      let w1 = record w { in_progress_upgrades = Set.remove endpoint_id w.in_progress_upgrades } in
      if not w1.config.support_multiple_bwu_mediums && ltb 1 (get_connected_endpoints_count p w1)
      then some w1
      else try_next_best_upgrade_mediums attempt endpoint_id
          (untried_after (upi_medium info) (get_upgrade_mediums endpoint_id w1.client))
          (revert_failed_medium endpoint_id w1)

  -- The call of the handler; as `update_handler`, with a result.
  unfoldable pub initialize_medium : Medium → Str → Str → World p → Bytes × World p
  initialize_medium medium service_id endpoint_id w = elim (Map.get medium w.handlers) [
    | none ↦ ([], w)
    | some h ↦
        let (bytes, h') =
          handler.initialize_upgraded_medium_for_endpoint w.client service_id endpoint_id h in
        (bytes, record w { handlers = Map.insert medium h' w.handlers })
  ]

  -- `initiate_bwu_for_endpoint` from the call of the handler on; `r` is the endpoint's channel.
  unfoldable pub offer_upgrade : Attempt → Str → Medium → ℕ → World p → Option (World p)
  offer_upgrade attempt endpoint_id medium r w =
      let (bytes, w1) = initialize_medium medium (channel.service_id (w.chan r)) endpoint_id w in
      let (result, w2) = write_chan p r bytes w1 in
      let failed = λ (w' : World p).
        process_upgrade_failure_event attempt endpoint_id (upgrade_path_info_for_medium medium)
          w' in
      if is_empty bytes
      then failed w1
      else if not (is_ok result)
      then failed w2
      else some
          (record w2 { in_progress_upgrades = Set.insert endpoint_id w2.in_progress_upgrades })

  -- The rest of `initiate_bwu_for_endpoint` behind its first guard.
  unfoldable pub start_upgrade : Attempt → Str → Medium → World p → Option (World p)
  unfolding offer_upgrade
  start_upgrade attempt endpoint_id proposed_medium w =
      let w1 = set_bwu_medium_for_endpoint p endpoint_id proposed_medium w in
      let w2 = cancel_retry_upgrade_alarm p endpoint_id w1 in
      if not (has_handler_for_medium p proposed_medium w1)
      then some w1
      else if Set.contains endpoint_id w1.in_progress_upgrades
      then some w1
      else if proposed_medium == current_medium endpoint_id w2
      then some w2
      else elim (get_channel_for_endpoint p endpoint_id w2) [
        | none ↦ some w2
        | some r ↦ offer_upgrade attempt endpoint_id proposed_medium r w2
      ]

  unfoldable pub initiate_bwu_for_endpoint : ℕ → Str → Medium → World p → Option (World p)
  unfolding start_upgrade
  initiate_bwu_for_endpoint zero endpoint_id new_medium w = none
  initiate_bwu_for_endpoint (suc fuel) endpoint_id new_medium w =
      if is_wifi_lan_connected p w && new_medium == Medium.wifi_hotspot
      then some w
      else start_upgrade (λ m w'. initiate_bwu_for_endpoint fuel endpoint_id m w') endpoint_id
          new_medium w

  unfoldable pub fire_retry_alarm : ℕ → Str → World p → Option (World p)
  fire_retry_alarm fuel endpoint_id w =
      let w1 = cancel_retry_upgrade_alarm p endpoint_id w in
      elim (Map.get endpoint_id w.retry_upgrade_alarms) [
        | none ↦ some w1
        | some _ ↦
            if not (is_connected_to_endpoint endpoint_id w1.client)
            then some w1
            else try_next_best_upgrade_mediums (initiate_bwu_for_endpoint fuel endpoint_id)
                endpoint_id (get_upgrade_mediums endpoint_id w1.client) w1
      ]
