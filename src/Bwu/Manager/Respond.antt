-- ===== src/Bwu/Manager/Respond.antt =====
-- bwu/manager.rs: the responder's path, and the initiator's when the new socket connects.
use nearby_rs.Prelude.{
  ℕ, false, not, ◌&&◌, Option, none, some, List, [], ◌∷◌, Str, ◌==◌, str_eq, nat_eq, if◌then◌else◌,
  is_empty, unwrap_or,
}
use nearby_rs.Prelude.Map
use nearby_rs.Prelude.Set
use nearby_rs.Mediums.{Medium, medium_eq}
use nearby_rs.Proto.Upgrade.{UpgradePathInfo, ClientIntroduction}
use nearby_rs.Frames.Defs.{is_ok}
use nearby_rs.Frames.Upgrade.{for_bwu_introduction}
use nearby_rs.Bwu.Client.{is_incoming_connection}
use nearby_rs.Bwu.Platform.{Platform, unfinished}
use nearby_rs.Bwu.World.{
  World, update_chan, write_chan, alloc_chan, get_channel_for_endpoint, is_wifi_lan_connected,
}
use nearby_rs.Bwu.Manager.Medium.{
  upi_medium, get_bwu_medium_for_endpoint, set_bwu_medium_for_endpoint, has_handler_for_medium,
}
use nearby_rs.Bwu.Manager.Retry.{cancel_retry_upgrade_alarm}
use nearby_rs.Bwu.Manager.Protocol.{run_upgrade_protocol, run_upgrade_failed_protocol, close_parked}
use nearby_rs.Bwu.Manager.Introduction.{
  read_client_introduction_frame, read_client_introduction_ack_frame,
  write_client_introduction_ack_frame,
}

module _ (p : Platform) where
  open p use {codec, Chan, channel, handler}

  -- The introduction on a channel that the handler has created, and its acknowledgement.
  unfoldable pub introduce : Str → UpgradePathInfo → ℕ → World p → Option ℕ × World p
  introduce last_local info r w =
      let intro =
        for_bwu_introduction codec w.client.local_endpoint_id last_local
          (unwrap_or info.supports_disabling_encryption false) in
      let (result, w1) = write_chan p r intro w in
      let (acked, w2) = read_client_introduction_ack_frame p r w1 in
      if not (is_ok result)
      then (none, update_chan p channel.close r w1)
      else if not (unwrap_or info.supports_client_introduction_ack false)
      then (some r, w1)
      else if not acked
      then (none, update_chan p channel.close r w2)
      else (some r, w2)

  -- The call of the handler that creates the new channel.
  unfoldable pub create_channel :
      Medium → Str → Str → UpgradePathInfo → World p → Option ℕ × World p
  create_channel medium service_id endpoint_id info w = elim (Map.get medium w.handlers) [
    | none ↦ (none, w)
    | some h ↦
        let (created, h') =
          handler.create_upgraded_endpoint_channel w.client service_id endpoint_id info h in
        let w' = record w { handlers = Map.insert medium h' w.handlers } in
        elim created [
          | none ↦ (none, w')
          | some c ↦ let (r, w'') = alloc_chan p c w' in (some r, w'')
        ]
  ]

  -- `process_bwu_path_available_event_internal` behind its guards; `old` is the endpoint's channel.
  unfoldable pub join_medium : Str → UpgradePathInfo → ℕ → World p → Option ℕ × World p
  unfolding introduce create_channel
  join_medium endpoint_id info old w =
      let own = channel.local_endpoint_id (w.chan old) in
      let last_local = if is_empty own then w.client.last_local_endpoint_id else own in
      let (created, w1) =
        create_channel (upi_medium info) (channel.service_id (w.chan old)) endpoint_id info w in
      elim created [ none ↦ (none, w1) | some r ↦ introduce last_local info r w1 ]

  unfoldable pub process_bwu_path_available_event_internal :
      Str → UpgradePathInfo → World p → Option ℕ × World p
  unfolding join_medium
  process_bwu_path_available_event_internal endpoint_id info w =
      let medium = upi_medium info in
      if not (medium == get_bwu_medium_for_endpoint p endpoint_id w)
      then (none, w)
      else if not (has_handler_for_medium p medium w)
      then (none, w)
      else elim (get_channel_for_endpoint p endpoint_id w) [
        | none ↦ (none, w)
        | some old ↦ join_medium endpoint_id info old w
      ]

  -- The duplicate guard: both channels are closed.
  unfoldable pub close_out_of_sync : Str → World p → World p
  close_out_of_sync endpoint_id w =
      let w1 = close_parked p unfinished endpoint_id w in
      elim (get_channel_for_endpoint p endpoint_id w1) [
        | none ↦ w1
        | some cur ↦
            update_chan p (channel.close_with_reason unfinished) cur
              (update_chan p channel.resume cur w1)
      ]

  -- The responder adopts the initiator's medium if it has none.
  unfoldable pub adopt_medium : Str → UpgradePathInfo → World p → World p
  adopt_medium endpoint_id info w =
      if get_bwu_medium_for_endpoint p endpoint_id w == Medium.unknown_medium
      then set_bwu_medium_for_endpoint p endpoint_id (upi_medium info) w
      else w

  -- `process_bwu_path_available_event` behind its guards.
  unfoldable pub accept_path : Str → UpgradePathInfo → World p → World p
  unfolding process_bwu_path_available_event_internal
  accept_path endpoint_id info w =
      let (joined, w1) = process_bwu_path_available_event_internal endpoint_id info w in
      elim joined [
        | none ↦ run_upgrade_failed_protocol p endpoint_id info w1
        | some r ↦
            run_upgrade_protocol p endpoint_id r
              (not (unwrap_or info.supports_disabling_encryption false))
              (record w1 { in_progress_upgrades = Set.insert endpoint_id w1.in_progress_upgrades })
      ]

  unfoldable pub process_bwu_path_available_event : Str → UpgradePathInfo → World p → World p
  unfolding close_out_of_sync adopt_medium accept_path
  process_bwu_path_available_event endpoint_id info w =
      let w1 = adopt_medium endpoint_id info w in
      if is_wifi_lan_connected p w && upi_medium info == Medium.wifi_hotspot
      then run_upgrade_failed_protocol p endpoint_id info w
      else if is_incoming_connection endpoint_id w.client
      then w
      else if Set.contains endpoint_id w.in_progress_upgrades
      then close_out_of_sync endpoint_id w
      else if not (upi_medium info == get_bwu_medium_for_endpoint p endpoint_id w1)
      then run_upgrade_failed_protocol p endpoint_id info w1
      else accept_path endpoint_id info w1

  -- The endpoint that an introduction is for: the one introduced, or the only one in progress.
  abbrev pub only_one : List Str → Option Str
  only_one (id ∷ []) = some id
  only_one _ = none

  unfoldable pub introduced_endpoint : ClientIntroduction → World p → Option Str
  introduced_endpoint introduction w =
      let introduced_id = unwrap_or introduction.endpoint_id [] in
      if Set.contains introduced_id w.in_progress_upgrades
      then some introduced_id
      else only_one w.in_progress_upgrades

  -- `on_incoming_connection` from the acknowledgement on.
  unfoldable pub accept_introduction : ℕ → ClientIntroduction → World p → World p
  unfolding introduced_endpoint
  accept_introduction r introduction w =
      let (acked, w1) = write_client_introduction_ack_frame p r w in
      if not acked
      then update_chan p channel.close r w1
      else elim (introduced_endpoint introduction w1) [
        | none ↦ w1
        | some endpoint_id ↦
            run_upgrade_protocol p endpoint_id r
              (not (unwrap_or introduction.supports_disabling_encryption false))
              (cancel_retry_upgrade_alarm p endpoint_id w1)
      ]

  unfoldable pub on_incoming_connection : ℕ → World p → World p
  unfolding accept_introduction
  on_incoming_connection r w =
      let (introduction, w1) = read_client_introduction_frame p r w in
      elim introduction [
        | none ↦ update_chan p channel.close r w1
        | some i ↦ accept_introduction r i w1
      ]
