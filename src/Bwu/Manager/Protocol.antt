-- ===== src/Bwu/Manager/Protocol.antt =====
-- bwu/manager.rs: the converged upgrade protocol, and its failure on the responder.
use nearby_rs.Prelude.{ℕ, Bool, false, not, none, some, Str, ◌==◌, str_eq, if◌then◌else◌}
use nearby_rs.Prelude.Map
use nearby_rs.Prelude.Set
use nearby_rs.Mediums.{Medium, medium_eq}
use nearby_rs.Proto.Upgrade.{UpgradePathInfo}
use nearby_rs.Frames.Defs.{is_ok}
use nearby_rs.Frames.Transfer.{for_disconnection}
use nearby_rs.Frames.Upgrade.{for_bwu_last_write, for_bwu_safe_to_close, for_bwu_failure}
use nearby_rs.Bwu.Client.{on_bandwidth_changed}
use nearby_rs.Bwu.Platform.{Platform, DisconnectionReason, io_error, upgraded}
use nearby_rs.Bwu.World.{
  World, update_chan, write_chan, read_chan, get_channel_for_endpoint, replace_channel_for_endpoint,
}
use nearby_rs.Bwu.Manager.Medium.{get_bwu_medium_for_endpoint, revert_bwu_medium_for_endpoint}

module _ (p : Platform) where
  open p use {codec, channel}

  unfoldable pub process_last_write_to_prior_channel_event : Str → World p → World p
  process_last_write_to_prior_channel_event endpoint_id w =
      elim (Map.get endpoint_id w.previous_endpoint_channels) [
        | none ↦ record w {
          successfully_upgraded_endpoints =
              Set.insert endpoint_id w.successfully_upgraded_endpoints;
        }
        | some prev ↦
            let (result, w1) = write_chan p prev (for_bwu_safe_to_close codec) w in
            let w2 = update_chan p (channel.close_with_reason io_error) prev w1 in
            if not (is_ok result)
            then record w2 {
              previous_endpoint_channels = Map.remove endpoint_id w2.previous_endpoint_channels;
            }
            else w1
      ]

  -- `run_upgrade_protocol` from the lookup of the old channel on, which it displaces.
  unfoldable pub swap_channel : Str → ℕ → ℕ → Bool → World p → World p
  unfolding process_last_write_to_prior_channel_event replace_channel_for_endpoint
  swap_channel endpoint_id old_channel new_channel enable_encryption w =
      let w1 = replace_channel_for_endpoint p endpoint_id new_channel enable_encryption w in
      let (result, w2) = write_chan p old_channel (for_bwu_last_write codec) w1 in
      let w3 = record w2 {
        previous_endpoint_channels =
            Map.insert endpoint_id old_channel w2.previous_endpoint_channels;
      } in
      let w4 = record w3 {
        successfully_upgraded_endpoints = Set.remove endpoint_id w3.successfully_upgraded_endpoints;
      } in
      if not (is_ok result)
      then w2
      else if Set.contains endpoint_id w3.successfully_upgraded_endpoints
      then process_last_write_to_prior_channel_event endpoint_id w4
      else w3

  unfoldable pub run_upgrade_protocol : Str → ℕ → Bool → World p → World p
  unfolding swap_channel
  run_upgrade_protocol endpoint_id new_channel enable_encryption w =
      let w1 =
        update_chan p (channel.set_local_endpoint_id w.client.local_endpoint_id) new_channel w in
      let w2 = update_chan p channel.pause new_channel w1 in
      elim (get_channel_for_endpoint p endpoint_id w2) [
        | none ↦ w2
        | some old_channel ↦ swap_channel endpoint_id old_channel new_channel enable_encryption w2
      ]

  -- The last writes on the old channel, and its close.
  unfoldable pub close_prior_channel : ℕ → World p → World p
  close_prior_channel prev w =
      let w1 = update_chan p channel.disable_encryption prev w in
      let (_, w2) = write_chan p prev (for_disconnection codec false false) w1 in
      let (_, w3) = read_chan p prev w2 in
      update_chan p (channel.close_with_reason upgraded) prev w3

  unfoldable pub process_safe_to_close_prior_channel_event : Str → World p → World p
  unfolding close_prior_channel
  process_safe_to_close_prior_channel_event endpoint_id w =
      elim (Map.get endpoint_id w.previous_endpoint_channels) [
        | none ↦ w
        | some prev ↦
            let w1 = close_prior_channel prev (record w {
              previous_endpoint_channels = Map.remove endpoint_id w.previous_endpoint_channels;
            }) in
            elim (get_channel_for_endpoint p endpoint_id w1) [
              | none ↦ w1
              | some r ↦
                  let w2 = update_chan p channel.resume r w1 in
                  record w2 {
                    client =
                        on_bandwidth_changed endpoint_id (channel.medium (w2.chan r)) w2.client;
                    in_progress_upgrades = Set.remove endpoint_id w2.in_progress_upgrades;
                  }
            ]
      ]

  unfoldable pub run_upgrade_failed_protocol : Str → UpgradePathInfo → World p → World p
  run_upgrade_failed_protocol endpoint_id info w = elim (get_channel_for_endpoint p endpoint_id w) [
    | none ↦ w
    | some r ↦
        let (result, w1) = write_chan p r (for_bwu_failure codec info) w in
        let w2 =
          if not (get_bwu_medium_for_endpoint p endpoint_id w1 == Medium.unknown_medium)
          then revert_bwu_medium_for_endpoint p (channel.service_id (w1.chan r)) endpoint_id w1
          else w1 in
        if not (is_ok result)
        then update_chan p (channel.close_with_reason io_error) r w1
        else record w2 { in_progress_upgrades = Set.remove endpoint_id w2.in_progress_upgrades }
  ]

  -- `if let Some(c) = self.previous_endpoint_channels.remove(id) { c.close_with_reason(reason) }`
  unfoldable pub close_parked : DisconnectionReason → Str → World p → World p
  close_parked reason endpoint_id w = elim (Map.get endpoint_id w.previous_endpoint_channels) [
    | none ↦ w
    | some prev ↦ update_chan p (channel.close_with_reason reason) prev (record w {
      previous_endpoint_channels = Map.remove endpoint_id w.previous_endpoint_channels;
    })
  ]
