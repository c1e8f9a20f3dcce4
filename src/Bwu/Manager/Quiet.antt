-- ===== src/Bwu/Manager/Quiet.antt =====
-- bwu/manager.rs: the steps that touch no retry, no registered channel and no setting.
use nearby_rs.Prelude.{ℕ, ◌≡◌, refl, ◌∙◌, arith, Bytes, Str, str_eq}
use nearby_rs.Mediums.{Medium}
use nearby_rs.Proto.Upgrade.{UpgradePathInfo}
use nearby_rs.Bwu.Client.{on_bandwidth_changed}
use nearby_rs.Bwu.Platform.{Platform, DisconnectionReason}
use nearby_rs.Bwu.World.{World, write_chan, read_chan, alloc_chan}
use nearby_rs.Bwu.Manager.Medium.{set_bwu_medium_for_endpoint, revert_bwu_medium_for_endpoint}
use nearby_rs.Bwu.Manager.Initiate.{initialize_medium, revert_failed_medium}
use nearby_rs.Bwu.Manager.Protocol.{
  process_last_write_to_prior_channel_event, run_upgrade_failed_protocol,
  process_safe_to_close_prior_channel_event, close_parked,
}
use nearby_rs.Bwu.Manager.Introduction.{read_client_introduction_ack_frame}
use nearby_rs.Bwu.Manager.Respond.{
  introduce, create_channel, process_bwu_path_available_event_internal, close_out_of_sync,
  adopt_medium,
}

module _ (p : Platform) where
  -- The retries, the registry, the settings and what is known of endpoints are the same in both states.
  pub record Quiet (w w' : World p) : Type 0 where
    pub alarms : w'.retry_upgrade_alarms ≡ w.retry_upgrade_alarms
    pub delays : w'.retry_delays ≡ w.retry_delays
    pub config : w'.config ≡ w.config
    pub ecm : w'.ecm ≡ w.ecm
    pub endpoints : w'.client.endpoints ≡ w.client.endpoints

  pub Quiet-refl : (w : World p) → Quiet w w
  Quiet-refl w = record {
    alarms = refl;
    delays = refl;
    config = refl;
    ecm = refl;
    endpoints = refl;
  }

  pub Quiet-trans : {u v w : World p} → Quiet u v → Quiet v w → Quiet u w
  Quiet-trans h k = record {
    alarms = k.alarms ∙ h.alarms;
    delays = k.delays ∙ h.delays;
    config = k.config ∙ h.config;
    ecm = k.ecm ∙ h.ecm;
    endpoints = k.endpoints ∙ h.endpoints;
  }

  pub Quiet-write_chan : (r : ℕ) (b : Bytes) (w : World p) → Quiet w (write_chan p r b w).1
  unfolding write_chan
  Quiet-write_chan r b w = ground arith

  pub Quiet-set_bwu_medium_for_endpoint :
      (id : Str) (m : Medium) (w : World p) → Quiet w (set_bwu_medium_for_endpoint p id m w)
  unfolding set_bwu_medium_for_endpoint
  Quiet-set_bwu_medium_for_endpoint id m w = ground arith

  pub Quiet-revert_bwu_medium_for_endpoint :
      (s id : Str) (w : World p) → Quiet w (revert_bwu_medium_for_endpoint p s id w)
  unfolding revert_bwu_medium_for_endpoint
  Quiet-revert_bwu_medium_for_endpoint s id w = ground arith

  pub Quiet-revert_failed_medium : (id : Str) (w : World p) → Quiet w (revert_failed_medium p id w)
  unfolding revert_failed_medium
  Quiet-revert_failed_medium id w = grind (arith, Quiet-revert_bwu_medium_for_endpoint)

  pub Quiet-initialize_medium :
      (m : Medium) (s id : Str) (w : World p) → Quiet w (initialize_medium p m s id w).1
  unfolding initialize_medium
  Quiet-initialize_medium m s id w = ground arith

  pub Quiet-process_last_write :
      (id : Str) (w : World p) → Quiet w (process_last_write_to_prior_channel_event p id w)
  unfolding process_last_write_to_prior_channel_event write_chan
  Quiet-process_last_write id w = ground arith

  pub Quiet-process_safe_to_close :
      (id : Str) (w : World p) → Quiet w (process_safe_to_close_prior_channel_event p id w)
  unfolding process_safe_to_close_prior_channel_event write_chan read_chan on_bandwidth_changed
  Quiet-process_safe_to_close id w = ground arith

  pub Quiet-run_upgrade_failed_protocol :
      (id : Str) (info : UpgradePathInfo) (w : World p)
      → Quiet w (run_upgrade_failed_protocol p id info w)
  unfolding run_upgrade_failed_protocol write_chan
  Quiet-run_upgrade_failed_protocol id info w = grind (arith, Quiet-revert_bwu_medium_for_endpoint)

  pub Quiet-close_parked :
      (reason : DisconnectionReason) (id : Str) (w : World p) → Quiet w (close_parked p reason id w)
  unfolding close_parked
  Quiet-close_parked reason id w = ground arith

  pub Quiet-close_out_of_sync : (id : Str) (w : World p) → Quiet w (close_out_of_sync p id w)
  unfolding close_out_of_sync
  Quiet-close_out_of_sync id w =
      ground (arith, Quiet-close_parked DisconnectionReason.unfinished id w)

  pub Quiet-adopt_medium :
      (id : Str) (info : UpgradePathInfo) (w : World p) → Quiet w (adopt_medium p id info w)
  unfolding adopt_medium
  Quiet-adopt_medium id info w = grind (arith, Quiet-set_bwu_medium_for_endpoint)

  pub Quiet-introduce :
      (s : Str) (info : UpgradePathInfo) (r : ℕ) (w : World p) → Quiet w (introduce p s info r w).1
  unfolding introduce read_client_introduction_ack_frame write_chan read_chan
  Quiet-introduce s info r w = ground arith

  pub Quiet-create_channel :
      (m : Medium) (s id : Str) (info : UpgradePathInfo) (w : World p)
      → Quiet w (create_channel p m s id info w).1
  unfolding create_channel alloc_chan
  Quiet-create_channel m s id info w = ground arith

  pub Quiet-internal :
      (id : Str) (info : UpgradePathInfo) (w : World p)
      → Quiet w (process_bwu_path_available_event_internal p id info w).1
  unfolding process_bwu_path_available_event_internal
  Quiet-internal id info w = grind (arith, Quiet-introduce, Quiet-create_channel)
