-- ===== src/Bwu/Manager/Entries.antt =====
-- bwu/manager.rs: the invariant, kept by frames, connections and disconnects.
use nearby_rs.Prelude.{
  ℕ, refl, inl, inr, arith, false, not, Option, none, some, Str, str_eq, Bool-cases, Option-cases,
  leb, ◌||◌, unwrap_or, ◌>>=◌,
}
use nearby_rs.Prelude.Map.{get-remove}
use nearby_rs.Proto.FrameEnums.{EventType, event_type_try_from}
use nearby_rs.Proto.Upgrade.{UpgradePathInfo, ClientIntroduction, BandwidthUpgradeNegotiationFrame}
use nearby_rs.Proto.Frame.{OfflineFrame}
use nearby_rs.Frames.Upgrade.{for_bwu_introduction_ack}
use nearby_rs.Bwu.Platform.{Platform, DisconnectionReason}
use nearby_rs.Bwu.World.{World, get_connected_endpoints_count, read_chan, update_chan}
use nearby_rs.Bwu.Manager.Retry.{cancel_retry_upgrade_alarm}
use nearby_rs.Bwu.Manager.Initiate.{initiate_bwu_for_endpoint}
use nearby_rs.Bwu.Manager.Introduction.{
  read_client_introduction_frame, write_client_introduction_ack_frame,
}
use nearby_rs.Bwu.Manager.Respond.{accept_introduction, introduced_endpoint, on_incoming_connection}
use nearby_rs.Bwu.Manager.Dispatch.{
  drop_frame, dispatch_frame, on_bwu_negotiation_frame, on_incoming_frame, on_endpoint_disconnect,
  notify_handler, clear_endpoint,
}
use nearby_rs.Bwu.Manager.Quiet.{
  Quiet, Quiet-close_parked, Quiet-revert_bwu_medium_for_endpoint, Quiet-write_chan,
  Quiet-process_last_write, Quiet-process_safe_to_close, Quiet-run_upgrade_failed_protocol,
}
use nearby_rs.Bwu.Manager.Invariant.{Sound, Sound-Quiet, Sound-cancel, Sound-run_upgrade_protocol}
use nearby_rs.Bwu.Manager.Steps.{
  Kept, Kept-failure, Kept-initiate, Sound-process_bwu_path_available_event,
}

module _ (p : Platform) (w₀ : World p) where
  Kept-dispatch :
      (fuel : ℕ) (t : EventType) (info : Option UpgradePathInfo) (id : Str) (w : World p)
      → Sound p w₀ w
      → Kept p w₀ (dispatch_frame p fuel t info id w)
  unfolding dispatch_frame Kept
  Kept-dispatch fuel EventType.upgrade_path_available none id w s = s
  Kept-dispatch fuel EventType.upgrade_path_available (some info) id w s =
      Sound-process_bwu_path_available_event p w₀ id info w s
  Kept-dispatch fuel EventType.upgrade_failure none id w s = s
  Kept-dispatch fuel EventType.upgrade_failure (some info) id w s =
      Kept-failure p w₀ (initiate_bwu_for_endpoint p fuel id) (Kept-initiate p w₀ fuel id) id info w
        s
  Kept-dispatch fuel EventType.last_write_to_prior_channel _ id w s =
      ground (arith, s, Sound-Quiet p w₀ (Quiet-process_last_write p id w) s)
  Kept-dispatch fuel EventType.safe_to_close_prior_channel _ id w s =
      ground (arith, s, Sound-Quiet p w₀ (Quiet-process_safe_to_close p id w) s)
  Kept-dispatch fuel _ _ id w s = s

  Sound-drop_frame :
      (t : EventType) (info : Option UpgradePathInfo) (id : Str) (w : World p)
      → Sound p w₀ w
      → Sound p w₀ (drop_frame p t info id w)
  unfolding drop_frame
  Sound-drop_frame EventType.upgrade_path_available (some info) id w s =
      Sound-Quiet p w₀ (Quiet-run_upgrade_failed_protocol p id info w) s
  Sound-drop_frame EventType.upgrade_path_available none id w s = s
  Sound-drop_frame _ _ id w s = s

  Kept-on_bwu_negotiation_frame :
      (fuel : ℕ) (frame : BandwidthUpgradeNegotiationFrame) (id : Str) (w : World p)
      → Sound p w₀ w
      → Kept p w₀ (on_bwu_negotiation_frame p fuel frame id w)
  unfolding on_bwu_negotiation_frame Kept
  Kept-on_bwu_negotiation_frame fuel frame id w s =
      let t = unwrap_or (frame.event_type >>= event_type_try_from) EventType.unknown_event_type in
      ground (
        arith,
        Sound-drop_frame t frame.upgrade_path_info id w s,
        Kept-dispatch fuel t frame.upgrade_path_info id w s,
      )

  pub Kept-on_incoming_frame :
      (fuel : ℕ) (frame : OfflineFrame) (id : Str) (w : World p)
      → Sound p w₀ w
      → Kept p w₀ (on_incoming_frame p fuel frame id w)
  unfolding on_incoming_frame Kept
  Kept-on_incoming_frame fuel frame id w s =
      elim (Option-cases (frame.v1 >>= λ v1. v1.bandwidth_upgrade_negotiation)) [
        | inl n ↦ ground (arith, s)
        | inr (b, n) ↦ ground (arith, s, Kept-on_bwu_negotiation_frame fuel b id w s)
      ]

  Quiet-read_client_introduction_frame :
      (r : ℕ) (w : World p) → Quiet p w (read_client_introduction_frame p r w).1
  unfolding read_client_introduction_frame read_chan
  Quiet-read_client_introduction_frame r w = ground arith

  Sound-accept_introduction :
      (r : ℕ) (i : ClientIntroduction) (w : World p)
      → Sound p w₀ w
      → Sound p w₀ (accept_introduction p r i w)
  unfolding accept_introduction write_client_introduction_ack_frame
  Sound-accept_introduction r i w s =
      let bytes = for_bwu_introduction_ack p.codec in
      let w1 = (write_client_introduction_ack_frame p r w).1 in
      let s1 = Sound-Quiet p w₀ (Quiet-write_chan p r bytes w) s in
      let q : Quiet p w1 (update_chan p p.channel.close r w1) = record {
        alarms = refl;
        delays = refl;
        config = refl;
        ecm = refl;
        endpoints = refl;
      } in
      let protocol = λ (id : Str).
        Sound-run_upgrade_protocol p w₀ id r (not (unwrap_or i.supports_disabling_encryption false))
          (cancel_retry_upgrade_alarm p id w1) (Sound-cancel p w₀ id w1 s1) in
      elim (Option-cases (introduced_endpoint p i w1)) [
        | inl n ↦ ground (arith, s1, Sound-Quiet p w₀ q s1)
        | inr (id, n) ↦ ground (arith, s1, Sound-Quiet p w₀ q s1, protocol id)
      ]

  pub Sound-on_incoming_connection :
      (r : ℕ) (w : World p) → Sound p w₀ w → Sound p w₀ (on_incoming_connection p r w)
  unfolding on_incoming_connection
  Sound-on_incoming_connection r w s =
      let w1 = (read_client_introduction_frame p r w).1 in
      let s1 = Sound-Quiet p w₀ (Quiet-read_client_introduction_frame r w) s in
      let q : Quiet p w1 (update_chan p p.channel.close r w1) = record {
        alarms = refl;
        delays = refl;
        config = refl;
        ecm = refl;
        endpoints = refl;
      } in
      elim (Option-cases (read_client_introduction_frame p r w).0) [
        | inl n ↦ rw (on_incoming_connection, n) (Sound-Quiet p w₀ q s1)
        | inr (i, n) ↦ rw (on_incoming_connection, n) (Sound-accept_introduction r i w1 s1)
      ]

  Quiet-notify_handler : (id : Str) (w : World p) → Quiet p w (notify_handler p id w)
  unfolding notify_handler
  Quiet-notify_handler id w = ground arith

  -- The delay on record and the alarm of an endpoint go together.
  Sound-clear_endpoint :
      (id : Str) (w : World p) → Sound p w₀ w → Sound p w₀ (clear_endpoint p id w)
  unfolding clear_endpoint cancel_retry_upgrade_alarm
  Sound-clear_endpoint id w s =
      let s1 = Sound-Quiet p w₀ (Quiet-close_parked p DisconnectionReason.shutdown id w) s in
      record {
        config = s1.config;
        tracked = λ j. rw (get-remove, get-remove) (ground (arith, s1.tracked j));
        bounded = λ j d. rw get-remove (ground (arith, s1.bounded j d));
        keys = s1.keys;
        count = s1.count;
        endpoints = s1.endpoints;
      }

  pub Sound-on_endpoint_disconnect :
      (service_id id : Str) (w : World p)
      → Sound p w₀ w
      → Sound p w₀ (on_endpoint_disconnect p service_id id w)
  unfolding on_endpoint_disconnect
  Sound-on_endpoint_disconnect service_id id w s =
      let w' = clear_endpoint p id (notify_handler p id w) in
      let s' =
        Sound-clear_endpoint id (notify_handler p id w)
          (Sound-Quiet p w₀ (Quiet-notify_handler id w) s) in
      let reverted =
        Sound-Quiet p w₀ (Quiet-revert_bwu_medium_for_endpoint p service_id id w') s' in
      elim (Bool-cases
        (w'.config.support_multiple_bwu_mediums || leb (get_connected_endpoints_count p w') 1)) [
          | inl e ↦ rw (on_endpoint_disconnect, e) reverted
          | inr e ↦ rw (on_endpoint_disconnect, e) s'
        ]
