-- ===== src/Bwu/Manager/Gate.antt =====
-- bwu/manager.rs: the frames that the manager does not follow.
use nearby_rs.Prelude.{
  ℕ, ◌≡◌, refl, arith, true, false, Option, none, some, Str, str_eq, unwrap_or, ◌>>=◌, Option-cases,
  Bool-cases, inl, inr, nat_beq, if◌then◌else◌,
}
use nearby_rs.Prelude.Map
use nearby_rs.Prelude.Map.{Map, get-remove}
use nearby_rs.Prelude.Set
use nearby_rs.Prelude.Set.{contains-remove}
use nearby_rs.Mediums.{medium_eq}
use nearby_rs.Proto.FrameEnums.{EventType, event_type_try_from}
use nearby_rs.Proto.Upgrade.{UpgradePathInfo, BandwidthUpgradeNegotiationFrame}
use nearby_rs.Proto.Frame.{OfflineFrame}
use nearby_rs.Frames.Defs.{get_frame_type, is_ok}
use nearby_rs.Frames.Upgrade.{for_bwu_failure}
use nearby_rs.Bwu.Client.{is_connected_to_endpoint}
use nearby_rs.Bwu.Platform.{Platform, io_error}
use nearby_rs.Bwu.World.{World, write_chan, get_channel_for_endpoint}
use nearby_rs.Bwu.Manager.Medium.{revert_bwu_medium_for_endpoint}
use nearby_rs.Bwu.Manager.Protocol.{run_upgrade_failed_protocol}
use nearby_rs.Bwu.Manager.Dispatch.{
  is_bwu_frame, drop_frame, on_bwu_negotiation_frame, on_incoming_frame,
}

module _ (p : Platform) where
  -- A channel on which the failure of an upgrade has been reported, or which is closed where that
  -- could not be written.
  abbrev pub told_failure : UpgradePathInfo → p.Chan → p.Chan
  told_failure info c =
      let (result, c') = p.channel.write (for_bwu_failure p.codec info) c in
      if is_ok result then c' else p.channel.close_with_reason io_error c'

  -- The channel `q` after a path has been refused: only the endpoint's own channel is told.
  abbrev pub refused : Option UpgradePathInfo → Str → World p → ℕ → p.Chan
  refused none id w q = w.chan q
  refused (some info) id w q = elim (Map.get id w.ecm) [
    | none ↦ w.chan q
    | some r ↦ if nat_beq r q then told_failure info (w.chan r) else w.chan q
  ]

  -- Nothing but the handlers and the mediums differs, and the endpoint's channel if a path was
  -- offered, and no upgrade has started.
  pub record Untouched (offer : Option UpgradePathInfo) (id : Str) (w w' : World p) : Type 0 where
    pub client : w'.client ≡ w.client
    pub ecm : w'.ecm ≡ w.ecm
    pub parked : w'.previous_endpoint_channels ≡ w.previous_endpoint_channels
    pub alarms : w'.retry_upgrade_alarms ≡ w.retry_upgrade_alarms
    pub delays : w'.retry_delays ≡ w.retry_delays
    pub chan : (q : ℕ) → w'.chan q ≡ refused offer id w q
    pub in_progress :
        (j : Str)
        → Set.contains j w'.in_progress_upgrades ≡ true
        → Set.contains j w.in_progress_upgrades ≡ true

  Untouched-refl : (id : Str) (w : World p) → Untouched none id w w
  Untouched-refl id w = record {
    client = refl;
    ecm = refl;
    parked = refl;
    alarms = refl;
    delays = refl;
    chan = λ q. refl;
    in_progress = λ j h. h;
  }

  same_in_progress :
      (s id : Str) (w : World p)
      → (revert_bwu_medium_for_endpoint p s id w).in_progress_upgrades ≡ w.in_progress_upgrades
  unfolding revert_bwu_medium_for_endpoint
  same_in_progress s id w = ground arith

  chan-failed :
      (id : Str) (info : UpgradePathInfo) (w : World p) (q : ℕ)
      → (run_upgrade_failed_protocol p id info w).chan q ≡ refused (some info) id w q
  unfolding run_upgrade_failed_protocol write_chan revert_bwu_medium_for_endpoint
      get_channel_for_endpoint
  chan-failed id info w q = elim (Option-cases (Map.get id w.ecm)) [
    | inl e ↦ rw (run_upgrade_failed_protocol, refused, e) refl
    | inr (r, e) ↦ elim (Bool-cases (nat_beq r q)) [
      | inr b ↦ ground (arith, e, b)
      | inl b ↦
          elim (Bool-cases (is_ok (p.channel.write (for_bwu_failure p.codec info) (w.chan r)).0)) [
            | inl k ↦ ground (arith, e, b, k)
            | inr k ↦ rw (run_upgrade_failed_protocol, refused, e, k, b) refl
          ]
    ]
  ]

  Untouched-failed :
      (id : Str) (info : UpgradePathInfo) (w : World p)
      → Untouched (some info) id w (run_upgrade_failed_protocol p id info w)
  unfolding run_upgrade_failed_protocol write_chan revert_bwu_medium_for_endpoint
      get_channel_for_endpoint
  Untouched-failed id info w = record {
    client = ground arith;
    ecm = ground arith;
    parked = ground arith;
    alarms = ground arith;
    delays = ground arith;
    chan = chan-failed id info w;
    in_progress = λ j. ground (arith, contains-remove id j w.in_progress_upgrades);
  }

  -- The path that an event offers.
  abbrev pub path_of : EventType → Option UpgradePathInfo → Option UpgradePathInfo
  path_of EventType.upgrade_path_available info = info
  path_of _ _ = none

  Untouched-drop_frame :
      (t : EventType) (info : Option UpgradePathInfo) (id : Str) (w : World p)
      → Untouched (path_of t info) id w (drop_frame p t info id w)
  unfolding drop_frame
  Untouched-drop_frame EventType.upgrade_path_available (some info) id w =
      Untouched-failed id info w
  Untouched-drop_frame EventType.upgrade_path_available none id w = Untouched-refl id w
  Untouched-drop_frame _ _ id w = Untouched-refl id w

  abbrev pub event_of : BandwidthUpgradeNegotiationFrame → EventType
  event_of bwu = unwrap_or (bwu.event_type >>= event_type_try_from) EventType.unknown_event_type

  -- The path that a frame offers, if it is a negotiation frame that offers one.
  unfoldable pub offered_by : OfflineFrame → Option UpgradePathInfo
  offered_by frame =
      if is_bwu_frame (get_frame_type frame)
      then ((frame.v1 >>= λ v1. v1.bandwidth_upgrade_negotiation) >>= λ bwu.
          path_of (event_of bwu) bwu.upgrade_path_info)
      else none

  -- A frame for an endpoint that the client is not connected to starts no upgrade, and leaves the
  -- client, the registrations, the parked channels and the retries as they were. No channel changes
  -- but the endpoint's own, and that only if the frame offers a path: the failure is written on it,
  -- or it is closed with an I/O error if that fails.
  pub on_incoming_frame-not_connected :
      (fuel : ℕ) (frame : OfflineFrame) (id : Str) (w : World p)
      → is_connected_to_endpoint id w.client ≡ false
      → (w' : World p) × (on_incoming_frame p fuel frame id w ≡ some w')
        × Untouched (offered_by frame) id w w'
  unfolding on_incoming_frame on_bwu_negotiation_frame offered_by
  on_incoming_frame-not_connected fuel frame id w h =
      elim (Bool-cases (is_bwu_frame (get_frame_type frame))) [
        | inl b ↦ elim (Option-cases (frame.v1 >>= λ v1. v1.bandwidth_upgrade_negotiation)) [
          | inl n ↦
              (w, rw (on_incoming_frame, b, n) refl, rw (offered_by, b, n) (Untouched-refl id w))
          | inr (bwu, q) ↦ (
            drop_frame p (event_of bwu) bwu.upgrade_path_info id w,
            rw (on_incoming_frame, b, q) (rw (on_bwu_negotiation_frame, h) refl),
            rw (offered_by, b, q) (Untouched-drop_frame (event_of bwu) bwu.upgrade_path_info id w),
          )
        ]
        | inr b ↦ (w, rw (on_incoming_frame, b) refl, rw (offered_by, b) (Untouched-refl id w))
      ]
