-- ===== src/Bwu/Actor/Totality.antt =====
-- bwu/actor.rs: no command runs out of fuel.
use nearby_rs.Prelude.{
  ℕ, ◌≤◌, unwrap_or, ◌≡◌, refl, arith, inl, inr, true, Option, some, none, Str, is_some, ◌>>=◌,
  Bool-cases, Option-cases,
}
use nearby_rs.Proto.FrameEnums.{EventType, event_type_try_from}
use nearby_rs.Proto.Upgrade.{UpgradePathInfo, BandwidthUpgradeNegotiationFrame}
use nearby_rs.Proto.Frame.{OfflineFrame}
use nearby_rs.Frames.Defs.{get_frame_type}
use nearby_rs.Bwu.Client.{is_connected_to_endpoint}
use nearby_rs.Bwu.Platform.{Platform}
use nearby_rs.Bwu.World.{World}
use nearby_rs.Bwu.Manager.Attempts.{HasRoom, initiate_total, process_upgrade_failure_event_total}
use nearby_rs.Bwu.Manager.Initiate.{initiate_bwu_for_endpoint}
use nearby_rs.Bwu.Manager.Fuel.{process_failure-Extends, initiate-Extends}
use nearby_rs.Bwu.Manager.Dispatch.{
  is_bwu_frame, dispatch_frame, on_bwu_negotiation_frame, on_incoming_frame,
}
use nearby_rs.Bwu.Actor.{BwuCommand, handle, initiate_bwu, incoming_frame}

module _ (p : Platform) (fuel : ℕ) (id : Str) (w : World p)
    (room : HasRoom p fuel id w.client) where
  dispatch_frame_total :
      (e : EventType) (info : Option UpgradePathInfo)
      → is_some (dispatch_frame p fuel e info id w) ≡ true
  unfolding dispatch_frame
  dispatch_frame_total EventType.upgrade_failure (some info) =
      process_upgrade_failure_event_total p fuel id info w room
  dispatch_frame_total EventType.upgrade_failure none = refl
  dispatch_frame_total _ none = ground arith
  dispatch_frame_total _ (some info) = ground arith

  on_bwu_negotiation_frame_total :
      (bwu : BandwidthUpgradeNegotiationFrame)
      → is_some (on_bwu_negotiation_frame p fuel bwu id w) ≡ true
  unfolding on_bwu_negotiation_frame
  on_bwu_negotiation_frame_total bwu = elim (Bool-cases (is_connected_to_endpoint id w.client)) [
    | inl e ↦ rw (e, on_bwu_negotiation_frame) (dispatch_frame_total _ bwu.upgrade_path_info)
    | inr e ↦ rw (e, on_bwu_negotiation_frame) refl
  ]

  on_incoming_frame_total :
      (frame : OfflineFrame) → is_some (on_incoming_frame p fuel frame id w) ≡ true
  unfolding on_incoming_frame
  on_incoming_frame_total frame = elim (Bool-cases (is_bwu_frame (get_frame_type frame))) [
    | inl e ↦ elim (Option-cases (frame.v1 >>= λ v1. v1.bandwidth_upgrade_negotiation)) [
      | inl n ↦ rw (e, n, on_incoming_frame) refl
      | inr (bwu, q) ↦ rw (e, q, on_incoming_frame) (on_bwu_negotiation_frame_total bwu)
    ]
    | inr e ↦ rw (e, on_incoming_frame) refl
  ]

module _ (p : Platform) (n fuel : ℕ) (enough : fuel ≤ n) where
  dispatch_frame-more :
      (e : EventType) (info : Option UpgradePathInfo) (id : Str) (w : World p)
      → is_some (dispatch_frame p fuel e info id w) ≡ true
      → dispatch_frame p n e info id w ≡ dispatch_frame p fuel e info id w
  unfolding dispatch_frame
  dispatch_frame-more EventType.upgrade_failure (some info) id w h =
      process_failure-Extends p id (initiate_bwu_for_endpoint p n id)
        (initiate_bwu_for_endpoint p fuel id) (initiate-Extends p id n fuel enough) info w h
  dispatch_frame-more EventType.upgrade_failure none id w h = refl
  dispatch_frame-more EventType.upgrade_path_available none id w h = refl
  dispatch_frame-more EventType.upgrade_path_available (some info) id w h = refl
  dispatch_frame-more EventType.last_write_to_prior_channel info id w h = refl
  dispatch_frame-more EventType.safe_to_close_prior_channel info id w h = refl
  dispatch_frame-more _ info id w h = refl

  on_bwu_negotiation_frame-more :
      (bwu : BandwidthUpgradeNegotiationFrame) (id : Str) (w : World p)
      → is_some (on_bwu_negotiation_frame p fuel bwu id w) ≡ true
      → on_bwu_negotiation_frame p n bwu id w ≡ on_bwu_negotiation_frame p fuel bwu id w
  unfolding on_bwu_negotiation_frame
  on_bwu_negotiation_frame-more bwu id w h =
      let e = unwrap_or (bwu.event_type >>= event_type_try_from) EventType.unknown_event_type in
      ground (arith, dispatch_frame-more e bwu.upgrade_path_info id w)

  on_incoming_frame-more :
      (frame : OfflineFrame) (id : Str) (w : World p)
      → is_some (on_incoming_frame p fuel frame id w) ≡ true
      → on_incoming_frame p n frame id w ≡ on_incoming_frame p fuel frame id w
  unfolding on_incoming_frame
  on_incoming_frame-more frame id w h =
      elim (Option-cases (frame.v1 >>= λ v1. v1.bandwidth_upgrade_negotiation)) [
        | inl e ↦ ground (arith, e)
        | inr (bwu, e) ↦ ground (arith, e, on_bwu_negotiation_frame-more bwu id w)
      ]

  handle-more :
      (cmd : BwuCommand) (w : World p)
      → is_some (handle p fuel cmd w) ≡ true
      → handle p n cmd w ≡ handle p fuel cmd w
  unfolding handle
  handle-more (initiate_bwu id m) w h = initiate-Extends p id n fuel enough m w h
  handle-more (incoming_frame frame id) w h = on_incoming_frame-more frame id w h
  handle-more _ w h = refl

handle_returns :
    (p : Platform) (fuel : ℕ) (cmd : BwuCommand) (w : World p)
    → ((id : Str) → HasRoom p fuel id w.client)
    → is_some (handle p fuel cmd w) ≡ true
unfolding handle
handle_returns p fuel (initiate_bwu id m) w room = initiate_total p fuel id m w (room id)
handle_returns p fuel (incoming_frame frame id) w room =
    on_incoming_frame_total p fuel id w (room id) frame
handle_returns p fuel _ w room = refl

-- The recursion between an upgrade and its failure ends: if for every endpoint the upgrade mediums
-- are distinct and known, and there is fuel for each of them, no command runs out of fuel, and with
-- any more fuel its result is the same. The channels' calls are those that return.
pub handle_total :
    (p : Platform) (n fuel : ℕ) (cmd : BwuCommand) (w : World p)
    → ((id : Str) → HasRoom p fuel id w.client)
    → fuel ≤ n
    → (is_some (handle p fuel cmd w) ≡ true) × (handle p n cmd w ≡ handle p fuel cmd w)
handle_total p n fuel cmd w room enough =
    let returns = handle_returns p fuel cmd w room in
    (returns, handle-more p n fuel enough cmd w returns)
