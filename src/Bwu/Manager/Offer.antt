-- ===== src/Bwu/Manager/Offer.antt =====
-- bwu/manager.rs: the responder's path over the bytes that its peer sends.
use nearby_rs.Prelude.{
  ℕ, ◌≡◌, refl, ◌∙◌, ap, arith, Bool, true, false, not, ◌&&◌, none, some, Bytes, Str, ◌==◌, str_eq,
  str_beq_iff, unwrap_or, ◌>>=◌, subst, sym,
}
use nearby_rs.Prelude.Map
use nearby_rs.Prelude.Set
use nearby_rs.Prelude.Set.{contains-insert}
use nearby_rs.Mediums.{Medium, medium_eq}
use nearby_rs.Proto.Upgrade.{UpgradePathInfo}
use nearby_rs.Frames.Defs.{ok, get_frame_type}
use nearby_rs.Frames.Parse.{from_bytes}
use nearby_rs.Frames.Receive.{path_frame}
use nearby_rs.Bwu.Client.{is_connected_to_endpoint, is_incoming_connection, on_bandwidth_changed}
use nearby_rs.Bwu.Platform.{Platform}
use nearby_rs.Bwu.World.{World, get_channel_for_endpoint, is_wifi_lan_connected}
use nearby_rs.Bwu.Manager.Medium.{upi_medium, get_bwu_medium_for_endpoint}
use nearby_rs.Bwu.Manager.Protocol.{run_upgrade_protocol}
use nearby_rs.Bwu.Manager.Respond.{adopt_medium, process_bwu_path_available_event}
use nearby_rs.Bwu.Manager.Dispatch.{on_bwu_negotiation_frame, on_incoming_frame}
use nearby_rs.Bwu.Manager.Handshake.{parked, last_write_sent}
use nearby_rs.Bwu.Manager.Complete.{prepared, safe_to_close_sent, run_upgrade_protocol-parked}
use nearby_rs.Bwu.Manager.Joining.{
  joined, started, IsSteady-started, accept_path-joined, process_bwu_path_available_event-accepted,
  process_bwu_path_available_event_complete,
}
use nearby_rs.Bwu.Manager.Delivery.{deliver, deliver_end, IsOngoing, deliver_end-IsOngoing}

module _ (p : Platform) where
  deliver-path :
      (fuel : ℕ) (bytes : Bytes) (info : UpgradePathInfo) (id : Str) (w : World p)
      → from_bytes p.codec bytes ≡ ok (path_frame info)
      → is_connected_to_endpoint id w.client ≡ true
      → deliver p fuel bytes id w ≡ some (process_bwu_path_available_event p id info w)
  unfolding on_incoming_frame on_bwu_negotiation_frame get_frame_type
  deliver-path fuel bytes info id w read c = rw (deliver, read, c) refl

  IsOngoing-started :
      (id : Str) (info : UpgradePathInfo) (old r : ℕ) (e : Bool) (w : World p)
      → is_connected_to_endpoint id w.client ≡ true
      → Map.get id w.ecm ≡ some old
      → Set.contains id w.successfully_upgraded_endpoints ≡ false
      → last_write_sent p old (prepared p r (started p id info w)) ≡ true
      → IsOngoing p id (run_upgrade_protocol p id r e (started p id info w))
  IsOngoing-started id info old r e w c m n k =
      let s = IsSteady-started p id info w in
      rw
        (run_upgrade_protocol-parked p id old r e (started p id info w) (ap (Map.get id) s.ecm ∙ m)
          k (ap (Set.contains id) s.last_writes ∙ n))
        (record {
          is_connected = ap (is_connected_to_endpoint id) s.client ∙ c;
          in_progress = rw contains-insert (ground (arith, str_beq_iff id id));
        })

  -- The responder's path over the bytes that its peer sends: the frame that offers a medium, then the
  -- frames of the last write and the safe to close are parsed and dispatched. If the endpoint is
  -- connected, had a channel, and has no upgrade in progress and no last write remembered, the client's
  -- connection is not an incoming one, the path is not a hotspot beside Wi-Fi LAN, its medium is the
  -- endpoint's once an unknown one is adopted, the channel is created and introduced, and both frames
  -- on the old channel go out, then each delivery returns for any fuel, and in the end the new channel
  -- is registered, nothing is in progress or parked for the endpoint, and the client is told the medium.
  pub deliver_end-deliver :
      (fuel : ℕ) (bytes : Bytes) (id : Str) (info : UpgradePathInfo) (old r : ℕ) (w : World p)
      → from_bytes p.codec bytes ≡ ok (path_frame info)
      → is_connected_to_endpoint id w.client ≡ true
      → (is_wifi_lan_connected p w && upi_medium info == Medium.wifi_hotspot) ≡ false
      → is_incoming_connection id w.client ≡ false
      → Set.contains id w.in_progress_upgrades ≡ false
      → (upi_medium info == get_bwu_medium_for_endpoint p id (adopt_medium p id info w)) ≡ true
      → joined p id info w ≡ some r
      → Map.get id w.ecm ≡ some old
      → Set.contains id w.successfully_upgraded_endpoints ≡ false
      → last_write_sent p old (prepared p r (started p id info w)) ≡ true
      → safe_to_close_sent p old (parked p id old r (prepared p r (started p id info w))) ≡ true
      → (w3 : World p) × ((deliver p fuel bytes id w >>= λ w1. deliver_end p fuel id w1) ≡ some w3)
        × (Map.get id w3.previous_endpoint_channels ≡ none)
        × (Set.contains id w3.in_progress_upgrades ≡ false)
        × (get_channel_for_endpoint p id w3 ≡ some r)
        × (w3.client ≡ on_bandwidth_changed id (p.channel.medium (w3.chan r)) w.client)
  deliver_end-deliver fuel bytes id info old r w read conn lan incoming idle same j c n k l =
      let disabling = unwrap_or info.supports_disabling_encryption false in
      let accepted =
        process_bwu_path_available_event-accepted p id info w lan incoming idle same
        ∙ accept_path-joined p id info r (adopt_medium p id info w) j in
      let ongoing =
        subst (IsOngoing p id) (sym accepted)
          (IsOngoing-started id info old r (not disabling) w conn c n k) in
      let (freed, over, registered, told) =
        process_bwu_path_available_event_complete p id info old r w lan incoming idle same j c n k
          l in
      (
        _,
        ap (λ o. o >>= λ w1. deliver_end p fuel id w1) (deliver-path fuel bytes info id w read conn)
            ∙ deliver_end-IsOngoing p fuel id (process_bwu_path_available_event p id info w)
                ongoing,
        freed,
        over,
        registered,
        told,
      )
