-- ===== src/Bwu/Manager/Delivery.antt =====
-- bwu/manager.rs: the handshake over the bytes that the peers exchange, on_incoming_frame.
use nearby_rs.Prelude.{
  ℕ, ◌≡◌, refl, ◌∙◌, ap, arith, Bool, true, false, Option, none, some, ◌∷◌, [], Bytes, Str, str_eq,
  ◌>>=◌, not, subst, sym,
}
use nearby_rs.Prelude.Map
use nearby_rs.Prelude.Set
use nearby_rs.Frames.Defs.{ok, err, get_frame_type}
use nearby_rs.Frames.Parse.{from_bytes}
use nearby_rs.Frames.Receive.{from_bytes-handshake}
use nearby_rs.Frames.Upgrade.{for_bwu_introduction, for_bwu_last_write, for_bwu_safe_to_close}
use nearby_rs.Bwu.Client.{is_connected_to_endpoint, on_bandwidth_changed}
use nearby_rs.Bwu.Platform.{Platform}
use nearby_rs.Bwu.World.{World, write_chan, read_chan, get_channel_for_endpoint}
use nearby_rs.Bwu.Manager.Protocol.{
  process_last_write_to_prior_channel_event, run_upgrade_protocol,
  process_safe_to_close_prior_channel_event,
}
use nearby_rs.Bwu.Manager.Retry.{cancel_retry_upgrade_alarm}
use nearby_rs.Bwu.Manager.Respond.{on_incoming_connection}
use nearby_rs.Bwu.Manager.Incoming.{
  ack_sent, connected, on_incoming_connection-introduced, on_incoming_connection_complete,
}
use nearby_rs.Bwu.Manager.Dispatch.{on_bwu_negotiation_frame, on_incoming_frame}
use nearby_rs.Bwu.Manager.Handshake.{contains-head, parked, last_write_sent}
use nearby_rs.Bwu.Manager.Complete.{prepared, safe_to_close_sent, run_upgrade_protocol-parked}

module _ (p : Platform) where
  open p use {codec}

  -- The bytes of a frame are parsed and given to the manager, if they do parse.
  abbrev pub deliver : ℕ → Bytes → Str → World p → Option (World p)
  deliver fuel bytes id w = elim (from_bytes codec bytes) [
    | err _ ↦ some w
    | ok frame ↦ on_incoming_frame p fuel frame id w
  ]

  deliver-last_write :
      (fuel : ℕ) (id : Str) (w : World p)
      → is_connected_to_endpoint id w.client ≡ true
      → Set.contains id w.in_progress_upgrades ≡ true
      → deliver fuel (for_bwu_last_write codec) id w
        ≡ some (process_last_write_to_prior_channel_event p id w)
  unfolding on_incoming_frame on_bwu_negotiation_frame get_frame_type
  deliver-last_write fuel id w c g =
      let (last, _, _, _) = from_bytes-handshake codec [] [] false in rw (deliver, last, c, g) refl

  deliver-safe_to_close :
      (fuel : ℕ) (id : Str) (w : World p)
      → is_connected_to_endpoint id w.client ≡ true
      → Set.contains id w.in_progress_upgrades ≡ true
      → deliver fuel (for_bwu_safe_to_close codec) id w
        ≡ some (process_safe_to_close_prior_channel_event p id w)
  unfolding on_incoming_frame on_bwu_negotiation_frame get_frame_type
  deliver-safe_to_close fuel id w c g =
      let (_, safe, _, _) = from_bytes-handshake codec [] [] false in rw (deliver, safe, c, g) refl

  -- The upgrade of the endpoint, which is connected, is in progress.
  pub record IsOngoing (id : Str) (w : World p) : Type 0 where
    pub is_connected : is_connected_to_endpoint id w.client ≡ true
    pub in_progress : Set.contains id w.in_progress_upgrades ≡ true

  IsOngoing-process_last_write :
      (id : Str) (w : World p)
      → IsOngoing id w
      → IsOngoing id (process_last_write_to_prior_channel_event p id w)
  unfolding process_last_write_to_prior_channel_event write_chan
  IsOngoing-process_last_write id w h = ground (arith, h)

  -- The two frames that end the handshake, as the peer sends them.
  abbrev pub deliver_end : ℕ → Str → World p → Option (World p)
  deliver_end fuel id w = deliver fuel (for_bwu_last_write codec) id w >>= λ w'.
      deliver fuel (for_bwu_safe_to_close codec) id w'

  pub deliver_end-IsOngoing :
      (fuel : ℕ) (id : Str) (w : World p)
      → IsOngoing id w
      → deliver_end fuel id w
        ≡ some (
            process_safe_to_close_prior_channel_event p id
              (process_last_write_to_prior_channel_event p id w))
  deliver_end-IsOngoing fuel id w h =
      let h' = IsOngoing-process_last_write id w h in
      let w' = process_last_write_to_prior_channel_event p id w in
      ap (λ o. o >>= λ w'. deliver fuel (for_bwu_safe_to_close codec) id w')
        (deliver-last_write fuel id w h.is_connected h.in_progress)
      ∙ deliver-safe_to_close fuel id w' h'.is_connected h'.in_progress

  IsOngoing-connected :
      (id : Str) (old r : ℕ) (e : Bool) (w : World p)
      → IsOngoing id w
      → Map.get id w.ecm ≡ some old
      → last_write_sent p old (prepared p r (connected p id r w)) ≡ true
      → Set.contains id w.successfully_upgraded_endpoints ≡ false
      → IsOngoing id (run_upgrade_protocol p id r e (connected p id r w))
  unfolding cancel_retry_upgrade_alarm write_chan read_chan
  IsOngoing-connected id old r e w h c k n =
      rw (run_upgrade_protocol-parked p id old r e (connected p id r w) c k n)
        (record { is_connected = h.is_connected; in_progress = h.in_progress })

  -- The initiator's path over the bytes that its peer sends: the socket connects, its introduction
  -- is read from the new channel, and the frames of the peer's last write and safe to close are
  -- parsed and dispatched. With one upgrade in progress, of a connected endpoint that had a channel
  -- and no last write remembered, and with the acknowledgement and both frames on the old channel
  -- going out, each of these returns for any fuel, and in the end the socket's channel is registered,
  -- nothing is in progress, parked or pending for the endpoint, and the client is told the medium.
  pub deliver_end-on_incoming_connection :
      (fuel : ℕ) (id intro_id last_id : Str) (disabling : Bool) (old r : ℕ) (w : World p)
      → w.in_progress_upgrades ≡ id ∷ []
      → is_connected_to_endpoint id w.client ≡ true
      → (p.channel.read (w.chan r)).0 ≡ ok (for_bwu_introduction codec intro_id last_id disabling)
      → ack_sent p r w ≡ true
      → Map.get id w.ecm ≡ some old
      → Set.contains id w.successfully_upgraded_endpoints ≡ false
      → last_write_sent p old (prepared p r (connected p id r w)) ≡ true
      → safe_to_close_sent p old (parked p id old r (prepared p r (connected p id r w))) ≡ true
      → (w3 : World p) × (deliver_end fuel id (on_incoming_connection p r w) ≡ some w3)
        × (Map.get id w3.previous_endpoint_channels ≡ none)
        × (Set.contains id w3.in_progress_upgrades ≡ false)
        × (get_channel_for_endpoint p id w3 ≡ some r)
        × (Map.get id w3.retry_upgrade_alarms ≡ none)
        × (w3.client ≡ on_bandwidth_changed id (p.channel.medium (w3.chan r)) w.client)
  deliver_end-on_incoming_connection fuel id intro_id last_id disabling old r w only conn reads
        acked c n k l =
      let in_progress : Set.contains id w.in_progress_upgrades ≡ true =
        rw only (contains-head id []) in
      let ongoing =
        IsOngoing-connected id old r (not disabling) w
          (record { is_connected = conn; in_progress = in_progress }) c k n in
      let introduced =
        on_incoming_connection-introduced p id intro_id last_id disabling r w only reads acked in
      let (freed, over, registered, no_retry, told) =
        on_incoming_connection_complete p id intro_id last_id disabling old r w only reads acked c n
          k l in
      (
        _,
        deliver_end-IsOngoing fuel id (on_incoming_connection p r w)
            (subst (IsOngoing id) (sym introduced) ongoing),
        freed,
        over,
        registered,
        no_retry,
        told,
      )
