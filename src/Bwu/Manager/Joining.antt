-- ===== src/Bwu/Manager/Joining.antt =====
-- bwu/manager.rs: the responder's path from the offered medium to the end of the upgrade,
-- process_bwu_path_available_event and the handshake.
use nearby_rs.Prelude.{
  ℕ, ◌≡◌, refl, ◌∙◌, ap, arith, true, false, not, ◌&&◌, Option, none, some, Str, ◌==◌, str_eq,
  unwrap_or,
}
use nearby_rs.Prelude.Map
use nearby_rs.Prelude.Set
use nearby_rs.Mediums.{Medium, medium_eq}
use nearby_rs.Proto.Upgrade.{UpgradePathInfo}
use nearby_rs.Bwu.Client.{is_incoming_connection, on_bandwidth_changed}
use nearby_rs.Bwu.Platform.{Platform}
use nearby_rs.Bwu.World.{
  World, write_chan, read_chan, alloc_chan, get_channel_for_endpoint, is_wifi_lan_connected,
}
use nearby_rs.Bwu.Manager.Medium.{
  upi_medium, get_bwu_medium_for_endpoint, set_bwu_medium_for_endpoint,
}
use nearby_rs.Bwu.Manager.Introduction.{read_client_introduction_ack_frame}
use nearby_rs.Bwu.Manager.Protocol.{
  process_last_write_to_prior_channel_event, run_upgrade_protocol,
  process_safe_to_close_prior_channel_event,
}
use nearby_rs.Bwu.Manager.Respond.{
  introduce, create_channel, process_bwu_path_available_event_internal, adopt_medium, accept_path,
  process_bwu_path_available_event,
}
use nearby_rs.Bwu.Manager.Handshake.{parked, last_write_sent}
use nearby_rs.Bwu.Manager.Complete.{prepared, safe_to_close_sent, handshake_complete}

module _ (p : Platform) where
  -- What the handshake reads of the state is the same in both.
  pub record IsSteady (w w' : World p) : Type 0 where
    pub client : w'.client ≡ w.client
    pub ecm : w'.ecm ≡ w.ecm
    pub last_writes : w'.successfully_upgraded_endpoints ≡ w.successfully_upgraded_endpoints

  IsSteady-trans : {u v w : World p} → IsSteady u v → IsSteady v w → IsSteady u w
  IsSteady-trans h k = record {
    client = k.client ∙ h.client;
    ecm = k.ecm ∙ h.ecm;
    last_writes = k.last_writes ∙ h.last_writes;
  }

  IsSteady-adopt_medium :
      (id : Str) (info : UpgradePathInfo) (w : World p) → IsSteady w (adopt_medium p id info w)
  unfolding adopt_medium set_bwu_medium_for_endpoint
  IsSteady-adopt_medium id info w = ground arith

  IsSteady-introduce :
      (s : Str) (info : UpgradePathInfo) (r : ℕ) (w : World p)
      → IsSteady w (introduce p s info r w).1
  unfolding introduce read_client_introduction_ack_frame write_chan read_chan
  IsSteady-introduce s info r w = ground arith

  IsSteady-create_channel :
      (m : Medium) (s id : Str) (info : UpgradePathInfo) (w : World p)
      → IsSteady w (create_channel p m s id info w).1
  unfolding create_channel alloc_chan
  IsSteady-create_channel m s id info w = ground arith

  IsSteady-internal :
      (id : Str) (info : UpgradePathInfo) (w : World p)
      → IsSteady w (process_bwu_path_available_event_internal p id info w).1
  unfolding process_bwu_path_available_event_internal
  IsSteady-internal id info w = grind (arith, IsSteady-introduce, IsSteady-create_channel)

  -- The channel that the responder creates and introduces, if it does.
  abbrev pub joined : Str → UpgradePathInfo → World p → Option ℕ
  joined id info w =
      (process_bwu_path_available_event_internal p id info (adopt_medium p id info w)).0

  -- The state that the upgrade protocol starts in.
  abbrev pub started : Str → UpgradePathInfo → World p → World p
  started id info w =
      let w1 = (process_bwu_path_available_event_internal p id info (adopt_medium p id info w)).1 in
      record w1 { in_progress_upgrades = Set.insert id w1.in_progress_upgrades }

  pub IsSteady-started :
      (id : Str) (info : UpgradePathInfo) (w : World p) → IsSteady w (started id info w)
  IsSteady-started id info w =
      let s =
        IsSteady-trans (IsSteady-adopt_medium id info w)
          (IsSteady-internal id info (adopt_medium p id info w)) in
      record { client = s.client; ecm = s.ecm; last_writes = s.last_writes }

  pub accept_path-joined :
      (id : Str) (info : UpgradePathInfo) (r : ℕ) (w : World p)
      → (process_bwu_path_available_event_internal p id info w).0 ≡ some r
      → accept_path p id info w
        ≡ run_upgrade_protocol p id r (not (unwrap_or info.supports_disabling_encryption false)) (
            let w1 = (process_bwu_path_available_event_internal p id info w).1 in
            record w1 { in_progress_upgrades = Set.insert id w1.in_progress_upgrades })
  unfolding accept_path
  accept_path-joined id info r w j = rw (accept_path, j) refl

  pub process_bwu_path_available_event-accepted :
      (id : Str) (info : UpgradePathInfo) (w : World p)
      → (is_wifi_lan_connected p w && upi_medium info == Medium.wifi_hotspot) ≡ false
      → is_incoming_connection id w.client ≡ false
      → Set.contains id w.in_progress_upgrades ≡ false
      → (upi_medium info == get_bwu_medium_for_endpoint p id (adopt_medium p id info w)) ≡ true
      → process_bwu_path_available_event p id info w
        ≡ accept_path p id info (adopt_medium p id info w)
  unfolding process_bwu_path_available_event
  process_bwu_path_available_event-accepted id info w lan incoming idle same =
      rw (process_bwu_path_available_event, lan, incoming, idle, same) refl

  -- The responder's whole path: an offered medium that it can join, then the peer's LAST_WRITE and its
  -- SAFE_TO_CLOSE. If the path is not a hotspot beside Wi-Fi LAN, the client's connection is not an
  -- incoming one, no upgrade of the endpoint is in progress, its medium is the offered one once an
  -- unknown one is adopted, the channel is created and introduced, the endpoint had a channel, no last
  -- write was remembered, and both frames on the old channel go out, then the new channel is
  -- registered, no upgrade of the endpoint is in progress, nothing is parked, and the client is told
  -- the new medium.
  pub process_bwu_path_available_event_complete :
      (id : Str) (info : UpgradePathInfo) (old r : ℕ) (w : World p)
      → (is_wifi_lan_connected p w && upi_medium info == Medium.wifi_hotspot) ≡ false
      → is_incoming_connection id w.client ≡ false
      → Set.contains id w.in_progress_upgrades ≡ false
      → (upi_medium info == get_bwu_medium_for_endpoint p id (adopt_medium p id info w)) ≡ true
      → joined id info w ≡ some r
      → Map.get id w.ecm ≡ some old
      → Set.contains id w.successfully_upgraded_endpoints ≡ false
      → last_write_sent p old (prepared p r (started id info w)) ≡ true
      → safe_to_close_sent p old (parked p id old r (prepared p r (started id info w))) ≡ true
      → (let w1 = process_bwu_path_available_event p id info w in
          let w2 = process_last_write_to_prior_channel_event p id w1 in
          let w3 = process_safe_to_close_prior_channel_event p id w2 in
          (Map.get id w3.previous_endpoint_channels ≡ none)
          × (Set.contains id w3.in_progress_upgrades ≡ false)
          × (get_channel_for_endpoint p id w3 ≡ some r)
          × (w3.client ≡ on_bandwidth_changed id (p.channel.medium (w3.chan r)) w.client))
  process_bwu_path_available_event_complete id info old r w lan incoming idle same j c h k l =
      let s = IsSteady-started id info w in
      let disabling = unwrap_or info.supports_disabling_encryption false in
      let (freed, over, registered, told) =
        handshake_complete p id old r (not disabling) (started id info w)
          (ap (Map.get id) s.ecm ∙ c) (ap (Set.contains id) s.last_writes ∙ h) k l in
      rw
        (
          process_bwu_path_available_event-accepted id info w lan incoming idle same,
          accept_path-joined id info r (adopt_medium p id info w) j,
        )
        (freed, over, registered, told ∙ ap (on_bandwidth_changed id _) s.client)
