-- ===== src/Bwu/Manager/Examples.antt =====
-- The manager at concrete states, over the platform of the oracle tests.
use nearby_rs.Prelude.{
  is_some, ◌>>=◌, ◌≡◌, refl, arith, true, false, none, some, [], ◌∷◌, ascii, str_eq, nat_eq, ◌⊎◌,
  subst, sym, ◌∙◌, unwrap_or, if◌then◌else◌, nat_beq,
}
use nearby_rs.Prelude.Map
use nearby_rs.Prelude.Set
use nearby_rs.Mediums.{Medium, medium_eq, medium_beq}
use nearby_rs.Proto.Sample.{sample_codec}
use nearby_rs.Frames.Defs.{ok}
use nearby_rs.Frames.Upgrade.{
  introduction, for_bwu_introduction, for_bwu_introduction_ack, for_bwu_last_write,
}
use nearby_rs.Bwu.Client.{is_connected_to_endpoint, on_bandwidth_changed, is_incoming_connection}
use nearby_rs.Bwu.World
use nearby_rs.Bwu.World.{
  World, BwuConfig, default_config, from_secs, Duration, get_channel_for_endpoint,
}
use nearby_rs.Bwu.Testing.{new_fake_channel}
use nearby_rs.Bwu.Manager.Medium.{
  upi_medium, upgrade_path_info_for_medium, get_bwu_medium_for_endpoint,
  set_bwu_medium_for_endpoint, has_handler_for_medium,
}
use nearby_rs.Bwu.Manager.Retry.{uncapped_delay, choose_best_upgrade_medium, pending_retry_delay}
use nearby_rs.Bwu.Manager.Termination.{has}
use nearby_rs.Bwu.Manager.Protocol.{
  process_last_write_to_prior_channel_event, run_upgrade_protocol,
  process_safe_to_close_prior_channel_event,
}
use nearby_rs.Bwu.Manager.Handshake.{run_upgrade_protocol-early}
use nearby_rs.Bwu.Manager.Delivery.{deliver, deliver_end, deliver_end-on_incoming_connection}
use nearby_rs.Bwu.Manager.Offer.{deliver_end-deliver}
use nearby_rs.Proto.Metadata.{empty_location_hint}
use nearby_rs.Frames.Upgrade.{webrtc_path, bwu_upgrade_path_available}
use nearby_rs.Frames.Parse.{from_bytes, from_bytes-encode_v1}
use nearby_rs.Proto.FrameEnums.{FrameType}
use nearby_rs.Validator.{ensure_valid_offline_frame}
use nearby_rs.Frames.Receive.{path_frame}
use nearby_rs.Bwu.Testing.{new_fake_handler}
use nearby_rs.Bwu.Manager.Incoming.{introduced, IsSameBut, on_incoming_connection-IsSameBut}
use nearby_rs.Proto.Upgrade.{ClientIntroduction, UpgradePathInfo}
use nearby_rs.Bwu.Manager.Respond.{
  adopt_medium, process_bwu_path_available_event_internal, on_incoming_connection,
}
use nearby_rs.Bwu.Manager.Dispatch.{on_incoming_frame, on_endpoint_disconnect}
use nearby_rs.Bwu.Manager.Complete.{handshake_complete}
use nearby_rs.Bwu.Manager.Choice.{choose_best-available}
use nearby_rs.Bwu.Manager.Disconnect.{upgrade_of, idle, upgrade_of-on_endpoint_disconnect}
use nearby_rs.Bwu.Manager.Gate.{Untouched, offered_by, on_incoming_frame-not_connected}
use nearby_rs.Bwu.Manager.Backoff.{
  retries, pending_retry_delay-exponential, pending_retry_delay-linear,
}
use nearby_rs.Bwu.Manager.Introduction.{parse_introduction, parse_introduction_ack}
use nearby_rs.Bwu.Manager.Introduced.{parse_introduction-built}
use nearby_rs.Bwu.Sample.{
  p, endpoint, other_endpoint, service, client, fresh, swapped, failure_frame,
}

run_upgrade_protocol-early_example :
    run_upgrade_protocol p endpoint 1 true
      (process_last_write_to_prior_channel_event p endpoint fresh)
    ≡ process_last_write_to_prior_channel_event p endpoint
        (run_upgrade_protocol p endpoint 1 true fresh)
unfolding Map.get Set.contains
run_upgrade_protocol-early_example = run_upgrade_protocol-early p endpoint 1 true fresh refl refl

upgrade_of-on_endpoint_disconnect_example :
    upgrade_of p endpoint (on_endpoint_disconnect p service endpoint swapped)
    ≡ record (idle p) { medium = Medium.unknown_medium }
upgrade_of-on_endpoint_disconnect_example =
    upgrade_of-on_endpoint_disconnect p service endpoint endpoint swapped

on_incoming_frame-not_connected_example :
    (w' : World p) × (on_incoming_frame p 3 failure_frame other_endpoint swapped ≡ some w')
    × Untouched p (offered_by p failure_frame) other_endpoint swapped w'
unfolding Map.get is_connected_to_endpoint
on_incoming_frame-not_connected_example =
    on_incoming_frame-not_connected p 3 failure_frame other_endpoint swapped refl

pending_retry_delay-exponential_example :
    (is_some (uncapped_delay p endpoint (retries p endpoint 7 fresh)) ≡ true)
    × (pending_retry_delay p endpoint (retries p endpoint 8 fresh) ≡ some (from_secs 300))
unfolding Map.get World.max_duration
pending_retry_delay-exponential_example =
    pending_retry_delay-exponential p endpoint fresh refl (omega arith) (omega arith) 7 refl

-- With linear backoff.
abbrev steady : World p
steady = record fresh {
  config = record {
    support_multiple_bwu_mediums = true;
    use_exp_backoff_in_bwu_retry = false;
    bandwidth_upgrade_retry_delay = from_secs 5;
    bandwidth_upgrade_retry_max_delay = from_secs 10;
  };
}

pending_retry_delay-linear_example :
    (is_some (uncapped_delay p endpoint (retries p endpoint 2 steady)) ≡ true)
    × (pending_retry_delay p endpoint (retries p endpoint 3 steady) ≡ some (from_secs 10))
unfolding Map.get World.max_duration
pending_retry_delay-linear_example =
    pending_retry_delay-linear p endpoint steady refl (omega arith) (omega arith) 2 refl

parse_introduction-built_example :
    (parse_introduction sample_codec
        (ok (for_bwu_introduction sample_codec endpoint other_endpoint true))
      ≡ some (introduction endpoint other_endpoint true))
    × (parse_introduction_ack sample_codec (ok (for_bwu_introduction_ack sample_codec)) ≡ true)
    × (parse_introduction sample_codec (ok (for_bwu_last_write sample_codec)) ≡ none)
    × (parse_introduction_ack sample_codec (ok (for_bwu_last_write sample_codec)) ≡ false)
parse_introduction-built_example =
    parse_introduction-built sample_codec endpoint other_endpoint true

handshake_complete_example :
    (let w1 = run_upgrade_protocol p endpoint 1 true fresh in
      let w2 = process_last_write_to_prior_channel_event p endpoint w1 in
      let w3 = process_safe_to_close_prior_channel_event p endpoint w2 in
      (Map.get endpoint w3.previous_endpoint_channels ≡ none)
      × (Set.contains endpoint w3.in_progress_upgrades ≡ false)
      × (get_channel_for_endpoint p endpoint w3 ≡ some 1)
      × (w3.client ≡ on_bandwidth_changed endpoint (p.channel.medium (w3.chan 1)) client))
unfolding Map.get Set.contains
handshake_complete_example = handshake_complete p endpoint 0 1 true fresh refl refl refl refl

choose_best-available_example :
    (choose_best_upgrade_medium p endpoint (Medium.wifi_lan ∷ []) swapped ≡ Medium.unknown_medium)
    ⊎ ((has
            (choose_best_upgrade_medium p endpoint (Medium.wifi_lan ∷ []) swapped)
            (Medium.wifi_lan ∷ [])
          ≡ true)
        × (has_handler_for_medium p
              (choose_best_upgrade_medium p endpoint (Medium.wifi_lan ∷ []) swapped)
              swapped
            ≡ true))
choose_best-available_example = choose_best-available p endpoint (Medium.wifi_lan ∷ []) swapped

-- An upgrade of the endpoint is in progress and its retry is armed; the socket's channel 1 reads the
-- peer's introduction, under an id that the manager does not know.
abbrev offered : World p
offered = record fresh {
  in_progress_upgrades = endpoint ∷ [];
  retry_upgrade_alarms = (endpoint, from_secs 3) ∷ [];
  next_chan = 2;
  chan = λ n.
      if nat_beq 1 n
      then record (new_fake_channel Medium.wifi_lan service) {
        read_output = ok (for_bwu_introduction sample_codec other_endpoint [] false);
      }
      else new_fake_channel Medium.bluetooth service;
}

deliver_end-on_incoming_connection_example :
    (w3 : World p) × (deliver_end p 3 endpoint (on_incoming_connection p 1 offered) ≡ some w3)
    × (Map.get endpoint w3.previous_endpoint_channels ≡ none)
    × (Set.contains endpoint w3.in_progress_upgrades ≡ false)
    × (get_channel_for_endpoint p endpoint w3 ≡ some 1)
    × (Map.get endpoint w3.retry_upgrade_alarms ≡ none)
    × (w3.client ≡ on_bandwidth_changed endpoint (p.channel.medium (w3.chan 1)) client)
unfolding Map.get Set.contains World.write_chan World.read_chan is_connected_to_endpoint
    nearby_rs.Bwu.Manager.Retry.cancel_retry_upgrade_alarm
deliver_end-on_incoming_connection_example =
    deliver_end-on_incoming_connection p 3 endpoint other_endpoint [] false 0 1 offered refl refl
      refl refl refl refl refl refl

-- The same, with another upgrade in progress: the introduction is for neither.
abbrev ambiguous : World p
ambiguous = record offered { in_progress_upgrades = endpoint ∷ ascii "IJKL" ∷ [] }

unknown :
    (i : ClientIntroduction)
    → introduced p 1 ambiguous ≡ some i
    → Set.contains (unwrap_or i.endpoint_id []) ambiguous.in_progress_upgrades ≡ false
unfolding Set.contains introduction
unknown i h =
    let (built, _, _, _) = parse_introduction-built sample_codec other_endpoint [] false in
    subst
      (λ o.
        Set.contains (unwrap_or (unwrap_or o (introduction other_endpoint [] false)).endpoint_id [])
          ambiguous.in_progress_upgrades
        ≡ false)
      (sym built ∙ h) refl

on_incoming_connection-IsSameBut_example :
    IsSameBut p 1 ambiguous (on_incoming_connection p 1 ambiguous)
on_incoming_connection-IsSameBut_example =
    on_incoming_connection-IsSameBut p 1 ambiguous unknown (λ id e. ground (arith, e))

-- WebRTC can be joined; the peer offers it.
abbrev joinable : World p
joinable = record fresh {
  handlers = (Medium.web_rtc, record { inner = new_fake_handler Medium.web_rtc; active = [] }) ∷ [];
}

-- The peer asks for no acknowledgement of the introduction.
abbrev offered_path : UpgradePathInfo
unfolding webrtc_path
offered_path = record (webrtc_path (ascii "peer-id") empty_location_hint) {
  supports_client_introduction_ack = none;
}

offer-from_bytes :
    from_bytes sample_codec (bwu_upgrade_path_available sample_codec offered_path)
    ≡ ok (path_frame offered_path)
unfolding bwu_upgrade_path_available ensure_valid_offline_frame webrtc_path offered_path
offer-from_bytes = from_bytes-encode_v1 sample_codec FrameType.bandwidth_upgrade_negotiation _

deliver_end-deliver_example :
    (w3 : World p) × ((deliver p 3
          (bwu_upgrade_path_available sample_codec offered_path)
          endpoint
          joinable
        >>= λ w1. deliver_end p 3 endpoint w1)
      ≡ some w3)
    × (Map.get endpoint w3.previous_endpoint_channels ≡ none)
    × (Set.contains endpoint w3.in_progress_upgrades ≡ false)
    × (get_channel_for_endpoint p endpoint w3 ≡ some 1)
    × (w3.client ≡ on_bandwidth_changed endpoint (p.channel.medium (w3.chan 1)) client)
unfolding Map.get Set.contains medium_beq is_incoming_connection World.is_wifi_lan_connected
    upi_medium upgrade_path_info_for_medium get_bwu_medium_for_endpoint adopt_medium
    set_bwu_medium_for_endpoint Map.insert process_bwu_path_available_event_internal
    has_handler_for_medium get_channel_for_endpoint is_connected_to_endpoint webrtc_path
    offered_path nearby_rs.Bwu.Handler.create_upgraded_endpoint_channel World.write_chan
    World.alloc_chan
deliver_end-deliver_example =
    deliver_end-deliver p 3 (bwu_upgrade_path_available sample_codec offered_path) endpoint
      offered_path 0 1 joinable offer-from_bytes refl refl refl refl refl refl refl refl refl refl
