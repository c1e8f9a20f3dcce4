-- ===== src/Bwu/WifiHotspot.antt =====
-- bwu/wifi_hotspot.rs: the Wi-Fi hotspot handler, over the platform's access point and TCP. The
-- handler's state carries the access point and the system, which it drives.
pub mod Lifecycle
pub mod Path
mod Examples
use nearby_rs.Prelude.{
  ℕ, Bool, true, false, Option, none, some, List, [], ◌∷◌, Bytes, Str, ascii, str_eq, map,
  unwrap_or, ◌>>=◌,
}
use nearby_rs.Prelude.Int.{ℤ, pos, negsuc}
use nearby_rs.Prelude.Map
use nearby_rs.Prelude.Map.{Map}
use nearby_rs.Mediums.{Medium}
use nearby_rs.Proto.Codec.{Codec}
use nearby_rs.Proto.Upgrade.{
  UpgradePathInfo, WifiHotspotCredentials, empty_wifi_hotspot_credentials,
}
use nearby_rs.Frames.Upgrade.{for_bwu_wifi_hotspot_path_available}
use nearby_rs.Bwu.Client.{ClientProxy}
use nearby_rs.Bwu.StreamChannel.{Cipher, StreamChannel}
use nearby_rs.Bwu.Handler.{MediumBwuHandler}
use nearby_rs.Bwu.Tcp.Address.{Ipv4Addr, SocketAddr, localhost, to_string, parse, port_of}
use nearby_rs.Bwu.Tcp.{
  Sockets, System, Listener, TcpDuplexStream, tcp_channel, start_listener, stop_listener,
}

-- CHANNEL_NAME
abbrev pub channel_name : Str
channel_name = ascii "wifi-hotspot"

pub record HotspotCreds : Type 0 where
  pub ssid : Str
  pub password : Str
  pub frequency : ℤ
  pub gateway : Ipv4Addr
  pub bind_ip : Ipv4Addr

-- The trait `SoftAp`, over the state of the platform's access point.
pub record SoftAp (Ap : Type 0) : Type 0 where
  pub start : Str → Ap → Option HotspotCreds × Ap
  pub connect_as_sta : HotspotCreds → Ap → Bool × Ap
  pub stop : Str → Ap → Ap
  pub disconnect_sta : Ap → Ap
  pub is_connected_to_hotspot : Ap → Bool

pub record HotspotListener : Type 0 where
  pub listener : Listener
  pub creds : HotspotCreds

pub record WifiHotspotBwuHandler (s : Sockets) (Sink Ap : Type 0) : Type 0 where
  pub sink : Sink
  pub softap : Ap
  pub listeners : Map Str HotspotListener
  pub system : System s Sink

unfoldable pub advertised : HotspotListener → WifiHotspotCredentials
advertised hl = record empty_wifi_hotspot_credentials {
  ssid = some hl.creds.ssid;
  password = some hl.creds.password;
  port = some (pos hl.listener.addr.port);
  gateway = some (to_string hl.creds.gateway);
  frequency = some hl.creds.frequency;
}

unfoldable pub path_available : Codec → Option HotspotListener → Bytes
unfolding advertised
path_available codec none = []
path_available codec (some hl) = for_bwu_wifi_hotspot_path_available codec (advertised hl) false

-- What the responder takes from a path: the hotspot to join, and the port to dial.
unfoldable pub joined : UpgradePathInfo → Option (HotspotCreds × ℕ)
joined info = info.wifi_hotspot_credentials >>= λ creds_pb. creds_pb.gateway >>= λ text.
    parse text >>= λ gateway. creds_pb.port >>= λ number. port_of number >>= λ port. some (
      record {
        ssid = unwrap_or creds_pb.ssid [];
        password = unwrap_or creds_pb.password [];
        frequency = unwrap_or creds_pb.frequency (negsuc 0);
        gateway = gateway;
        bind_ip = gateway;
      },
      port,
    )

module _ (s : Sockets) {Sink Ap : Type 0} (ap : SoftAp Ap) where
  unfoldable pub new : Ap → Sink → System s Sink → WifiHotspotBwuHandler s Sink Ap
  new softap sink system = record { sink = sink; softap = softap; listeners = []; system = system }

  unfoldable pub handle_revert_initiator_state_for_service :
      Str → WifiHotspotBwuHandler s Sink Ap → WifiHotspotBwuHandler s Sink Ap
  handle_revert_initiator_state_for_service upgrade_service_id h =
      elim (Map.get upgrade_service_id h.listeners) [
        | none ↦ h
        | some hl ↦ record h {
          listeners = Map.remove upgrade_service_id h.listeners;
          system = stop_listener s hl.listener h.system;
          softap = ap.stop upgrade_service_id h.softap;
        }
      ]

  -- The loop of `drop` over the service ids.
  unfoldable pub revert_all :
      List Str → WifiHotspotBwuHandler s Sink Ap → WifiHotspotBwuHandler s Sink Ap
  unfolding handle_revert_initiator_state_for_service
  revert_all [] h = h
  revert_all (service_id ∷ rest) h =
      revert_all rest (handle_revert_initiator_state_for_service service_id h)

  unfoldable pub drop : WifiHotspotBwuHandler s Sink Ap → WifiHotspotBwuHandler s Sink Ap
  unfolding revert_all
  drop h = revert_all (Map.keys h.listeners) h

  -- The listener on a started access point, which stops again if there is none.
  unfoldable pub listen_on :
      Str
      → HotspotCreds
      → WifiHotspotBwuHandler s Sink Ap
      → Option HotspotListener × WifiHotspotBwuHandler s Sink Ap
  listen_on upgrade_service_id creds h =
      let (started, system) =
        start_listener s creds.bind_ip upgrade_service_id channel_name Medium.wifi_hotspot h.sink
          h.system in
      elim started [
        | none ↦ (none, record h { system = system; softap = ap.stop upgrade_service_id h.softap })
        | some listener ↦
            let hl : HotspotListener = record { listener = listener; creds = creds } in
            (
              some hl,
              record h {
                listeners = Map.insert upgrade_service_id hl h.listeners;
                system = system;
              },
            )
      ]

  -- The service's access point and listener, which are started unless they are there.
  unfoldable pub standing :
      Str
      → WifiHotspotBwuHandler s Sink Ap
      → Option HotspotListener × WifiHotspotBwuHandler s Sink Ap
  unfolding listen_on
  standing upgrade_service_id h = elim (Map.get upgrade_service_id h.listeners) [
    | some hl ↦ (some hl, h)
    | none ↦
        let (creds, softap) = ap.start upgrade_service_id h.softap in
        elim creds [
          | none ↦ (none, record h { softap = softap })
          | some creds ↦ listen_on upgrade_service_id creds (record h { softap = softap })
        ]
  ]

  module _ {Session : Type 0} (codec : Codec) (session : Cipher Session) where
    unfoldable pub handle_initialize_upgraded_medium_for_endpoint :
        ClientProxy
        → Str
        → Str
        → WifiHotspotBwuHandler s Sink Ap
        → Bytes × WifiHotspotBwuHandler s Sink Ap
    unfolding standing path_available
    handle_initialize_upgraded_medium_for_endpoint _ upgrade_service_id _ h =
        let (hl, h') = standing upgrade_service_id h in (path_available codec hl, h')

    unfoldable pub dial :
        Str
        → SocketAddr
        → WifiHotspotBwuHandler s Sink Ap
        → Option (StreamChannel (TcpDuplexStream s) Session) × WifiHotspotBwuHandler s Sink Ap
    dial service_id addr h =
        let (stream, os) = s.connect addr h.system.os in
        (
          stream >>= λ t. tcp_channel s codec session t service_id channel_name Medium.wifi_hotspot,
          record h { system = record (h.system) { os = os } },
        )

    unfoldable pub create_upgraded_endpoint_channel :
        ClientProxy
        → Str
        → Str
        → UpgradePathInfo
        → WifiHotspotBwuHandler s Sink Ap
        → Option (StreamChannel (TcpDuplexStream s) Session) × WifiHotspotBwuHandler s Sink Ap
    unfolding joined dial
    create_upgraded_endpoint_channel _ service_id _ info h = elim (joined info) [
      | none ↦ (none, h)
      | some (creds, port) ↦
          let (connected, softap) = ap.connect_as_sta creds h.softap in
          elim connected [
            | false ↦ (none, record h { softap = softap })
            | true ↦
                dial service_id (record { ip = creds.gateway; port = port })
                  (record h { softap = softap })
          ]
    ]

    unfoldable pub on_endpoint_disconnect :
        ClientProxy → Str → WifiHotspotBwuHandler s Sink Ap → WifiHotspotBwuHandler s Sink Ap
    on_endpoint_disconnect _ _ h = record h { softap = ap.disconnect_sta h.softap }

    -- `impl MediumBwuHandler for WifiHotspotBwuHandler`
    abbrev pub wifi_hotspot_handler :
        MediumBwuHandler
          (StreamChannel (TcpDuplexStream s) Session)
          (WifiHotspotBwuHandler s Sink Ap)
    wifi_hotspot_handler = record {
      handle_initialize_upgraded_medium_for_endpoint =
          handle_initialize_upgraded_medium_for_endpoint;
      handle_revert_initiator_state_for_service = handle_revert_initiator_state_for_service;
      create_upgraded_endpoint_channel = create_upgraded_endpoint_channel;
      on_endpoint_disconnect = on_endpoint_disconnect;
    }

-- The access point of the tests.
pub record FakeSoftAp : Type 0 where
  pub ssid : Str
  pub password : Str
  pub frequency : ℤ
  pub connected : Bool

abbrev pub new_fake_softap : FakeSoftAp
new_fake_softap = record {
  ssid = ascii "DIRECT-beamish-test";
  password = ascii "testpassword";
  frequency = pos 2437;
  connected = false;
}

-- `impl SoftAp for FakeSoftAp`
abbrev pub fake_softap : SoftAp FakeSoftAp
fake_softap = record {
  start = λ _ ap. (
    some (record {
      ssid = ap.ssid;
      password = ap.password;
      frequency = ap.frequency;
      gateway = localhost;
      bind_ip = localhost;
    }),
    ap,
  );
  connect_as_sta = λ _ ap. (true, record ap { connected = true });
  stop = λ _ ap. ap;
  disconnect_sta = λ ap. record ap { connected = false };
  is_connected_to_hotspot = λ ap. ap.connected;
}
