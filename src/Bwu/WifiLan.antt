-- ===== src/Bwu/WifiLan.antt =====
-- bwu/wifi_lan.rs: the Wi-Fi LAN handler over TCP. The handler's state carries the system whose
-- listeners it starts.
pub mod Lifecycle
pub mod Path
mod Examples
use nearby_rs.Prelude.{ℕ, Option, none, some, List, [], ◌∷◌, Bytes, Str, ascii, str_eq, map, ◌>>=◌}
use nearby_rs.Prelude.Int.{pos}
use nearby_rs.Prelude.Map
use nearby_rs.Prelude.Map.{Map}
use nearby_rs.Mediums.{Medium}
use nearby_rs.Proto.Codec.{Codec}
use nearby_rs.Proto.Upgrade.{UpgradePathInfo}
use nearby_rs.Frames.Upgrade.{for_bwu_wifi_lan_path_available}
use nearby_rs.Bwu.Client.{ClientProxy}
use nearby_rs.Bwu.StreamChannel.{Cipher, StreamChannel}
use nearby_rs.Bwu.Handler.{MediumBwuHandler}
use nearby_rs.Bwu.Tcp.Address.{Ipv4Addr, SocketAddr, localhost, octets, from_octets, port_of}
use nearby_rs.Bwu.Tcp.{
  Sockets, System, Listener, TcpDuplexStream, tcp_channel, start_listener, stop_listener,
}

-- CHANNEL_NAME
abbrev pub channel_name : Str
channel_name = ascii "wifi-lan"

pub record WifiLanBwuHandler (s : Sockets) (Sink : Type 0) : Type 0 where
  pub sink : Sink
  pub bind_ip : Ipv4Addr
  pub advertise_ip : Ipv4Addr
  pub listeners : Map Str Listener
  pub system : System s Sink

unfoldable pub path_available : Codec → Ipv4Addr → Option SocketAddr → Bytes
path_available codec advertise_ip none = []
path_available codec advertise_ip (some addr) =
    for_bwu_wifi_lan_path_available codec
      ((record { address = octets advertise_ip; port = pos addr.port }) ∷ [])

-- The address that a path asks the responder to dial.
unfoldable pub dialled : UpgradePathInfo → Option SocketAddr
dialled info = info.wifi_lan_socket >>= λ socket. socket.ip_address >>= λ ip.
    from_octets ip >>= λ addr. socket.wifi_port >>= λ wifi_port.
    port_of wifi_port >>= λ port. some (record { ip = addr; port = port })

module _ (s : Sockets) {Sink : Type 0} where
  unfoldable pub with_endpoint :
      Sink → Ipv4Addr → Ipv4Addr → System s Sink → WifiLanBwuHandler s Sink
  with_endpoint sink bind_ip advertise_ip system = record {
    sink = sink;
    bind_ip = bind_ip;
    advertise_ip = advertise_ip;
    listeners = [];
    system = system;
  }

  unfoldable pub new : Sink → System s Sink → WifiLanBwuHandler s Sink
  unfolding with_endpoint
  new sink system = with_endpoint sink localhost localhost system

  unfoldable pub handle_revert_initiator_state_for_service :
      Str → WifiLanBwuHandler s Sink → WifiLanBwuHandler s Sink
  handle_revert_initiator_state_for_service upgrade_service_id h =
      elim (Map.get upgrade_service_id h.listeners) [
        | none ↦ h
        | some listener ↦ record h {
          listeners = Map.remove upgrade_service_id h.listeners;
          system = stop_listener s listener h.system;
        }
      ]

  -- The loop of `drop` over the service ids.
  unfoldable pub revert_all : List Str → WifiLanBwuHandler s Sink → WifiLanBwuHandler s Sink
  unfolding handle_revert_initiator_state_for_service
  revert_all [] h = h
  revert_all (service_id ∷ rest) h =
      revert_all rest (handle_revert_initiator_state_for_service service_id h)

  unfoldable pub drop : WifiLanBwuHandler s Sink → WifiLanBwuHandler s Sink
  unfolding revert_all
  drop h = revert_all (Map.keys h.listeners) h

  -- The address of the service's listener, which is started unless it is there.
  unfoldable pub listener_addr :
      Str → WifiLanBwuHandler s Sink → Option SocketAddr × WifiLanBwuHandler s Sink
  listener_addr upgrade_service_id h = elim (Map.get upgrade_service_id h.listeners) [
    | some listener ↦ (some listener.addr, h)
    | none ↦
        let (started, system) =
          start_listener s h.bind_ip upgrade_service_id channel_name Medium.wifi_lan h.sink
            h.system in
        elim started [
          | none ↦ (none, record h { system = system })
          | some listener ↦ (
            some listener.addr,
            record h {
              listeners = Map.insert upgrade_service_id listener h.listeners;
              system = system;
            },
          )
        ]
  ]

  module _ {Session : Type 0} (codec : Codec) (session : Cipher Session) where
    unfoldable pub handle_initialize_upgraded_medium_for_endpoint :
        ClientProxy → Str → Str → WifiLanBwuHandler s Sink → Bytes × WifiLanBwuHandler s Sink
    unfolding listener_addr path_available
    handle_initialize_upgraded_medium_for_endpoint _ upgrade_service_id _ h =
        let (addr, h') = listener_addr upgrade_service_id h in
        (path_available codec h.advertise_ip addr, h')

    unfoldable pub create_upgraded_endpoint_channel :
        ClientProxy
        → Str
        → Str
        → UpgradePathInfo
        → WifiLanBwuHandler s Sink
        → Option (StreamChannel (TcpDuplexStream s) Session) × WifiLanBwuHandler s Sink
    unfolding dialled
    create_upgraded_endpoint_channel _ service_id _ info h = elim (dialled info) [
      | none ↦ (none, h)
      | some addr ↦
          let (stream, os) = s.connect addr h.system.os in
          (
            stream >>= λ t. tcp_channel s codec session t service_id channel_name Medium.wifi_lan,
            record h { system = record (h.system) { os = os } },
          )
    ]

    -- `impl MediumBwuHandler for WifiLanBwuHandler`
    abbrev pub wifi_lan_handler :
        MediumBwuHandler (StreamChannel (TcpDuplexStream s) Session) (WifiLanBwuHandler s Sink)
    wifi_lan_handler = record {
      handle_initialize_upgraded_medium_for_endpoint =
          handle_initialize_upgraded_medium_for_endpoint;
      handle_revert_initiator_state_for_service = handle_revert_initiator_state_for_service;
      create_upgraded_endpoint_channel = create_upgraded_endpoint_channel;
      on_endpoint_disconnect = λ _ _ h. h;
    }
