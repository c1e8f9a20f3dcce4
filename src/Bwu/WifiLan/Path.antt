-- ===== src/Bwu/WifiLan/Path.antt =====
-- bwu/wifi_lan.rs, frames.rs and validator.rs: from the listener of the initiator to the address
-- that the responder dials.
use nearby_rs.Prelude.{
  ◌<◌, ◌≡◌, refl, false, ◌∙◌, arith, none, some, [], ◌∷◌, Str, str_eq, str_beq_iff, is_empty,
  is_none, ap, sym, Option, ◌>>=◌, Option-cases, inl, inr,
}
use nearby_rs.Prelude.Int.{pos}
use nearby_rs.Prelude.Map
use nearby_rs.Prelude.Map.{get-insert}
use nearby_rs.Mediums.{Medium}
use nearby_rs.Proto.Codec.{Codec}
use nearby_rs.Proto.Upgrade.{UpgradePathInfo}
use nearby_rs.Frames.Defs.{ServiceAddress, ok}
use nearby_rs.Frames.Parse.{from_bytes, is_empty-encode_v1}
use nearby_rs.Frames.Receive.{path_frame, from_bytes-wifi_lan_path}
use nearby_rs.Frames.Upgrade.{wifi_lan_path, for_bwu_wifi_lan_path_available}
use nearby_rs.Bwu.Client.{ClientProxy}
use nearby_rs.Bwu.StreamChannel.{Cipher}
use nearby_rs.Bwu.Tcp.Address.{Ipv4Addr, SocketAddr, octets, from_octets, port_of}
use nearby_rs.Bwu.Tcp.{Sockets, Listener, tcp_channel, start_listener}
use nearby_rs.Bwu.WifiLan.{
  WifiLanBwuHandler, channel_name, listener_addr, path_available, dialled,
  handle_initialize_upgraded_medium_for_endpoint, create_upgraded_endpoint_channel,
}

abbrev advertised : Ipv4Addr → Listener → ServiceAddress
advertised ip l = record { address = octets ip; port = pos l.addr.port }

dialled-wifi_lan_path :
    (ip : Ipv4Addr) (l : Listener)
    → l.addr.port < 65_536
    → dialled (wifi_lan_path (advertised ip l ∷ [])) ≡ some (record { ip = ip; port = l.addr.port })
unfolding dialled wifi_lan_path from_octets port_of
dialled-wifi_lan_path ip l h = ground arith

-- Whether a path is sent.
is_empty-path_available :
    (codec : Codec) (ip : Ipv4Addr) (addr : Option SocketAddr)
    → is_empty (path_available codec ip addr) ≡ is_none addr
unfolding path_available for_bwu_wifi_lan_path_available
is_empty-path_available codec ip none = refl
is_empty-path_available codec ip (some addr) = is_empty-encode_v1 codec _ _

from_bytes-path_available :
    (codec : Codec) (ip : Ipv4Addr) (l : Listener)
    → from_bytes codec (path_available codec ip (some l.addr))
      ≡ ok (path_frame (wifi_lan_path (advertised ip l ∷ [])))
unfolding path_available
from_bytes-path_available codec ip l = from_bytes-wifi_lan_path codec (advertised ip l ∷ [])

module _ (s : Sockets) {Sink : Type 0} where
  -- The address that is advertised is that of the listener on record afterwards.
  listener_addr-record :
      (id : Str) (h : WifiLanBwuHandler s Sink)
      → (listener_addr s id h).0
        ≡ (Map.get id (listener_addr s id h).1.listeners >>= λ l. some l.addr)
  unfolding listener_addr
  listener_addr-record id h = elim (Option-cases (Map.get id h.listeners)) [
    | inr (l, e) ↦ ground (arith, e)
    | inl e ↦
        let started =
          (start_listener s h.bind_ip id channel_name Medium.wifi_lan h.sink h.system).0 in
        elim (Option-cases started) [
          | inl n ↦ ground (arith, e, n)
          | inr (l, n) ↦ ground (arith, e, n, get-insert id id l h.listeners, str_beq_iff id id)
        ]
  ]

  -- What is there is used again.
  listener_addr-standing :
      (id : Str) (h : WifiLanBwuHandler s Sink) (l : Listener)
      → Map.get id h.listeners ≡ some l
      → listener_addr s id h ≡ (some l.addr, h)
  unfolding listener_addr
  listener_addr-standing id h l e = rw (e, listener_addr) refl

  listener_addr-advertise_ip :
      (id : Str) (h : WifiLanBwuHandler s Sink)
      → (listener_addr s id h).1.advertise_ip ≡ h.advertise_ip
  unfolding listener_addr
  listener_addr-advertise_ip id h = ground arith

  module _ {Session : Type 0} (codec : Codec) (session : Cipher Session) where
    initialize-record :
        (client : ClientProxy) (id endpoint_id : Str) (h : WifiLanBwuHandler s Sink)
        → let (frame, h') =
            handle_initialize_upgraded_medium_for_endpoint s codec session client id endpoint_id
              h in
          frame ≡ path_available codec h.advertise_ip (Map.get id h'.listeners >>= λ l. some l.addr)
    unfolding handle_initialize_upgraded_medium_for_endpoint
    initialize-record client id endpoint_id h =
        ap (path_available codec h.advertise_ip) (listener_addr-record id h)

    initialize-standing :
        (client : ClientProxy) (id endpoint_id : Str) (h : WifiLanBwuHandler s Sink) (l : Listener)
        → Map.get id h.listeners ≡ some l
        → handle_initialize_upgraded_medium_for_endpoint s codec session client id endpoint_id h
          ≡ (path_available codec h.advertise_ip (some l.addr), h)
    unfolding handle_initialize_upgraded_medium_for_endpoint
    initialize-standing client id endpoint_id h l e =
        ap (λ (addr, h'). (path_available codec h.advertise_ip addr, h'))
          (listener_addr-standing id h l e)

    initialize-advertise_ip :
        (client : ClientProxy) (id endpoint_id : Str) (h : WifiLanBwuHandler s Sink)
        → (handle_initialize_upgraded_medium_for_endpoint s codec session client id endpoint_id
            h).1.advertise_ip
          ≡ h.advertise_ip
    unfolding handle_initialize_upgraded_medium_for_endpoint
    initialize-advertise_ip client id endpoint_id h = listener_addr-advertise_ip id h

    create-dialled :
        (client : ClientProxy) (id endpoint_id : Str) (info : UpgradePathInfo) (addr : SocketAddr)
        (g : WifiLanBwuHandler s Sink)
        → dialled info ≡ some addr
        → (create_upgraded_endpoint_channel s codec session client id endpoint_id info g).0 ≡ (
            (s.connect addr g.system.os).0 >>= λ t.
            tcp_channel s codec session t id channel_name Medium.wifi_lan)
    unfolding create_upgraded_endpoint_channel
    create-dialled client id endpoint_id info addr g e =
        rw (e, create_upgraded_endpoint_channel) refl

    -- An initiator that has a listener for the service after initialising it sends a path that any
    -- receiver accepts, and from it a responder dials exactly the advertised address at the
    -- listener's port, which is a port of 16 bits: its channel is one over what that connection
    -- gives.
    pub connect-initialize :
        (client client' : ClientProxy) (id endpoint_id id' endpoint_id' : Str)
        (h g : WifiLanBwuHandler s Sink) (l : Listener)
        → Map.get id
            (handle_initialize_upgraded_medium_for_endpoint s codec session client id endpoint_id
              h).1.listeners
          ≡ some l
        → l.addr.port < 65_536
        → (info : UpgradePathInfo) × (from_bytes codec
              (handle_initialize_upgraded_medium_for_endpoint s codec session client id endpoint_id
                h).0
            ≡ ok (path_frame info))
          × ((create_upgraded_endpoint_channel s codec session client' id' endpoint_id' info g).0
              ≡ ((s.connect (record { ip = h.advertise_ip; port = l.addr.port }) g.system.os).0
                  >>= λ t. tcp_channel s codec session t id' channel_name Medium.wifi_lan))
    connect-initialize client client' id endpoint_id id' endpoint_id' h g l e small = (
      wifi_lan_path (advertised h.advertise_ip l ∷ []),
      rw (initialize-record client id endpoint_id h, e)
          (from_bytes-path_available codec h.advertise_ip l),
      create-dialled client' id' endpoint_id' _ _ g (dialled-wifi_lan_path h.advertise_ip l small),
    )

    -- Initialising a service that then has a listener gives a frame that is not empty, and
    -- initialising the service again, for any endpoint, gives the same frame and changes nothing.
    pub initialize_again :
        (client client' : ClientProxy) (id endpoint_id endpoint_id' : Str)
        (h : WifiLanBwuHandler s Sink) (l : Listener)
        → Map.get id
            (handle_initialize_upgraded_medium_for_endpoint s codec session client id endpoint_id
              h).1.listeners
          ≡ some l
        → let (frame, h') =
            handle_initialize_upgraded_medium_for_endpoint s codec session client id endpoint_id
              h in
          (is_empty frame ≡ false)
          × (handle_initialize_upgraded_medium_for_endpoint s codec session client' id endpoint_id'
                h'
              ≡ (frame, h'))
    initialize_again client client' id endpoint_id endpoint_id' h l e =
        let (frame, h') =
          handle_initialize_upgraded_medium_for_endpoint s codec session client id endpoint_id h in
        let sent : frame ≡ path_available codec h.advertise_ip (some l.addr) =
          rw (initialize-record client id endpoint_id h, e) refl in
        (
          ap is_empty sent ∙ is_empty-path_available codec h.advertise_ip (some l.addr),
          initialize-standing client' id endpoint_id' h' l e
              ∙ ap (λ frame. (frame, h'))
                  (ap (λ ip. path_available codec ip (some l.addr))
                      (initialize-advertise_ip client id endpoint_id h)
                    ∙ sym sent),
        )
