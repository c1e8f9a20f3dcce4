-- ===== src/Bwu/WifiLan/Examples.antt =====
-- The Wi-Fi LAN handler over the sample sockets.
use nearby_rs.Prelude.{
  nat_eq, some, true, ℕ, ◌≡◌, refl, arith, false, some, Str, ascii, str_eq, nat_eq, is_empty, ◌>>=◌,
}
use nearby_rs.Prelude.Int.{pos}
use nearby_rs.Prelude.Map
use nearby_rs.Prelude.Set
use nearby_rs.Mediums.{Medium}
use nearby_rs.Proto.Upgrade.{UpgradePathInfo}
use nearby_rs.Proto.Sample.{sample_codec}
use nearby_rs.Frames.Defs.{ok}
use nearby_rs.Frames.Parse.{from_bytes}
use nearby_rs.Frames.Receive.{path_frame}
use nearby_rs.Bwu.Client
use nearby_rs.Bwu.Client.{ClientProxy}
use nearby_rs.Bwu.StreamChannel.{Cipher}
use nearby_rs.Bwu.Handler.Calls.{meanwhile, here, initialize}
use nearby_rs.Bwu.Tcp.{Listener, tcp_channel, start_listener}
use nearby_rs.Bwu.Tcp.Address.{Ipv4Addr, localhost}
use nearby_rs.Bwu.Tcp.Sample.{first_port, sample_sockets, sample_system}
use nearby_rs.Bwu.Tcp.{AcceptLoop, end_loop}
use nearby_rs.Bwu.Tcp.Listeners.{loop_ends}
use nearby_rs.Bwu.WifiLan.{
  WifiLanBwuHandler, channel_name, with_endpoint, drop,
  handle_initialize_upgraded_medium_for_endpoint, create_upgraded_endpoint_channel,
}
use nearby_rs.Bwu.WifiLan.Lifecycle.{IsServing, running-drop}
use nearby_rs.Bwu.WifiLan.Path.{connect-initialize, initialize_again}

abbrev plain : Cipher ℕ
plain = record { encode = λ b n. (some b, n); decode = λ b n. (some b, n) }

abbrev client : ClientProxy
client = Client.new (pos 1) (ascii "WXYZ")

abbrev service : Str
service = ascii "service"

abbrev endpoint : Str
endpoint = ascii "ABCD"

abbrev advertise_ip : Ipv4Addr
advertise_ip = record { a = 192; b = 168; c = 1; d = 7 }

abbrev lan : WifiLanBwuHandler sample_sockets ℕ
lan = with_endpoint sample_sockets 3 localhost advertise_ip sample_system

abbrev serving_lan : WifiLanBwuHandler sample_sockets ℕ
serving_lan =
    (handle_initialize_upgraded_medium_for_endpoint sample_sockets sample_codec plain client service
      endpoint lan).1

abbrev listener : Listener
listener = record { addr = record { ip = localhost; port = first_port }; stop = 0; join = some 0 }

-- Its accept loop has met an error.
abbrev deaf_lan : WifiLanBwuHandler sample_sockets ℕ
deaf_lan = record serving_lan { system = end_loop sample_sockets 0 serving_lan.system }

running-drop_example :
    IsServing sample_sockets deaf_lan
    × ((j : ℕ) (loop : AcceptLoop sample_sockets ℕ)
        → Map.get j (drop sample_sockets deaf_lan).system.running ≡ some loop
        → Map.get j (drop sample_sockets deaf_lan).system.flags ≡ some true)
unfolding Map.get
running-drop_example =
    running-drop sample_sockets sample_codec plain 3 localhost advertise_ip sample_system deaf_lan
      (λ j. refl)
      (meanwhile (end_loop sample_sockets 0 serving_lan.system, loop_ends 0, refl)
        (initialize client service endpoint here))

initialize_again_example :
    let (frame, h') =
      handle_initialize_upgraded_medium_for_endpoint sample_sockets sample_codec plain client
        service endpoint lan in
    (is_empty frame ≡ false)
    × (handle_initialize_upgraded_medium_for_endpoint sample_sockets sample_codec plain client
          service
          (ascii "EFGH")
          h'
        ≡ (frame, h'))
unfolding with_endpoint Map.get handle_initialize_upgraded_medium_for_endpoint start_listener
    Map.insert
initialize_again_example =
    initialize_again sample_sockets sample_codec plain client client service endpoint (ascii "EFGH")
      lan listener refl

connect-initialize_example :
    (info : UpgradePathInfo) × (from_bytes sample_codec
        (handle_initialize_upgraded_medium_for_endpoint sample_sockets sample_codec plain client
          service endpoint lan).0
      ≡ ok (path_frame info))
    × ((create_upgraded_endpoint_channel sample_sockets sample_codec plain client service endpoint
          info serving_lan).0
        ≡ ((sample_sockets.connect
              (record { ip = advertise_ip; port = first_port })
              serving_lan.system.os).0
            >>= λ t.
                tcp_channel sample_sockets sample_codec plain t service channel_name
                  Medium.wifi_lan))
unfolding with_endpoint Map.get handle_initialize_upgraded_medium_for_endpoint start_listener
    Map.insert
connect-initialize_example =
    connect-initialize sample_sockets sample_codec plain client client service endpoint service
      endpoint lan serving_lan listener refl (omega arith)
