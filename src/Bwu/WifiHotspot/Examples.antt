-- ===== src/Bwu/WifiHotspot/Examples.antt =====
-- The Wi-Fi hotspot handler over the sample sockets.
use nearby_rs.Prelude.{
  some, true, ℕ, ◌≡◌, refl, arith, true, false, none, some, List, [], Str, ascii, str_eq, nat_eq,
  if◌then◌else◌, ◌>>=◌,
}
use nearby_rs.Prelude.Int.{pos}
use nearby_rs.Prelude.Map
use nearby_rs.Prelude.Set
use nearby_rs.Mediums.{Medium}
use nearby_rs.Proto.Upgrade.{UpgradePathInfo}
use nearby_rs.Proto.Sample.{sample_codec}
use nearby_rs.Frames.Defs.{ok}
use nearby_rs.Frames.Parse.{from_bytes}
use nearby_rs.Frames.Receive.{path_frame}
use nearby_rs.Validator.Text.{within_range}
use nearby_rs.Bwu.Client
use nearby_rs.Bwu.Client.{ClientProxy}
use nearby_rs.Bwu.StreamChannel.{Cipher}
use nearby_rs.Bwu.Handler.Calls.{here, initialize}
use nearby_rs.Bwu.Tcp.{tcp_channel, start_listener}
use nearby_rs.Bwu.Tcp.Address.{localhost}
use nearby_rs.Bwu.Tcp.Sample.{first_port, sample_sockets, sample_system}
use nearby_rs.Bwu.Tcp.{AcceptLoop}
use nearby_rs.Bwu.WifiHotspot.{
  SoftAp, HotspotCreds, HotspotListener, WifiHotspotBwuHandler, FakeSoftAp, fake_softap,
  new_fake_softap, channel_name, new, drop, handle_initialize_upgraded_medium_for_endpoint,
  create_upgraded_endpoint_channel,
}
use nearby_rs.Bwu.WifiHotspot.Lifecycle.{recorded, is_started, recorded-Tracks, IsServing, up-drop}
use nearby_rs.Bwu.WifiHotspot.Path.{outside, connect_as_sta-initialize}

abbrev plain : Cipher ℕ
plain = record { encode = λ b n. (some b, n); decode = λ b n. (some b, n) }

abbrev client : ClientProxy
client = Client.new (pos 1) (ascii "WXYZ")

abbrev service : Str
service = ascii "service"

abbrev endpoint : Str
endpoint = ascii "ABCD"

abbrev creds : HotspotCreds
creds = record {
  ssid = ascii "DIRECT-beamish-test";
  password = ascii "testpassword";
  frequency = pos 2437;
  gateway = localhost;
  bind_ip = localhost;
}

abbrev towers : SoftAp (FakeSoftAp × List Str)
towers = recorded fake_softap

abbrev tower : WifiHotspotBwuHandler sample_sockets ℕ (FakeSoftAp × List Str)
tower = new sample_sockets towers (new_fake_softap, []) 3 sample_system

abbrev serving_tower : WifiHotspotBwuHandler sample_sockets ℕ (FakeSoftAp × List Str)
serving_tower =
    (handle_initialize_upgraded_medium_for_endpoint sample_sockets towers sample_codec plain client
      service endpoint tower).1

up-drop_example :
    IsServing sample_sockets towers is_started (recorded-Tracks fake_softap) serving_tower
    × ((j : ℕ) (loop : AcceptLoop sample_sockets ℕ)
        → Map.get j (drop sample_sockets towers serving_tower).system.running ≡ some loop
        → Map.get j (drop sample_sockets towers serving_tower).system.flags ≡ some true)
    × ((id : Str) → is_started id (drop sample_sockets towers serving_tower).softap ≡ false)
unfolding Map.get Set.contains
up-drop_example =
    up-drop sample_sockets fake_softap sample_codec plain new_fake_softap 3 sample_system
      serving_tower (λ j. refl) (initialize client service endpoint here)

abbrev hotspot : WifiHotspotBwuHandler sample_sockets ℕ FakeSoftAp
hotspot = new sample_sockets fake_softap new_fake_softap 3 sample_system

abbrev standing_hotspot : HotspotListener
standing_hotspot = record {
  listener = record {
    addr = record { ip = localhost; port = first_port };
    stop = 0;
    join = some 0;
  };
  creds = creds;
}

connect_as_sta-initialize_example :
    (info : UpgradePathInfo) × (from_bytes sample_codec
        (handle_initialize_upgraded_medium_for_endpoint sample_sockets fake_softap sample_codec
          plain client service endpoint hotspot).0
      ≡ ok (path_frame info))
    × ((create_upgraded_endpoint_channel sample_sockets fake_softap sample_codec plain client
          service endpoint info hotspot).0
        ≡ (if (fake_softap.connect_as_sta (outside creds) hotspot.softap).0
            then ((sample_sockets.connect
                  (record { ip = localhost; port = first_port })
                  hotspot.system.os).0
                >>= λ t.
                    tcp_channel sample_sockets sample_codec plain t service channel_name
                      Medium.wifi_hotspot)
            else none))
unfolding new Map.get handle_initialize_upgraded_medium_for_endpoint start_listener Map.insert
    within_range
connect_as_sta-initialize_example =
    connect_as_sta-initialize sample_sockets fake_softap sample_codec plain client client service
      endpoint service endpoint hotspot hotspot standing_hotspot refl
      (record {
        gateway = (omega arith, omega arith, omega arith, omega arith);
        port = omega arith;
        password = refl;
      })
