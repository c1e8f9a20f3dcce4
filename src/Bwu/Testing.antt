-- ===== src/Bwu/Testing.antt =====
-- bwu/testing.rs: the channel and the handler that the oracle tests use. They are the platform of
-- the examples.
use nearby_rs.Prelude.{
  ℕ, get_elem?, ◌>>=◌, Bool, true, false, Option, none, some, List, [], ◌∷◌, ◌++◌, Bytes, Str,
  ascii,
}
use nearby_rs.Prelude.Int.{ℤ, pos}
use nearby_rs.Mediums.{Medium}
use nearby_rs.Proto.Metadata.{empty_location_hint}
use nearby_rs.Proto.Upgrade.{WifiHotspotCredentials}
use nearby_rs.Proto.Codec.{Codec}
use nearby_rs.Frames.Defs.{Exception, Result, ok, err}
use nearby_rs.Frames.Upgrade.{
  for_bwu_introduction, for_bwu_bluetooth_path_available, for_bwu_wifi_lan_path_available,
  for_bwu_webrtc_path_available, for_bwu_wifi_hotspot_path_available,
  for_bwu_wifi_direct_path_available,
}
use nearby_rs.Bwu.Platform.{
  DisconnectionReason, EndpointChannel, Platform, unknown_disconnection_reason,
}
use nearby_rs.Bwu.World.{World, alloc_chan}
use nearby_rs.Bwu.Manager.Respond.{on_incoming_connection}
use nearby_rs.Bwu.Handler.{MediumBwuHandler, BaseBwuHandler, base_handler}

pub record FakeEndpointChannel : Type 0 where
  pub medium : Medium
  pub service_id : Str
  pub read_output : Result Bytes
  pub write_output : Exception
  pub is_closed : Bool
  pub disconnection_reason : DisconnectionReason
  pub is_paused : Bool
  pub local_endpoint_id : Str
  pub wrote_anything : Bool

abbrev pub new_fake_channel : Medium → Str → FakeEndpointChannel
new_fake_channel medium service_id = record {
  medium = medium;
  service_id = service_id;
  read_output = err Exception.failed;
  write_output = Exception.success;
  is_closed = false;
  disconnection_reason = unknown_disconnection_reason;
  is_paused = false;
  local_endpoint_id = [];
  wrote_anything = false;
}

abbrev pub set_read_output : Result Bytes → FakeEndpointChannel → FakeEndpointChannel
set_read_output output c = record c { read_output = output }

abbrev set_write_output : Exception → FakeEndpointChannel → FakeEndpointChannel
set_write_output output c = record c { write_output = output }

-- `impl EndpointChannel for FakeEndpointChannel`
abbrev pub fake_channel : EndpointChannel FakeEndpointChannel
fake_channel = record {
  read = λ c. (c.read_output, c);
  write = λ _ c. (c.write_output, record c { wrote_anything = true });
  close = λ c. record c { is_closed = true };
  close_with_reason = λ reason c. record c { is_closed = true; disconnection_reason = reason };
  medium = λ c. c.medium;
  service_id = λ c. c.service_id;
  local_endpoint_id = λ c. c.local_endpoint_id;
  set_local_endpoint_id = λ id c. record c { local_endpoint_id = id };
  pause = λ c. record c { is_paused = true };
  resume = λ c. record c { is_paused = false };
  is_paused = λ c. c.is_paused;
  disable_encryption = λ c. c;
}

pub record InputData : Type 0 where
  pub client_id : ℤ
  pub service_id : Option Str
  pub endpoint_id : Option Str

pub record FakeBwuHandler : Type 0 where
  pub medium : Medium
  pub create_calls : List InputData
  pub disconnect_calls : List InputData
  pub handle_initialize_calls : List InputData
  pub handle_revert_calls : List InputData

abbrev pub new_fake_handler : Medium → FakeBwuHandler
new_fake_handler medium = record {
  medium = medium;
  create_calls = [];
  disconnect_calls = [];
  handle_initialize_calls = [];
  handle_revert_calls = [];
}

abbrev fake_credentials : WifiHotspotCredentials
fake_credentials = record {
  ssid = some (ascii "Direct-357a2d8c");
  password = some (ascii "b592f7d3");
  port = some (pos 1234);
  gateway = some (ascii "123.234.23.1");
  frequency = some (pos 2412);
  address_candidates =
      (record {
        ip_address = some (
            0xfe ∷ 0x80 ∷ 0 ∷ 0 ∷ 0 ∷ 0 ∷ 0 ∷ 0 ∷ 0x4d ∷ 0xb2 ∷ 0xb3 ∷ 0x5c ∷ 0x22 ∷ 0x03 ∷ 0x98
            ∷ 0xa1 ∷ []);
        port = some (pos 1234);
      })
      ∷ (record { ip_address = some (0x7b ∷ 0xea ∷ 0x17 ∷ 0x01 ∷ []); port = some (pos 2412) })
      ∷ [];
}

module _ (codec : Codec) where
  unfoldable pub path_available_bytes : Medium → Str → Bytes
  path_available_bytes Medium.bluetooth upgrade_service_id =
      for_bwu_bluetooth_path_available codec upgrade_service_id (ascii "01:02:03:04:05:06")
  path_available_bytes Medium.wifi_lan _ =
      for_bwu_wifi_lan_path_available codec
        ((record { address = ascii "ABCD"; port = pos 1234 }) ∷ [])
  path_available_bytes Medium.web_rtc _ =
      for_bwu_webrtc_path_available codec (ascii "peer-id") empty_location_hint
  path_available_bytes Medium.web_rtc_non_cellular _ =
      for_bwu_webrtc_path_available codec (ascii "peer-id") empty_location_hint
  path_available_bytes Medium.wifi_hotspot _ =
      for_bwu_wifi_hotspot_path_available codec fake_credentials false
  path_available_bytes Medium.wifi_direct _ =
      for_bwu_wifi_direct_path_available codec [] [] (pos 2143) (pos 2412) false
        (ascii "123.234.23.1") (ascii "NC-WifiDirectTest") (ascii "b592f7d3")
  path_available_bytes _ _ = []

  -- `impl MediumBwuHandler for FakeBwuHandler`
  abbrev pub fake_handler : MediumBwuHandler FakeEndpointChannel FakeBwuHandler
  fake_handler = record {
    handle_initialize_upgraded_medium_for_endpoint = λ client service_id endpoint_id h. (
      path_available_bytes h.medium service_id,
      record h {
        handle_initialize_calls =
            h.handle_initialize_calls
            ++ (record {
              client_id = client.client_id;
              service_id = some service_id;
              endpoint_id = some endpoint_id;
            })
              ∷ [];
      },
    );
    handle_revert_initiator_state_for_service = λ service_id h. record h {
      handle_revert_calls =
          h.handle_revert_calls
          ++ (record { client_id = pos 0; service_id = some service_id; endpoint_id = none }) ∷ [];
    };
    create_upgraded_endpoint_channel = λ client service_id endpoint_id _ h. (
      some (new_fake_channel h.medium service_id),
      record h {
        create_calls =
            h.create_calls
            ++ (record {
              client_id = client.client_id;
              service_id = some service_id;
              endpoint_id = some endpoint_id;
            })
              ∷ [];
      },
    );
    on_endpoint_disconnect = λ client endpoint_id h. record h {
      disconnect_calls =
          h.disconnect_calls
          ++ (record {
            client_id = client.client_id;
            service_id = none;
            endpoint_id = some endpoint_id;
          })
            ∷ [];
    };
  }

  abbrev pub fake_platform : Platform
  fake_platform = record {
    codec = codec;
    Chan = FakeEndpointChannel;
    Handler = BaseBwuHandler FakeBwuHandler;
    channel = fake_channel;
    handler = base_handler fake_handler;
  }

  -- The source panics where the index is out of bounds or an id is missing: `none`.
  unfoldable pub notify_bwu_manager_of_incoming_connection :
      List InputData → Medium → ℕ → World fake_platform → Option (ℕ × World fake_platform)
  notify_bwu_manager_of_incoming_connection handle_initialize_calls medium index w = do
    init ← get_elem? handle_initialize_calls index
    service_id ← init.service_id
    endpoint_id ← init.endpoint_id
    let introduction = for_bwu_introduction codec endpoint_id [] false in
        let channel = set_read_output (ok introduction) (new_fake_channel medium service_id) in
        let (r, w1) = alloc_chan fake_platform channel w in
        some (r, on_incoming_connection fake_platform r w1)
