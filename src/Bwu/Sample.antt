-- ===== src/Bwu/Sample.antt =====
-- The states of the examples of the bandwidth upgrade, over the platform of the oracle tests.
use nearby_rs.Prelude.{ℕ, true, some, [], ◌∷◌, Str, ascii, str_eq, nat_eq}
use nearby_rs.Prelude.Int.{pos}
use nearby_rs.Mediums.{Medium, medium_eq}
use nearby_rs.Proto.FrameEnums.{EventType}
use nearby_rs.Proto.Upgrade.{UpgradePathInfo}
use nearby_rs.Proto.Frame.{OfflineFrame}
use nearby_rs.Proto.Sample.{sample_codec}
use nearby_rs.Frames.Upgrade.{event_frame}
use nearby_rs.Frames.Receive.{negotiation_frame}
use nearby_rs.Bwu.Client
use nearby_rs.Bwu.Client.{
  ClientProxy, EndpointState, default_endpoint_state, get_upgrade_mediums, is_connected_to_endpoint,
  on_bandwidth_changed, is_incoming_connection,
}
use nearby_rs.Bwu.Platform.{Platform}
use nearby_rs.Bwu.World.{World, default_config, from_secs}
use nearby_rs.Bwu.Testing.{FakeEndpointChannel, new_fake_channel, fake_platform}
use nearby_rs.Bwu.Manager.Medium.{upgrade_path_info_for_medium}

abbrev pub p : Platform
p = fake_platform sample_codec

abbrev pub endpoint : Str
endpoint = ascii "ABCD"

abbrev pub other_endpoint : Str
other_endpoint = ascii "EFGH"

abbrev pub service : Str
service = ascii "service"

-- An endpoint that is connected, with two mediums to upgrade to.
abbrev state : EndpointState
state = record default_endpoint_state {
  initiated = true;
  connected = true;
  upgrade_mediums = Medium.wifi_lan ∷ Medium.web_rtc ∷ [];
}

abbrev pub client : ClientProxy
client = record (Client.new (pos 1) (ascii "WXYZ")) { endpoints = (endpoint, state) ∷ [] }

abbrev pub channels : ℕ → FakeEndpointChannel
channels n = new_fake_channel Medium.bluetooth service

abbrev pub fresh : World p
fresh = record {
  config = record default_config {
    bandwidth_upgrade_retry_delay = from_secs 3;
    bandwidth_upgrade_retry_max_delay = from_secs 300;
  };
  handlers = [];
  medium = Medium.unknown_medium;
  endpoint_id_to_bwu_medium = [];
  in_progress_upgrades = [];
  previous_endpoint_channels = [];
  successfully_upgraded_endpoints = [];
  retry_upgrade_alarms = [];
  retry_delays = [];
  ecm = (endpoint, 0) ∷ [];
  client = client;
  next_chan = 1;
  chan = channels;
}

-- The channels are swapped: 0 is parked, 1 is registered.
abbrev pub swapped : World p
swapped = record fresh {
  in_progress_upgrades = endpoint ∷ [];
  previous_endpoint_channels = (endpoint, 0) ∷ [];
  ecm = (endpoint, 1) ∷ [];
  next_chan = 2;
}

-- A path over Wi-Fi LAN, and the frame of its failure.
abbrev pub lan_path : UpgradePathInfo
lan_path = upgrade_path_info_for_medium Medium.wifi_lan

abbrev pub failure_frame : OfflineFrame
failure_frame =
    negotiation_frame
      (record (event_frame EventType.upgrade_failure) { upgrade_path_info = some lan_path })
