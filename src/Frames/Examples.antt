-- ===== src/Frames/Examples.antt =====
-- Frames at concrete inputs, over a codec that meets what is asked of it.
use nearby_rs.Prelude.{◌≡◌, true, false, none, some, [], ◌∷◌, ascii}
use nearby_rs.Prelude.Int.{pos}
use nearby_rs.Mediums.{Medium}
use nearby_rs.Proto.FrameEnums.{FrameType, EventType}
use nearby_rs.Proto.Metadata.{empty_location_hint}
use nearby_rs.Proto.Sample.{sample_codec}
use nearby_rs.Frames.Defs.{ConnectionInfo, ServiceAddress, ok}
use nearby_rs.Frames.Parse.{from_bytes, v1_offline_frame}
use nearby_rs.Frames.Request.{connections_request, for_connection_request_connections}
use nearby_rs.Frames.Upgrade.{
  event_frame, introduction, wifi_aware_path, bluetooth_path, webrtc_path,
  for_bwu_wifi_aware_path_available, for_bwu_bluetooth_path_available,
  for_bwu_webrtc_path_available, for_bwu_last_write, for_bwu_safe_to_close, for_bwu_introduction,
  for_bwu_introduction_ack,
}
use nearby_rs.Frames.Roundtrip.{from_bytes-for_connection_request_connections}
use nearby_rs.Frames.Receive.{
  negotiation_frame, path_frame, from_bytes-handshake, from_bytes-open_paths,
}

abbrev info : ConnectionInfo
info = record {
  local_endpoint_id = ascii "ABCD";
  local_endpoint_info = ascii "phone";
  nonce = pos 1234;
  supports_5ghz = true;
  bssid = ascii "FF:FF:FF:FF:FF:FF";
  ap_frequency = pos 2412;
  supported_mediums = Medium.mdns ∷ Medium.bluetooth ∷ Medium.wifi_hotspot ∷ Medium.ble ∷ [];
  keep_alive_interval_millis = pos 1000;
  keep_alive_timeout_millis = pos 5000;
  medium_role = none;
  supported_wifi_direct_auth_types = [];
}

abbrev address : ServiceAddress
address = record { address = ascii "ABCD"; port = pos 1234 }

from_bytes-for_connection_request_connections_example :
    from_bytes sample_codec (for_connection_request_connections sample_codec none info true)
    ≡ ok (
        v1_offline_frame FrameType.connection_request
          λ v1. record v1 { connection_request = some (connections_request none info true) })
from_bytes-for_connection_request_connections_example =
    from_bytes-for_connection_request_connections sample_codec none info true

from_bytes-handshake_example :
    (from_bytes sample_codec (for_bwu_last_write sample_codec)
      ≡ ok (negotiation_frame (event_frame EventType.last_write_to_prior_channel)))
    × (from_bytes sample_codec (for_bwu_safe_to_close sample_codec)
        ≡ ok (negotiation_frame (event_frame EventType.safe_to_close_prior_channel)))
    × (from_bytes sample_codec (for_bwu_introduction_ack sample_codec)
        ≡ ok (negotiation_frame (event_frame EventType.client_introduction_ack)))
    × (from_bytes sample_codec (for_bwu_introduction sample_codec (ascii "ABCD") [] false)
        ≡ ok (
            negotiation_frame (record (event_frame EventType.client_introduction) {
              client_introduction = some (introduction (ascii "ABCD") [] false);
            })))
from_bytes-handshake_example = from_bytes-handshake sample_codec (ascii "ABCD") [] false

from_bytes-open_paths_example :
    (from_bytes sample_codec
        (for_bwu_bluetooth_path_available sample_codec (ascii "service") (ascii "01:02"))
      ≡ ok (path_frame (bluetooth_path (ascii "service") (ascii "01:02"))))
    × (from_bytes sample_codec (
          for_bwu_wifi_aware_path_available sample_codec
            (ascii "service")
            (ascii "info")
            (ascii "secret")
            true)
        ≡ ok (path_frame (wifi_aware_path (ascii "service") (ascii "info") (ascii "secret") true)))
    × (from_bytes sample_codec
          (for_bwu_webrtc_path_available sample_codec (ascii "peer") empty_location_hint)
        ≡ ok (path_frame (webrtc_path (ascii "peer") empty_location_hint)))
from_bytes-open_paths_example =
    from_bytes-open_paths sample_codec (ascii "service") (ascii "01:02") (ascii "secret")
      (ascii "peer") (ascii "info") empty_location_hint true
