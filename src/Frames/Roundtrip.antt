-- ===== src/Frames/Roundtrip.antt =====
-- frames.rs: what a receiver gets back from the frames that the builders make.
use nearby_rs.Prelude.{
  ◌≡◌, refl, arith, Bool, ◌||◌, Option, some, List, [], ◌∷◌, map, if◌then◌else◌, is_empty, ap,
  unwrap_or,
}
use nearby_rs.Prelude.Int.{pos}
use nearby_rs.Mediums.{Medium, medium_eq, medium_beq}
use nearby_rs.Proto.FrameEnums.{FrameType}
use nearby_rs.Proto.MediumEnums.{
  connection_request_medium_number, ConnectionRequestMedium, connection_request_medium_try_from,
  connection_request_medium_from_number-number,
}
use nearby_rs.Proto.Connection.{ConnectionsDevice}
use nearby_rs.Proto.Codec.{Codec}
use nearby_rs.Prelude.{◌==◌}
use nearby_rs.Prelude.Utf8.{is_empty-from_utf8_lossy}
use nearby_rs.Validator.{ensure_valid_offline_frame}
use nearby_rs.Frames.Defs.{ConnectionInfo, Exception, ok, err}
use nearby_rs.Frames.Mediums.{
  medium_to_connection_request_medium, connection_request_medium_to_medium,
  medium_to_upgrade_path_info_medium, upgrade_path_info_medium_to_medium,
  connection_request_mediums_to_mediums,
}
use nearby_rs.Frames.Parse.{from_bytes, v1_offline_frame, from_bytes-encode_v1}
use nearby_rs.Frames.Request.{
  build_connection_request_common, connections_request, for_connection_request_connections,
}

connection_request_medium_to_medium-medium_to_connection_request_medium :
    (m : Medium) → connection_request_medium_to_medium (medium_to_connection_request_medium m) ≡ m
unfolding connection_request_medium_to_medium medium_to_connection_request_medium
connection_request_medium_to_medium-medium_to_connection_request_medium Medium.mdns = refl
connection_request_medium_to_medium-medium_to_connection_request_medium _ = refl

mediums_of_numbers :
    (l : List Medium)
    → map
        (λ n.
          connection_request_medium_to_medium (
            unwrap_or
              (connection_request_medium_try_from n)
              ConnectionRequestMedium.unknown_medium))
        (map
          (λ m. pos (connection_request_medium_number (medium_to_connection_request_medium m)))
          l)
      ≡ l
mediums_of_numbers [] = refl
mediums_of_numbers (m ∷ l) =
    rw
      (
        connection_request_medium_from_number-number,
        connection_request_medium_to_medium-medium_to_connection_request_medium,
      )
      (ap (λ t. m ∷ t) (mediums_of_numbers l))

-- The mediums that a connection request lists are read back as the mediums of the
-- `ConnectionInfo`, in order.
mediums-connections_request :
    (device : Option ConnectionsDevice) (info : ConnectionInfo) (flag : Bool)
    → connection_request_mediums_to_mediums (connections_request device info flag)
      ≡ info.supported_mediums
unfolding connection_request_mediums_to_mediums connections_request build_connection_request_common
mediums-connections_request device info flag = mediums_of_numbers info.supported_mediums

-- A connection request is received as it was built if the local endpoint has an id and an info,
-- and is refused as an invalid protocol buffer otherwise.
pub from_bytes-for_connection_request_connections :
    (codec : Codec) (device : Option ConnectionsDevice) (info : ConnectionInfo) (flag : Bool)
    → from_bytes codec (for_connection_request_connections codec device info flag) ≡ (
        if is_empty info.local_endpoint_id || is_empty info.local_endpoint_info
        then err Exception.invalid_protocol_buffer
        else ok (
            v1_offline_frame FrameType.connection_request
              λ v1. record v1 { connection_request = some (connections_request device info flag) }))
unfolding for_connection_request_connections ensure_valid_offline_frame
from_bytes-for_connection_request_connections codec device info flag =
    rw from_bytes-encode_v1 (ground (arith, is_empty-from_utf8_lossy info.local_endpoint_info))

-- Each medium survives the trip through `UpgradePathInfo::Medium`, but for BLE_L2CAP, which that
-- enum lacks and which comes back unknown.
upgrade_path_info_medium_to_medium-medium_to_upgrade_path_info_medium :
    (m : Medium)
    → upgrade_path_info_medium_to_medium (medium_to_upgrade_path_info_medium m)
      ≡ (if m == Medium.ble_l2cap then Medium.unknown_medium else m)
unfolding medium_beq upgrade_path_info_medium_to_medium medium_to_upgrade_path_info_medium
upgrade_path_info_medium_to_medium-medium_to_upgrade_path_info_medium Medium.mdns = refl
upgrade_path_info_medium_to_medium-medium_to_upgrade_path_info_medium _ = refl
