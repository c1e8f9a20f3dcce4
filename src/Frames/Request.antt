-- ===== src/Frames/Request.antt =====
-- frames.rs: the builders of connection requests and responses.
use nearby_rs.Prelude.{
  Bool, Option, none, some, [], map, Bytes, ◌==◌, int_eq, if◌then◌else◌, is_empty, is_some,
  unwrap_or,
}
use nearby_rs.Prelude.Int.{ℤ, pos, int_ltb}
use nearby_rs.Prelude.Utf8.{from_utf8_lossy}
use nearby_rs.Proto.FrameEnums.{FrameType, ResponseStatus, response_status_number}
use nearby_rs.Proto.MediumEnums.{
  connection_request_medium_number, metadata_wifi_direct_auth_type_number,
}
use nearby_rs.Proto.Metadata.{MediumMetadata, empty_medium_metadata, OsInfo}
use nearby_rs.Proto.Connection.{
  ConnectionsDevice, PresenceDevice, Device, ConnectionRequestFrame, empty_connection_request_frame,
  ConnectionResponseFrame, empty_connection_response_frame,
}
use nearby_rs.Proto.Codec.{Codec}
use nearby_rs.Frames.Defs.{ConnectionInfo, status_success}
use nearby_rs.Frames.Mediums.{
  medium_to_connection_request_medium, wfd_auth_type_to_medium_metadata_wfd_auth_type,
}
use nearby_rs.Frames.Parse.{encode_v1}

-- `if x > 0 { field = Some(x) }`
abbrev when_positive : ℤ → Option ℤ
when_positive n = if int_ltb (pos 0) n then some n else none

abbrev when_nonempty : Bytes → Option Bytes
when_nonempty s = if is_empty s then none else some s

abbrev common_metadata : ConnectionInfo → MediumMetadata
common_metadata info = record empty_medium_metadata {
  supports_5_ghz = some info.supports_5ghz;
  bssid = when_nonempty info.bssid;
  ap_frequency = some info.ap_frequency;
}

unfoldable pub build_connection_request_common : ConnectionInfo → ConnectionRequestFrame
unfolding medium_to_connection_request_medium from_utf8_lossy
build_connection_request_common info = record empty_connection_request_frame {
  endpoint_name =
      if is_empty info.local_endpoint_info
      then none
      else some (from_utf8_lossy info.local_endpoint_info);
  endpoint_info = when_nonempty info.local_endpoint_info;
  nonce = some info.nonce;
  medium_metadata = some (common_metadata info);
  mediums =
      map (λ m. pos (connection_request_medium_number (medium_to_connection_request_medium m)))
        info.supported_mediums;
  keep_alive_interval_millis = when_positive info.keep_alive_interval_millis;
  keep_alive_timeout_millis = when_positive info.keep_alive_timeout_millis;
}

abbrev connections_device_field : Option ConnectionsDevice → Option Device
connections_device_field none = none
connections_device_field (some dev) =
    if is_some dev.endpoint_id then some (Device.connections_device dev) else none

-- The request that `for_connection_request_connections` encodes. Its `unwrap` of the metadata
-- meets the value that `build_connection_request_common` always sets.
unfoldable pub connections_request :
    Option ConnectionsDevice → ConnectionInfo → Bool → ConnectionRequestFrame
unfolding build_connection_request_common wfd_auth_type_to_medium_metadata_wfd_auth_type
connections_request device info enable_dynamic_role_switch =
    let common = build_connection_request_common info in
    let mm = unwrap_or common.medium_metadata empty_medium_metadata in
    record empty_connection_request_frame {
      device = connections_device_field device;
      endpoint_id = when_nonempty info.local_endpoint_id;
      endpoint_name = common.endpoint_name;
      endpoint_info = common.endpoint_info;
      nonce = common.nonce;
      medium_metadata = some (record mm {
        medium_role = if enable_dynamic_role_switch then info.medium_role else none;
        supported_wifi_direct_auth_types =
            map
              (λ t. pos (
                metadata_wifi_direct_auth_type_number
                  (wfd_auth_type_to_medium_metadata_wfd_auth_type t)))
              info.supported_wifi_direct_auth_types;
      });
      mediums = common.mediums;
      keep_alive_interval_millis = common.keep_alive_interval_millis;
      keep_alive_timeout_millis = common.keep_alive_timeout_millis;
    }

-- The request that `for_connection_request_presence` encodes.
unfoldable pub presence_request : PresenceDevice → ConnectionInfo → ConnectionRequestFrame
unfolding build_connection_request_common
presence_request device info = record (build_connection_request_common info) {
  endpoint_id =
      if is_empty info.local_endpoint_id then none else some (unwrap_or device.endpoint_id []);
  device = some (Device.presence_device device);
}

-- The response that `for_connection_response` encodes.
unfoldable pub connection_response : ℤ → OsInfo → ℤ → ConnectionResponseFrame
connection_response status os_info safe_to_disconnect_version =
    let response =
      if status == status_success then ResponseStatus.accept else ResponseStatus.reject in
    record empty_connection_response_frame {
      status = some status;
      response = some (pos (response_status_number response));
      os_info = some os_info;
      multiplex_socket_bitmask = some (pos 0);
      safe_to_disconnect_version = some safe_to_disconnect_version;
    }

module _ (codec : Codec) where
  unfoldable pub for_connection_request_connections :
      Option ConnectionsDevice → ConnectionInfo → Bool → Bytes
  unfolding connections_request
  for_connection_request_connections device info enable_dynamic_role_switch =
      encode_v1 codec FrameType.connection_request λ v1. record v1 {
        connection_request = some (connections_request device info enable_dynamic_role_switch);
      }

  unfoldable pub for_connection_request_presence : PresenceDevice → ConnectionInfo → Bytes
  unfolding presence_request
  for_connection_request_presence device info =
      encode_v1 codec FrameType.connection_request
        λ v1. record v1 { connection_request = some (presence_request device info) }

  unfoldable pub for_connection_response : ℤ → OsInfo → ℤ → Bytes
  unfolding connection_response
  for_connection_response status os_info safe_to_disconnect_version =
      encode_v1 codec FrameType.connection_response λ v1. record v1 {
        connection_response = some (connection_response status os_info safe_to_disconnect_version);
      }
