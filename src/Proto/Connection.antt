-- ===== src/Proto/Connection.antt =====
-- proto/offline_wire_formats.proto: connection requests and responses.
use nearby_rs.Prelude.{Option, none, List, [], Str, Bytes}
use nearby_rs.Prelude.Int.{ℤ}
use nearby_rs.Proto.Metadata.{LocationHint, MediumMetadata, OsInfo}

pub record ConnectionsDevice : Type 0 where
  pub endpoint_id : Option Str
  pub endpoint_type : Option ℤ
  pub connectivity_info_list : Option Bytes
  pub endpoint_info : Option Bytes

abbrev pub empty_connections_device : ConnectionsDevice
empty_connections_device = record {
  endpoint_id = none;
  endpoint_type = none;
  connectivity_info_list = none;
  endpoint_info = none;
}

pub record PresenceDevice : Type 0 where
  pub endpoint_id : Option Str
  pub endpoint_type : Option ℤ
  pub connectivity_info_list : Option Bytes
  pub device_id : Option ℤ
  pub device_name : Option Str
  pub device_type : Option ℤ
  pub device_image_url : Option Str
  pub discovery_medium : List ℤ
  pub actions : List ℤ
  pub identity_type : List ℤ

abbrev pub empty_presence_device : PresenceDevice
empty_presence_device = record {
  endpoint_id = none;
  endpoint_type = none;
  connectivity_info_list = none;
  device_id = none;
  device_name = none;
  device_type = none;
  device_image_url = none;
  discovery_medium = [];
  actions = [];
  identity_type = [];
}

pub data Device : Type 0 where
  connections_device : ConnectionsDevice → Device
  presence_device : PresenceDevice → Device

pub record ConnectionRequestFrame : Type 0 where
  pub endpoint_id : Option Str
  pub endpoint_name : Option Str
  pub handshake_data : Option Bytes
  pub nonce : Option ℤ
  pub mediums : List ℤ
  pub endpoint_info : Option Bytes
  pub medium_metadata : Option MediumMetadata
  pub keep_alive_interval_millis : Option ℤ
  pub keep_alive_timeout_millis : Option ℤ
  pub device_type : Option ℤ
  pub device_info : Option Bytes
  pub device : Option Device
  pub connection_mode : Option ℤ
  pub location_hint : Option LocationHint

abbrev pub empty_connection_request_frame : ConnectionRequestFrame
empty_connection_request_frame = record {
  endpoint_id = none;
  endpoint_name = none;
  handshake_data = none;
  nonce = none;
  mediums = [];
  endpoint_info = none;
  medium_metadata = none;
  keep_alive_interval_millis = none;
  keep_alive_timeout_millis = none;
  device_type = none;
  device_info = none;
  device = none;
  connection_mode = none;
  location_hint = none;
}

pub record ConnectionResponseFrame : Type 0 where
  pub status : Option ℤ
  pub handshake_data : Option Bytes
  pub response : Option ℤ
  pub os_info : Option OsInfo
  pub multiplex_socket_bitmask : Option ℤ
  pub nearby_connections_version : Option ℤ
  pub safe_to_disconnect_version : Option ℤ
  pub location_hint : Option LocationHint
  pub keep_alive_timeout_millis : Option ℤ

abbrev pub empty_connection_response_frame : ConnectionResponseFrame
empty_connection_response_frame = record {
  status = none;
  handshake_data = none;
  response = none;
  os_info = none;
  multiplex_socket_bitmask = none;
  nearby_connections_version = none;
  safe_to_disconnect_version = none;
  location_hint = none;
  keep_alive_timeout_millis = none;
}
