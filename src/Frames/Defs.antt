-- ===== src/Frames/Defs.antt =====
-- frames.rs: results, constants, the platform's address, and the type of a frame.
use nearby_rs.Prelude.{
  Bool, true, false, Option, none, some, List, Bytes, Str, ◌==◌, int_eq, if◌then◌else◌, unwrap_or,
}
use nearby_rs.Prelude.Int.{ℤ, pos, negsuc}
use nearby_rs.Mediums.{Medium, WifiDirectAuthType}
use nearby_rs.Proto.FrameEnums.{FrameType, version_number, frame_type_try_from, Version}
use nearby_rs.Proto.Metadata.{MediumRole}
use nearby_rs.Proto.Frame.{OfflineFrame, V1Frame}

-- STATUS_SUCCESS
abbrev pub status_success : ℤ
status_success = pos 0

-- INDETERMINATE_SIZE, -1
abbrev pub indeterminate_size : ℤ
indeterminate_size = negsuc 0

pub data Exception : Type 0 where
  success failed io interrupted invalid_protocol_buffer execution timeout illegal_characters
        no_data :
      Exception

-- `Exception::ok`
abbrev pub is_ok : Exception → Bool
is_ok success = true
is_ok _ = false

-- `Result<_, Exception>`
pub data Result {ℓ} (A : Type ℓ) : Type ℓ where
  ok : A → Result A
  err : Exception → Result A

pub record ServiceAddress : Type 0 where
  pub address : Bytes
  pub port : ℤ

pub record ConnectionInfo : Type 0 where
  pub local_endpoint_id : Str
  pub local_endpoint_info : Bytes
  pub nonce : ℤ
  pub supports_5ghz : Bool
  pub bssid : Str
  pub ap_frequency : ℤ
  pub supported_mediums : List Medium
  pub keep_alive_interval_millis : ℤ
  pub keep_alive_timeout_millis : ℤ
  pub medium_role : Option MediumRole
  pub supported_wifi_direct_auth_types : List WifiDirectAuthType

abbrev v1_frame_type : Option V1Frame → FrameType
v1_frame_type none = FrameType.unknown_frame_type
v1_frame_type (some v1) =
    unwrap_or (frame_type_try_from (unwrap_or v1.type (pos 0))) FrameType.unknown_frame_type

abbrev is_v1 : Option ℤ → Bool
is_v1 none = false
is_v1 (some v) = v == pos (version_number Version.v1)

unfoldable pub get_frame_type : OfflineFrame → FrameType
get_frame_type frame =
    if is_v1 frame.version then v1_frame_type frame.v1 else FrameType.unknown_frame_type
