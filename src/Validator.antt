-- ===== src/Validator.antt =====
-- validator.rs: the validation of a parsed frame.
pub mod Text
pub mod Ipv4
mod Examples
pub mod Payload
pub mod Upgrade
use nearby_rs.Prelude.{Option, none, some, ◌>>=◌}
use nearby_rs.Proto.FrameEnums.{FrameType}
use nearby_rs.Proto.Frame.{OfflineFrame, V1Frame}
use nearby_rs.Frames.Defs.{Exception, get_frame_type}
use Payload.{
  ensure_valid_connection_request_frame, ensure_valid_connection_response_frame,
  ensure_valid_payload_transfer_frame,
}
use Upgrade.{required, ensure_valid_bwu_negotiation_frame}

-- The match of `ensure_valid_offline_frame` on the frame type.
unfoldable pub check_frame : FrameType → Option V1Frame → Exception
unfolding ensure_valid_connection_request_frame ensure_valid_connection_response_frame
    ensure_valid_payload_transfer_frame ensure_valid_bwu_negotiation_frame
check_frame FrameType.connection_request v1 =
    required (v1 >>= λ v. v.connection_request) ensure_valid_connection_request_frame
check_frame FrameType.connection_response v1 =
    required (v1 >>= λ v. v.connection_response) ensure_valid_connection_response_frame
check_frame FrameType.payload_transfer v1 =
    required (v1 >>= λ v. v.payload_transfer) ensure_valid_payload_transfer_frame
check_frame FrameType.bandwidth_upgrade_negotiation v1 =
    required (v1 >>= λ v. v.bandwidth_upgrade_negotiation) ensure_valid_bwu_negotiation_frame
check_frame _ v1 = Exception.success

unfoldable pub ensure_valid_offline_frame : OfflineFrame → Exception
unfolding get_frame_type check_frame
ensure_valid_offline_frame offline_frame =
    check_frame (get_frame_type offline_frame) offline_frame.v1
