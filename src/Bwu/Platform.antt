-- ===== src/Bwu/Platform.antt =====
-- bwu/channel.rs and the traits of bwu/handler.rs: what the manager calls through `dyn`.
use nearby_rs.Prelude.{Bool, Option, Bytes, Str}
use nearby_rs.Mediums.{Medium}
use nearby_rs.Proto.Upgrade.{UpgradePathInfo}
use nearby_rs.Proto.Codec.{Codec}
use nearby_rs.Frames.Defs.{Exception, Result}
use nearby_rs.Bwu.Client.{ClientProxy}

pub data DisconnectionReason : Type 0 where
  unknown_disconnection_reason local_disconnection remote_disconnection io_error upgraded shutdown
        unfinished prev_channel_disconnection_in_reconnect authentication_failure :
      DisconnectionReason

-- The trait `EndpointChannel`, over the state of one channel. A method through a shared reference
-- returns the channel's new state. `read` and `write` are the calls that return: the source's channel
-- blocks in a write while it is paused and in a read while its stream is open and empty, and where it
-- does, the step of the manager that makes the call is not one of the model. `enable_encryption` is the
-- consumer's and is not called here.
pub record EndpointChannel (Chan : Type 0) : Type 0 where
  pub read : Chan → Result Bytes × Chan
  pub write : Bytes → Chan → Exception × Chan
  pub close : Chan → Chan
  pub close_with_reason : DisconnectionReason → Chan → Chan
  pub medium : Chan → Medium
  pub service_id : Chan → Str
  pub local_endpoint_id : Chan → Str
  pub set_local_endpoint_id : Str → Chan → Chan
  pub pause : Chan → Chan
  pub resume : Chan → Chan
  pub is_paused : Chan → Bool
  pub disable_encryption : Chan → Chan

-- The trait `BwuHandler`, over the state of one handler.
pub record BwuHandler (Chan Handler : Type 0) : Type 0 where
  pub initialize_upgraded_medium_for_endpoint : ClientProxy → Str → Str → Handler → Bytes × Handler
  pub revert_initiator_state : Handler → Handler
  pub revert_initiator_state_for_endpoint : Str → Str → Handler → Handler
  pub revert_responder_state : Str → Handler → Handler
  pub create_upgraded_endpoint_channel :
      ClientProxy → Str → Str → UpgradePathInfo → Handler → Option Chan × Handler
  pub on_endpoint_disconnect : ClientProxy → Str → Handler → Handler

-- Everything that the manager reaches through traits and libraries.
pub record Platform : Type 1 where
  pub codec : Codec
  pub Chan : Type 0
  pub Handler : Type 0
  pub channel : EndpointChannel Chan
  pub handler : BwuHandler Chan Handler
