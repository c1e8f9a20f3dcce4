-- ===== src/Bwu/Actor/Handle.antt =====
-- bwu/actor.rs: the methods of `BwuHandle`. Each puts a message into the mailbox, or waits (`none`)
-- while it is full; what a query method returns is the reply's function in Run.
use nearby_rs.Prelude.{ℕ, Bool, Option, List, Str}
use nearby_rs.Prelude.Map.{Map}
use nearby_rs.Mediums.{Medium}
use nearby_rs.Proto.Frame.{OfflineFrame}
use nearby_rs.Bwu.Platform.{Platform}
use nearby_rs.Bwu.World.{BwuConfig}
use nearby_rs.Bwu.Actor.{BwuActor, BwuCommand}
use nearby_rs.Bwu.Actor.Run.{BwuMessage, BwuQuery, Mailbox, new_mailbox, fire, build}

unfoldable pub connection_initiated : Str → Bool → Bool → Mailbox → Option Mailbox
unfolding fire
connection_initiated endpoint_id is_incoming auto_upgrade_bandwidth = fire (
    BwuMessage.command
      (BwuCommand.connection_initiated endpoint_id is_incoming auto_upgrade_bandwidth))

unfoldable pub connection_accepted : Str → Mailbox → Option Mailbox
unfolding fire
connection_accepted endpoint_id =
    fire (BwuMessage.command (BwuCommand.connection_accepted endpoint_id))

unfoldable pub local_endpoint_accepted : Str → Mailbox → Option Mailbox
unfolding fire
local_endpoint_accepted endpoint_id =
    fire (BwuMessage.command (BwuCommand.local_endpoint_accepted endpoint_id))

unfoldable pub remote_endpoint_accepted : Str → Mailbox → Option Mailbox
unfolding fire
remote_endpoint_accepted endpoint_id =
    fire (BwuMessage.command (BwuCommand.remote_endpoint_accepted endpoint_id))

unfoldable pub disconnected : Str → Mailbox → Option Mailbox
unfolding fire
disconnected endpoint_id = fire (BwuMessage.command (BwuCommand.disconnected endpoint_id))

unfoldable pub set_upgrade_mediums : Str → List Medium → Mailbox → Option Mailbox
unfolding fire
set_upgrade_mediums endpoint_id mediums =
    fire (BwuMessage.command (BwuCommand.set_upgrade_mediums endpoint_id mediums))

unfoldable pub register_channel : Str → ℕ → Mailbox → Option Mailbox
unfolding fire
register_channel endpoint_id r =
    fire (BwuMessage.command (BwuCommand.register_channel endpoint_id r))

unfoldable pub unregister_channel : Str → Mailbox → Option Mailbox
unfolding fire
unregister_channel endpoint_id =
    fire (BwuMessage.command (BwuCommand.unregister_channel endpoint_id))

unfoldable pub initiate_bwu : Str → Medium → Mailbox → Option Mailbox
unfolding fire
initiate_bwu endpoint_id medium =
    fire (BwuMessage.command (BwuCommand.initiate_bwu endpoint_id medium))

unfoldable pub reset_upgrade : Str → Mailbox → Option Mailbox
unfolding fire
reset_upgrade endpoint_id = fire (BwuMessage.command (BwuCommand.reset_upgrade endpoint_id))

unfoldable pub incoming_frame : OfflineFrame → Str → Mailbox → Option Mailbox
unfolding fire
incoming_frame frame endpoint_id =
    fire (BwuMessage.command (BwuCommand.incoming_frame frame endpoint_id))

-- The sink of `connection_sink` is the same call from a thread that may block.
unfoldable pub incoming_connection : ℕ → Mailbox → Option Mailbox
unfolding fire
incoming_connection r = fire (BwuMessage.command (BwuCommand.incoming_connection r))

unfoldable pub connection_sink : ℕ → Mailbox → Option Mailbox
unfolding incoming_connection
connection_sink r = incoming_connection r

unfoldable pub endpoint_disconnect : Str → Str → Mailbox → Option Mailbox
unfolding fire
endpoint_disconnect service_id endpoint_id =
    fire (BwuMessage.command (BwuCommand.endpoint_disconnect service_id endpoint_id))

unfoldable pub shutdown : Mailbox → Option Mailbox
unfolding fire
shutdown = fire BwuMessage.shutdown

unfoldable pub query : BwuQuery → Mailbox → Option Mailbox
unfolding fire
query q = fire (BwuMessage.query q)

unfoldable pub is_upgrade_ongoing : Str → Mailbox → Option Mailbox
unfolding query
is_upgrade_ongoing endpoint_id = query (BwuQuery.is_upgrade_ongoing endpoint_id)

unfoldable pub pending_retry_delay : Str → Mailbox → Option Mailbox
unfolding query
pending_retry_delay endpoint_id = query (BwuQuery.pending_retry_delay endpoint_id)

unfoldable pub bandwidth_changed_events : Mailbox → Option Mailbox
unfolding query
bandwidth_changed_events = query BwuQuery.bandwidth_changed_events

unfoldable pub get_upgraded_channel : Str → Mailbox → Option Mailbox
unfolding query
get_upgraded_channel endpoint_id = query (BwuQuery.get_upgraded_channel endpoint_id)

-- `BwuActor::new`: the mailbox and the actor.
unfoldable pub new :
    (p : Platform)
    → Map Medium p.Handler
    → BwuConfig
    → Str
    → ℕ
    → (ℕ → p.Chan)
    → Mailbox × BwuActor p
unfolding new_mailbox build
new p handlers config local_endpoint_id command_buffer chan =
    (new_mailbox command_buffer, build p handlers config local_endpoint_id chan)
