-- ===== src/Lib.antt =====
-- Nearby Connections: the offline frames, their validator, and the bandwidth upgrade.
--
-- The program builds, parses and validates the frames that two devices exchange (src/frames.rs,
-- src/validator.rs), and moves a connection from one medium to a better one (src/bwu/). Its core is
-- BwuManager (src/bwu/manager.rs), a state machine that one owner drives: the initiator sets up a
-- medium through that medium's handler and sends the path to it, the responder connects and
-- introduces itself, and both then swap the endpoint's channel for the new one. The new channel
-- stays paused, and the old one parked, until the frames LAST_WRITE_TO_PRIOR_CHANNEL and
-- SAFE_TO_CLOSE_PRIOR_CHANNEL have gone both ways. A failed upgrade is tried on the next medium, or
-- again after a delay. BwuActor (src/bwu/actor.rs) is the owner: it applies commands and the timers
-- of the retries one at a time. StreamChannel (src/bwu/stream_channel.rs) puts frames on a stream.
--
-- The parts, and where each is modelled:
-- - Mediums: src/mediums.rs.
-- - Proto: the messages of proto/offline_wire_formats.proto, as records of optional fields, and
--   its enums with their numbers. An enum field holds a number that may name no constructor, as in
--   the generated code. Proto/Codec is what is asked of the encoding, which is generated code and
--   not modelled: what is encoded decodes to itself, and a frame with a version is not encoded as
--   nothing. Proto/Sample is a codec that meets this; it is not protobuf.
-- - Frames: src/frames.rs. Parse has from_bytes and encode_v1, Request, Transfer and Upgrade the
--   builders, Mediums the conversions. Roundtrip and Receive have the theorems.
-- - Validator: src/validator.rs. Text has the tests on texts, which are their UTF-8 bytes; Payload
--   and Upgrade the checks; Ipv4 the theorem.
-- - Bwu/ServiceId, Client, Handler: src/bwu/service_id.rs, client.rs, handler.rs. Bwu/Platform has
--   the traits of handler.rs and channel.rs as records of functions over an abstract state.
-- - Bwu/World: the fields of BwuManager, the EndpointChannelManager (src/bwu/channel_manager.rs),
--   the client and the channels, as one state. Channels are shared in the source, so the state maps
--   references to channels, and the registry and the parked channels hold references.
-- - Bwu/Manager: src/bwu/manager.rs, one function for each of its functions. Medium has the medium
--   of an endpoint and the revert, Retry the delays, Initiate the initiator and the failure,
--   Protocol the swap of channels, Introduction and Respond the new channel, Dispatch the frames,
--   disconnects and the shutdown. The other files hold theorems: Termination, Attempts and Fuel that
--   the attempts end, Quiet, Invariant, Steps and Entries what each operation keeps, Handshake,
--   Complete, Gate, Disconnect, Backoff, Choice, Introduced, Incoming, Joining, Delivery and Offer
--   what it does.
-- - Bwu/Actor: src/bwu/actor.rs. Time is an argument. Run has the mailbox, the queries and the loop,
--   Handle the methods of the actor's handle. Schedule, Endpoints, Timers, Reachable, Totality,
--   Trace and Loop hold the theorems.
-- - Bwu/StreamChannel and its Pipe: src/bwu/stream_channel.rs. Framing and Queue hold the theorems.
-- - Bwu/Tcp: src/bwu/tcp.rs, over the operating system's sockets as a parameter (the record Sockets).
--   Tcp/Address is the part of the standard library's addresses that is used. AddressText, Listeners
--   and Accept hold the theorems, Sample the sockets of the examples.
-- - Bwu/WifiLan and Bwu/WifiHotspot: src/bwu/wifi_lan.rs and wifi_hotspot.rs, instances of the trait
--   in Handler. The trait SoftAp is a record. Lifecycle and Path hold the theorems; Handler/Calls
--   has the states that a handler reaches by the calls of its trait.
-- - Bwu/Testing: the fakes of src/bwu/testing.rs, the platform of the examples; Bwu/Sample has their
--   states.
-- - Prelude: numbers, lists, maps (association lists), sets (lists), serialisers, UTF-8.
--
-- Choices. A function through a shared reference returns the new state. A call that the source makes
-- only on some branch is computed by name before the branch, and its state used only there. Where
-- a stream, a channel over it or the mailbox blocks, the model of it gives none. The manager's channels
-- are the record EndpointChannel, whose read and write are the calls that return: the source's channel
-- blocks in a write while it is paused and in a read of a frame that does not come, and a step of the
-- manager in which it does is not one of the model. initiate_bwu_for_endpoint and
-- process_upgrade_failure_event call each other; they are on fuel, one unit for each attempt, and
-- more fuel than the endpoint has upgrade mediums is enough if these are distinct and known. A
-- duration is a number of nanoseconds; where the source panics on one over the maximum, uncapped_delay
-- gives none. The order of a map's entries stands
-- for the hash map's order of iteration, which the source leaves open. A thread of an accept loop is
-- an entry of the system's running loops, and accept_loop says what the thread does with the
-- connections that come in. The entry goes when the thread ends: at an error of accept, at any time, or
-- once it is told to stop and woken. Where the connection that wakes it fails, the source waits for the
-- next one, and the model goes on with the entry there. The loop of the actor runs on a script:
-- the time of each turn, the messages that have come in by then, and whether a handle is left. A
-- turn in which nothing is ready changes nothing.
--
-- Not modelled: the operating system's sockets and threads and the platform's access point, which
-- are parameters; src/proto.rs and build.rs (generated code); tokio's waking of the loop and of
-- waiting senders, which is the script; locks and condition variables; the tests.
mod Prelude
pub mod Mediums
pub mod Proto
pub mod Frames
pub mod Validator
pub mod Bwu
