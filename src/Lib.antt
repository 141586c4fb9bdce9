-- ===== src/Lib.antt =====
-- brew-server: a verification library for the packet router, the high-availability election and the
-- loop-safe federation of the server, in Rust.
--
-- The program connects TETRA base stations, terminals and other servers over WebSockets. Its shared
-- tables (src/state.rs, `Inner`) hold connections, the effective subscriber table, calls and the
-- state of the federation. The router (src/router.rs) takes each packet of a connection: registrations,
-- group calls with their floor, private calls, voice and short messages. A peer link carries Brew
-- packets and federation messages (src/fedroute.rs); two servers of one site elect which of them is
-- Active by heartbeats over UDP (src/ha.rs). A short message to an ISSI that is not registered waits in
-- the SMS Center (src/sms_center.rs); the router asks it whether it wants the message.
--
-- Files and code:
--   Common             names passed on; maps and sets as lists (Maps), little-endian bytes (Bytes),
--                      strings as bytes with their order (Names)
--   State              the tables of src/state.rs and the records of src/fedroute.rs that they hold
--   Protocol           constants and version adaptation of src/protocol.rs; Protocol/Mnemonic, Parse
--                      and Build are its text fields, parser and builders, Protocol/Versions,
--                      Nameless, Adapt and RoundTrip what is shown of them
--   Ha/Election        `Election` of src/ha.rs: `tick` in the order of its early returns (`tick_up`,
--                      `meet`, `settle`, `elect` are the rest of its body), and the requests
--   Ha/Heartbeat       the heartbeat that `run` announces, and the view that the peer has of it
--   Ha/Wire, Ha/Replay `encode`, `decode`, and `ReplayGuard`
--   Ha/Pair, Ha/Safety two nodes: tick by tick, and over every history
--   Fedroute/Messages  the wire format of src/fedroute.rs: Build, Parse
--   Fedroute/Select    `select`, and its specification (Spec)
--   Fedroute/Table     `set_effective`, `reroute`, `withdraw_offer`
--   Fedroute/Publish   `fed_update`, `legacy_updates`, `publish`, `sync_messages`
--   Fedroute/Adverts   the flooded adverts: relays, full tables, received and own adverts
--   Fedroute/Clock     `FedState::tick` and `observe`
--   Fedroute/Handle    `handle` with every message; Invariant, Keeps and Steps show what it keeps
--   Fedroute/Dedup     `is_duplicate` and `note_call`
--   Connections        `cleanup_client` and `promote_client_version` of src/state.rs: a connection that
--                      goes away (Calls, Floors), and the version of a connection (Version);
--                      Connections/Attach is `attach_client` of src/federation.rs
--   Router             what the handlers of src/router.rs share: Group is `handle_group_tx`, Calls the
--                      end, the control and the frames of a call, Private `handle_private_setup`,
--                      LateEntry `late_entry` and `emergency_raised`, Sds the short messages,
--                      Subscribers `handle_subscriber`, Sweep `run_call_duration_sweep`, Packet
--                      `handle_packet`, and Sip what src/sip/bridge.rs does to the calls
--   Router/Steps       every change of the shared state as a step relation, and the states reached
--   Router/Floor       the calls and floors: what handlers (Handlers, Parties, Frames, Tables, Packets, Bridged),
--                      a lost connection (Gone) and every history (Reach) keep of them, and floor
--                      control as an abstract machine (Spec, Request, Release)
--   Router/Tables      packets and the federation state; Router/Voice who hears a call; Router/LateCopy
--                      the header of an ended call over another link
--   Sms                the SMS Center's settings and state (src/sms_center.rs, src/config.rs); Sms/Payload what
--                      it reads of an SDS, Sms/Queue the operations on the queue, Sms/Lists their iterators,
--                      Sms/Replica the queue sent to the HA peer and taken from it, Sms/Limits, Sms/Steps
--                      and Sms/Reach the queue over time, Sms/Spec a delivery, Sms/Sweep and Sms/Splits the housekeeping
--   Ha/Tests, Fedroute/Tests, Protocol/Tests, Connections/Tests, Router/Tests, Sms/Tests   runs on concrete input
--
-- How the code is modelled. A method that changes its object returns the new one; the wall clock is
-- an argument in milliseconds; a packet for a connection is a value in the result, where the code
-- queues it on the connection's channel. A hash map is a list of pairs whose entries stand in the
-- order of the last write; the source relies on no order. Maps and sets of connections, and group
-- sets, are lists of numbers, and UUIDs as keys are numbers (the 16 bytes of a call id are kept,
-- since they are on the wire). A string is the list of its UTF-8 bytes, a float its 64 bits. The
-- loops are structural recursions, so no fuel is needed. The election's times are unbounded numbers:
-- the sums of the code (a time and 5 s) are far below the end of u64. The clock of registrations
-- saturates at the end of u64 as in the code. A tick returns an option, `none` for the
-- `unreachable!` of the source.
--
-- Parameters: HMAC-SHA256 and the JSON library (Ha/Wire; Sms/Replica), the validity of UTF-8 and
-- `String::from_utf8_lossy` (Fedroute/Messages/Parse, Protocol/Parse); in Router, the record `Env` with
-- the settings, the blacklist, the clock, and what telemetry, the SMS Center and the SIP bridge answer.
--
-- Not modelled: sockets, tasks and locks (an operation runs under the lock, as one step, and so does
-- `handle_sds_header`, which takes it twice), logging, the virtual IP and the persisted HA settings, the
-- dashboard, the configuration, the decoding of positions, the SMS Center's file and its network side, SIP signalling and
-- media, the codecs and the telemetry.
mod Common
pub mod Ha
pub mod State
pub mod Protocol
pub mod Router
pub mod Fedroute
pub mod Connections
pub mod Sms
