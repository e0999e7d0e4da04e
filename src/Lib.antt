-- ===== src/Lib.antt =====
-- shroomio is a multiplayer arena game in C: a server (src/server) runs lobbies and matches, a
-- client (src/client) draws and predicts them, and both stand on src/shared. This library models
-- parts of the program that decide by themselves, without floating point, the network, a database
-- or a screen, and states what makes each of them correct. The parts, in the order in which a
-- packet meets them:
--
-- Base: what all files share: the libraries' names passed on, Boolean tests on natural numbers
--   (Base/Tests), C arrays as lists (Base/Lists), machine words (Base/Words), <ctype.h> (Base/Ctype).
-- Connection: src/shared/connection.c, the table of a server's connections. Its functions Add,
--   Remove, GetActiveCount and GetAvailableSlot are `add`, `remove`, `get_active_count` and
--   `get_available_slot`. Connection/Table is about the table, Connection/Timers about the
--   timeout and the round-trip time of one connection.
-- InputAdmission: src/server/input_admission.c, which decides for each input packet of a player
--   whether it is simulated. `check` is ShroomInputAdmissionCheck; InputAdmission/Rate is about
--   the token bucket, Sequence about sequence numbers, Counters about what is counted.
-- LobbyCapacity: src/server/lobby_capacity.c, whether a lobby takes one more player.
-- SnapshotScheduler: src/shared/snapshot_scheduler.c, when the server sends a snapshot. Rate
--   counts the snapshots of a number of steps.
-- Snapshot: src/shared/snapshot_replication.c, how the server's players reach a client. Record is one
--   record: EncodeRecord is `encode_record` (Record/Written: its bytes, Record/Codec: that they are
--   read back). Frame is one frame: ShroomSnapshotEncodeFrame is `encode_frame` in Frame/Encode, and
--   DecodeRecord and the loops of ApplyChunks stand in Frame/Decode; Lookup is about players by their
--   ids, Decoded, Applied and Step about one record, Loops and Despawns about the encoder's two loops,
--   Same and Merge about what counts as the same player, RoundTrip about both loops, Safety and
--   Stream about bytes of any origin, ChunkCount about the number of packets. History is the ring of
--   baselines (Ring: how long a frame stays). Assembly is ShroomSnapshotAssemblyPush, `push` (Slots
--   and Frames: the packets that are kept, Order: any order of arrival, Outcome: every branch).
--   Transfer puts the two ends together.
-- WorldReplication: src/shared/world_replication.c, how a client follows the spores and power-ups
--   around it. Build is ShroomWorldReplicationBuild, Apply is ShroomWorldReplicationApplyPacket, on
--   the arrays of Table. Lookup is about those arrays by id; Follow, Mirror, Delta, Operation,
--   Replica, Together, Parts and Mirrored lead to Sync, where a client applies what the server
--   builds; Visible is about what a client is to see; Bounds is about packets of any origin.
-- Intermission: src/shared/intermission.c, the vote between two rounds: `begin`, `cast_vote`,
--   `remove_voter`, `resolve`. Tally is about the totals, Decision about the outcome.
-- VoiceFrame: the voice packet of src/shared/protocol.h and its validation. Two parts use it:
--   VoiceRelay, src/server/voice_relay.c, through which the server passes a frame to the players
--   of a lobby (Limits: the rate, Talkers: how many talk at once, Recipients and Delivery: who
--   receives), and
--   VoiceJitter, src/client/voice_jitter.c, the buffer in which a client puts them in order
--   (Buffer: the array of frames, Playback: the order, Delivery: a frame and its turn, Starving:
--   the end of a stream).
-- ChatAdmission: src/shared/chat_admission.c, the canonical form of a chat message (Canonical: what
--   it looks like, Fixed: that form again).
-- PlayerName: src/shared/player_identity.h, the name that a client's text becomes (Grammar).
-- ChatHistory: src/server/chat_history.c, the messages that a lobby keeps (Retention, Bounds),
--   writes to its database (Flush) and reads from it (Load).
-- DirectoryRegistry: src/server/directory_registry.c, the list of the servers that have been heard
--   of; the operations stand in DirectoryRegistry/Operations. Unique and Listing are about what
--   is listed, Expiry about eviction, Lists about the packets that carry the list.
-- RestRateLimit: src/server/rest_rate_limit.c, the sliding window in front of the account service
--   (Window: one entry and the rule, Search: an entry in the table, Room: an entry for every client,
--   Clients and Entries: the requests of several clients).
-- NetTelemetry: src/shared/net_telemetry.c, the counts of the traffic; ReadWindow reads them for
--   the last tenths of a second (Recent: the buckets, Log: the buckets against the traffic).
-- Lifecycle: src/shared/lifecycle.c, the states of a process (Diagram: the transitions, Runs: what
--   a run of calls can reach).
--
-- How the code is read. A struct is a record, an enum a data type with the enum's words, an array
-- the list of its elements, or of the first of them where a count says how many are in use. A
-- function that changes a struct through a pointer gives back the struct after it; since such a
-- struct is passed by value, a test for a NULL pointer to it has no counterpart, and pointers that
-- may be NULL by the code's own logic are an Option. An unsigned integer is a natural number, with
-- its wrap-around written out where the code's operation can wrap. A -1 or a past-the-end index
-- for "not found" is `none`. Calls made one after another are lists of calls, which a function
-- `run` applies; functions that hold a lock, or run in one thread, are one step. A field that is
-- copied byte by byte is written lowest byte first, as both ends do, and a float that is only copied
-- or compared for equality is the number of its bits.
--
-- Bounds and fuel. Only the loop of ShroomServerChatHistoryAppend is on fuel, one more than the
-- number of messages that a history holds, since each turn removes a message and the loop ends at
-- the latest with none left; `none` stands for a loop that has not ended. All other loops are
-- recursion on the array.
--
-- Code outside the repository is an argument: the sending callback of the voice relay, the result
-- of calloc in the connection table, the rows that a query gives to ChatHistory/Load, and the other
-- statements of SQLite, of which ChatHistory/Flush assumes what SQLite says of a transaction: what
-- is durable changes only when it is committed.
-- Whether a position is near, which WorldReplication/Build needs, is an argument too, since the code
-- computes it in floating point.
--
-- Not modelled: the simulation (src/shared/sim.c) and prediction, which are floating point; the
-- choice of the players that are near a client, which is too; accounts, persistence and the REST
-- service, which are statements to SQLite and calls of an HTTP library; the server's and the
-- client's main loops; and all that draws, plays sound or reads files.
pub mod Base
pub mod ChatAdmission
pub mod ChatHistory
pub mod Connection
pub mod DirectoryRegistry
pub mod InputAdmission
pub mod Intermission
pub mod Lifecycle
pub mod LobbyCapacity
pub mod NetTelemetry
pub mod PlayerName
pub mod RestRateLimit
pub mod Snapshot
pub mod SnapshotScheduler
pub mod VoiceFrame
pub mod VoiceJitter
pub mod VoiceRelay
pub mod WorldReplication
