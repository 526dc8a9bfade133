-- ===== src/Lib.antt =====
-- es, a small Kafka-shaped event log: its replication by Raft, its records and
-- producers, its binary protocol, its consumer groups, and what it compacts and removes.
--
-- The broker keeps topics as partitions of append-only segments. With Raft, the entries of a log are
-- agreed on by a majority first: `crates/es-broker/src/raft` is a pure state machine of one node,
-- which is handed messages, timeouts and proposals, and hands back actions (messages to send, entries
-- to apply) and durable operations, which its driver writes before it sends. A segment holds records
-- with a checksum each and a sparse index of their positions. A producer may number its records, and
-- is then answered with the first offset when it retries one. Sealed segments are compacted to the last
-- record of each key, or removed when they are old or the partition is over its budget. Clients speak
-- JSON over HTTP or a binary protocol; consumers commit offsets under a group, which belongs to the key
-- that used it first, and join it to be assigned partitions.
--
-- Which file models what:
--   Prelude, Bytes   lists, tests, maps, sorting and ordered maps; big-endian numbers and
--                    the bounds-checked reads of `Reader`
--   Raft/Messages    crates/es-broker/src/raft/messages.rs: the messages; Codec is `encode`, `decode`
--   Raft/Config      raft/state.rs: membership changes as payloads of entries
--   Raft/Log         raft/log.rs: `Log` and each of its methods, under the method's name
--   Raft/State       raft/state.rs: `RaftState`, `Role`, `Action`, and the hard state
--   Raft/Commit, Drain, Replicate, Election, Replication, Snapshot, Step
--                    raft/state.rs: each method under its name, in parts where it is long; Step has
--                    the entry points (`on_message`, `try_propose`, `try_change_membership`)
--   Raft/Sound       the invariant of one node, event by event
--   Raft/Store       raft/log.rs, `persist`: what the files hold, and the pending operations
--                    against the state
--   Raft/LogFile     raft/log.rs: the records of the log file, and a file with a torn tail
--   Raft/Run         every order of events of one node, as a step relation
--   Raft/Recovery    raft/state.rs, `restore`: a restart
--   Raft/Elected     raft/state.rs, `handle_request_vote_resp`: who becomes leader
--   Storage/Record   crates/es-broker/src/storage/record.rs: a record on disk
--   Storage/Index    crates/es-broker/src/storage/index.rs: the entries of a sparse index, their file
--   Producers        crates/es-broker/src/producers.rs: `ProducerState::check` and `record` on the
--                    window of one partition
--   Wire             crates/es-protocol/src/wire.rs: Fields is `WireBuf` and `WireReader`, Codec the
--                    encoders and decoders of requests and responses
--   Auth             crates/es-broker/src/auth.rs: the grants of a key (`can`, `is_admin`, prefixes)
--   Groups           crates/es-broker/src/groups.rs: `GroupStore`, each operation under its name; Run is
--                    every order of operations
--   Coord            crates/es-broker/src/coord.rs: Assign is `recompute_assignment`, Group what the
--                    operations do to one group, Coordinator the operations of `GroupCoordinator`
--   Compaction       crates/es-broker/src/compaction.rs: the two passes of `compact_partition`
--   Retention        crates/es-broker/src/retention.rs: `plan_victims`
--   Tests            in each part, the theorems at concrete inputs
--
-- How the code is rendered. A method that mutates `self` takes the state and returns the new one,
-- with its result. Integers are natural numbers; an addition of `u64`s wraps (`add_u64`) unless
-- the source saturates. A signed integer is its two's complement word; an `i64` sequence of a
-- producer is its distance from `i64::MIN`, which keeps the order. A string is the bytes of its
-- UTF-8. A `BTreeMap`, a `HashMap` or a `DashMap` is an association list (Prelude/Maps where keys
-- are numbers, Prelude/Ordered where they have an order), a `BTreeSet` a list without repetition,
-- `Result` an option or a data type of the model. Log lines and the texts of errors are left out.
--
-- Loops recurse on their lists. `drain_rounds` runs as many rounds as the loop of
-- `drain_apply_actions` does, since no round moves the commit index; `decode_from` takes the
-- length of the file as fuel, which is enough since every round takes bytes off it. The
-- asynchronous operations on groups run one after another in the model: each holds the lock of
-- the group's entry or state while it uses it, except that a commit locks the entry once to
-- authorize and once more to write.
--
-- Parameters. `crc32fast::hash`, of which the proofs use that it is a `u32`; the test of
-- `String::from_utf8`; the partitions of a topic, the clock and a drawn member id where the
-- coordinator asks for them; which writes of a flush succeed; what is read of a segment when it
-- is compacted.
--
-- What is assumed where a theorem says so: that an index and a term are left before `u64::MAX`
-- (`HasRoom`), that the indices of a batch do not overflow (`BatchFits`), that a finished
-- snapshot does not contradict committed history (`SnapshotAgrees`), which Raft's leaders keep
-- to, and that the offsets of a log ascend (`Ascends`).
--
-- Not modelled: the driver and the transport (raft/node.rs, raft/transport.rs), file positions,
-- fsync and failing writes of the Raft log, the JSON of files, several nodes together, and the
-- rest of the broker: reading and appending to segments, recovery, partitions, topics, the
-- registry of producers, the key store and its quotas, schemas, tiered storage, the HTTP
-- interface, the sockets and frames of the binary one, the client and the command line.
pub mod Prelude
pub mod Bytes
pub mod Raft
pub mod Storage
pub mod Producers
pub mod Wire
pub mod Auth
pub mod Groups
pub mod Coord
pub mod Compaction
pub mod Retention
