-- ===== src/Raft.antt =====
-- crates/es-broker/src/raft: the messages, the log and the state machine of one Raft node.
pub mod Messages
pub mod Config
pub mod Log
pub mod State
pub mod Commit
pub mod Drain
pub mod Replicate
pub mod Election
pub mod Replication
pub mod Snapshot
pub mod Sound
pub mod Store
pub mod Step
pub mod Run
pub mod Recovery
pub mod Elected
pub mod LogFile
mod Tests
