-- ===== src/Raft/Tests.antt =====
-- crates/es-broker/src/raft: the theorems at concrete logs, nodes and files.
mod Logs
mod Nodes
mod Files
