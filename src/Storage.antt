-- ===== src/Storage.antt =====
-- crates/es-broker/src/storage: what a partition keeps on disk.
pub mod Record
pub mod Index
mod Tests
