-- ===== src/Rocks.antt =====
-- oceanraft/src/storage/rocks.rs: the storage of raft logs and states in RocksDB.
pub mod Errors
pub mod Keys
pub mod Db
pub mod Core
pub mod Store
pub mod Sample
mod Tests
