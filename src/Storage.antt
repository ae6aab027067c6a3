-- ===== src/Storage.antt =====
-- oceanraft/src/storage: the in-memory storage.
pub mod Mem
pub mod Api
mod Tests
