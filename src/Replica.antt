-- ===== src/Replica.antt =====
-- Where the replicas of the groups are: the storage of a node, and the cache before it.
pub mod Store
pub mod Memory
pub mod Directory
pub mod Cache
pub mod Again
mod Tests
