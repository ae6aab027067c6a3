-- ===== src/Group.antt =====
-- oceanraft/src/group.rs and oceanraft/src/state.rs: one replica of a raft group on a node.
pub mod State
pub mod Roles
pub mod Raft
pub mod Propose
pub mod Deleted
pub mod Answers
pub mod Create
pub mod Collect
pub mod Write
pub mod Retry
pub mod Track
pub mod Tracked
mod Tests
