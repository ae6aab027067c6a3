-- ===== src/Node.antt =====
-- oceanraft/src/node.rs and oceanraft/src/node_heartbeats.rs: what a node does beside its groups.
pub mod Manager
pub mod Membership
pub mod Members
pub mod State
pub mod Lifecycle
pub mod Quiet
pub mod Created
pub mod Requests
pub mod Requested
pub mod Leader
pub mod Led
pub mod Ready
pub mod Readied
pub mod Applied
pub mod Round
pub mod Rounds
pub mod Heartbeats
pub mod Beats
pub mod Fanout
pub mod Fanned
mod Tests
mod RequestTests
mod ReadyTests
