-- ===== src/Proposal.antt =====
-- oceanraft/src/proposal.rs: the queues of write proposals and of read-index proposals.
pub mod Queue
pub mod Order
pub mod Clients
pub mod Reads
pub mod Serve
mod Tests
