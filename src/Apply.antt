-- ===== src/Apply.antt =====
-- oceanraft/src/apply.rs and the apply messages of oceanraft/src/msg.rs: the actor that hands
-- committed entries to the state machine.
pub mod Batch
pub mod Fifo
pub mod Rsm
pub mod Pending
pub mod Senders
pub mod Delivery
pub mod Context
pub mod Delegate
mod Tests
