-- ===== src/Lib.antt =====
-- Oceanraft runs many raft groups on one node. A node actor drives the raw node of each group; a
-- group turns what raft reports into writes of its log, into messages and into applys; the apply
-- worker batches the applys, finds the client of each entry and calls the state machine.
--
-- Which file models which part (paths from the root of the repository):
-- - Types: the messages of oceanraft/proto/eraftpb.proto and oceanraft/proto/multiraftpb.proto.
--   Types/Errors: the errors of oceanraft/src/error.rs and oceanraft/src/storage/mod.rs with their
--   conversions. Types/Membership: what a membership change carries, also of oceanraft/src/msg.rs.
--   Types/Reply: the error replies that a call sends to its clients.
-- - Storage/Mem: `MemStorageCore` of oceanraft/src/storage/mem.rs, a raft log in memory, with its
--   operations under their own names; Storage/Api: the calls of `MemStorage` over it.
-- - Proposal/Queue and Proposal/Reads: `ProposalQueue` and `ReadIndexQueue` of
--   oceanraft/src/proposal.rs, and `on_reads_ready` of oceanraft/src/group.rs.
-- - Apply/Batch: `ApplyData::try_batch` of oceanraft/src/msg.rs and `ApplyWorker::batch_msgs` of
--   oceanraft/src/apply.rs. Apply/Pending: `PendingSenderQueue`. Apply/Delegate: `ApplyDelegate`,
--   from entries to calls of the state machine. Apply/Rsm: the types of oceanraft/src/rsm.rs.
-- - Config: oceanraft/src/config.rs.
-- - Group/State: oceanraft/src/state.rs. Group/Raft, Group/Propose and Group/Create: `RaftGroup` of
--   oceanraft/src/group.rs, over raft's `RawNode` as an interface; proposals enter its queue in
--   Propose and leave it with the applys of Create, which the apply worker then batches.
--   Group/Track: the nodes that a group tracks. Group/Write: `handle_write`, which writes what raft
--   has made ready to the log storage of the group, as an interface.
-- - Replica/Store and Replica/Memory: the trait `MultiRaftStorage` as far as it knows the replicas,
--   and `MultiRaftMemoryStorage` of oceanraft/src/storage/mem.rs, which implements it.
--   Replica/Cache: `ReplicaCache` of oceanraft/src/replica_cache.rs over that interface.
-- - Node/Manager: `NodeManager` of oceanraft/src/node.rs. Node/Membership: what its
--   `commit_membership_change` does to a group. Node/State: the parts of `NodeWorker` that a call
--   works on. Node/Lifecycle: `create_raft_group`, from the storage of a group to its entry in the
--   node. Node/Requests: raft messages from other nodes, requests, proposals and campaigns.
--   Node/Leader: how a group takes a new leader, of oceanraft/src/group.rs, which writes the metadata
--   and the events of the node. Node/Ready: `handle_ready` of oceanraft/src/group.rs, which sends,
--   answers and hands over what raft has made ready; Node/Round: `handle_readys` over the active
--   groups. Node/Applied: apply results and queries. Node/Heartbeats and Node/Fanout:
--   oceanraft/src/node_heartbeats.rs.
-- - Transport: oceanraft/src/transport/mod.rs, which asks the replica cache where to send, and
--   tracks nodes in the node manager.
-- - Rocks: oceanraft/src/storage/rocks.rs. Rocks/Db: what it calls of the database and of the
--   serializer, as interfaces with their promises. Rocks/Errors: how a database error is reported.
--   Rocks/Keys: `DBEnv`, the keys as rows of bytes. Rocks/Core with its children Log and State:
--   `RockStoreCore`, the log and the states of one replica. Rocks/Store with its child Api:
--   `RockStore`, the groups and replicas of the node. The theorems about the log compare it with
--   the one in memory: Rocks/Core/Represents says when the database holds the log of a
--   `MemStorageCore`. An index that is stored has 64 bits there.
-- The files below these hold the lemmas and theorems about them, and Common what they all share.
--
-- How the code is read. A call on shared or mutable state is a function from the state to its
-- result and the new state; a lock is held for a whole call. A call ends in a value, an error or a
-- panic (`Outcome`), and a panic leaves no state. An `assert!`, an index out of bounds, `unwrap`
-- and `unreachable!` are panics. A `u64` is a number without a bound: terms, indices and counters
-- are only counted up and compared, and where a subtraction may go below zero the code's own
-- behaviour is written out. A oneshot sender is a number, and what is
-- sent is part of the result, in order. A hash map is an association list. Waiting (`sleep`),
-- tracing and giving back capacity (`try_gc`) are left out, since no call observes them.
-- Loops are recursion on the list that they walk over; only the loop that answers the ready reads
-- counts rounds, one more than there are ready reads, since each round takes one of them off.
--
-- Parameters: the database and the two sides of a snapshot; raft's `RawNode`, its ready and how a
-- node is started; `limit_size`, `can_async`, `into_v2` and `RaftState::initialized`; the
-- serializers, the clock, and what the node actor answers to a committed membership change.
-- Not modelled: the actor loops and their channels, the local and gRPC transports, the state machine
-- over RocksDB, `handle_writes` of the node actor, and the raft core, which is a library.
pub mod Common
pub mod Types
pub mod Config
pub mod Storage
pub mod Proposal
pub mod Replica
pub mod Node
pub mod Transport
pub mod Group
pub mod Apply
pub mod Rocks
