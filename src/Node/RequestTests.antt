-- ===== src/Node/RequestTests.antt =====
-- Runs of the requests of oceanraft/src/node.rs over the memory storage.
use oceanraft.Common.{
  ℕ, ◌≡◌, ◌≢◌, ◌+◌, refl, Bool, false, List, [], ◌∷◌, none, some, lookup-insert, Outcome, ok, err,
  panic, ap, arith,
}
use oceanraft.Types.{GroupMetadata, ReplicaDesc}
use oceanraft.Types.Errors.{Error, StorageError}
use oceanraft.Storage.Mem.{MemStorageCore, last_index}
use oceanraft.Storage.Api.{initial_state, get_applied}
use oceanraft.Types.Membership.{MembershipRequestContext}
use oceanraft.Proposal.Reads.{ReadIndexContext}
use oceanraft.Replica.Memory.{
  get_replica_desc, MultiRaftMemoryStorage, memory, new, group_storage, get_group_metadata,
  set_group_metadata,
}
use oceanraft.Node.State.{NodeWorker}
use oceanraft.Node.Lifecycle.{Starts, create_raft_group}
use oceanraft.Node.Requests.{ProposeMessage, read_index_data, handle_propose, remove_group_request}
use oceanraft.Node.Created.{Created, create_raft_group-Created}
use oceanraft.Node.Requested.{
  Asked, asked_of, handle_propose-Asked, Removed, remove_group_request_lem,
}
use oceanraft.Node.Leader.{SoftState, Observer, handle_soft_state_change}
use oceanraft.Node.Led.{Reported, handle_soft_state_change-Reported}
use oceanraft.Group.State.{follower}
use oceanraft.Replica.Directory.{memory-IsStorage}
use oceanraft.Replica.Cache.{replica_desc}
use oceanraft.Node.Tests.{raw, group}

abbrev pub Memory : Type 0
Memory = MultiRaftMemoryStorage Bool

-- The log of a group, and the storage that now has it.
abbrev opened :
    Memory
    → Outcome StorageError (MemStorageCore Bool × Memory)
    → Outcome StorageError (MemStorageCore Bool) × Memory
opened s (ok (log, s')) = (ok log, s')
opened s (err e) = (err e, s)
opened s panic = (panic, s)

abbrev pub starts : Starts (MemStorageCore Bool) Memory ℕ
starts = record {
  group_storage = λ group_id replica_id s. opened s (group_storage 0 group_id replica_id s);
  get_group_metadata = λ group_id replica_id s. ok (get_group_metadata group_id s);
  set_group_metadata = λ meta s. ok (set_group_metadata meta s);
  initial_state = λ log. ok (initial_state log);
  get_applied = λ log. ok (get_applied log);
  last_index = λ log. ok (last_index log);
  new_raw_node = λ id applied log. ok applied;
  campaign = λ n. (ok tt, n + 1);
}

abbrev pub node : NodeWorker Memory ℕ
node = record {
  worker = record {
    node_id = 1;
    groups = (7, group) ∷ [];
    active_groups = [];
    node_manager = [];
    replica_cache = record { storage = new 1; cache = [] };
  };
  shared_states = [];
  cache = [];
}

abbrev others : List ReplicaDesc
others = record { node_id = 2; group_id = 8; replica_id = 4 } ∷ []

create_raft_group-Created_example :
    Created memory starts 8 5 node (create_raft_group memory starts 8 5 others (some 0) none node)
create_raft_group-Created_example =
    create_raft_group-Created memory starts 8 5 others (some 0) none node

abbrev serialize : ℕ → Outcome Error (List ℕ)
serialize w = ok (w ∷ [])

abbrev serialize_request : MembershipRequestContext → List ℕ
serialize_request context = []

abbrev serialize_read : ReadIndexContext → List ℕ
serialize_read context = context.uuid ∷ []

abbrev read_index : List ℕ → ℕ → ℕ
read_index context n = n + 1

abbrev read : ProposeMessage ℕ
read = read_index_data 7 (record { uuid = 3; context = none }) 6

handle_propose-Asked_example :
    Asked 7 6
      (asked_of raw read_index serialize serialize_request serialize_read read)
      node
      (handle_propose raw read_index serialize serialize_request serialize_read read node)
handle_propose-Asked_example =
    handle_propose-Asked raw read_index serialize serialize_request serialize_read read node

stored :
    (meta : GroupMetadata) (s : Memory)
    → (s' : Memory) × (starts.set_group_metadata meta s ≡ ok s')
      × (starts.get_group_metadata meta.group_id meta.replica_id s' ≡ ok (some meta))
unfolding get_group_metadata set_group_metadata
stored meta s = (
  set_group_metadata meta s,
  refl,
  ap ok (ground (arith, lookup-insert meta.group_id meta.group_id meta s.group_metadatas)),
)

unknown : starts.get_group_metadata 7 3 node.worker.replica_cache.storage ≡ ok none
unfolding get_group_metadata new
unknown = refl

remove_group_request_lem_example :
    Removed starts 7 group node (remove_group_request memory starts 7 node)
remove_group_request_lem_example =
    remove_group_request_lem memory starts stored node 7 group none refl unknown
      (λ meta e. absurd cc)

abbrev metadata : GroupMetadata
metadata = record {
  group_id = 7;
  replica_id = 3;
  node_id = 1;
  create_timestamp = 0;
  leader_id = 0;
  deleted = false;
}

abbrev pub observer : Observer Memory ℕ
observer = record {
  group = group;
  replica_cache = record { storage = set_group_metadata metadata (new 1); cache = [] };
  events = [];
}

abbrev pub elected : SoftState
elected = record { leader_id = 4; raft_state = follower }

kept : starts.get_group_metadata 7 3 observer.replica_cache.storage ≡ ok (some metadata)
unfolding get_group_metadata set_group_metadata new
kept = refl

answers : (replica_desc memory 7 4 observer.replica_cache).0 ≢ panic
unfolding replica_desc get_replica_desc set_group_metadata new
answers e = absurd cc

handle_soft_state_change-Reported_example :
    (w' : Observer Memory ℕ) × (handle_soft_state_change memory starts elected observer ≡ ok w')
    × Reported memory starts elected observer w'
handle_soft_state_change-Reported_example =
    handle_soft_state_change-Reported memory starts memory-IsStorage stored elected observer
      metadata kept refl refl answers
