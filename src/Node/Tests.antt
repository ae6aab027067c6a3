-- ===== src/Node/Tests.antt =====
-- Runs of oceanraft/src/node.rs and oceanraft/src/node_heartbeats.rs over the memory storage.
use oceanraft.Common.{
  ℕ, ◌≡◌, ◌≢◌, ◌-◌, Bool, true, false, [], ◌∷◌, none, some, ◌==◌, if◌then◌else◌, ok, panic, arith,
}
use oceanraft.Types.{ReplicaDesc, default_replica_desc}
use oceanraft.Common.{Outcome, err}
use oceanraft.Types.Errors.{Error, RaftGroupError}
use oceanraft.Proposal.Queue.{Proposal}
use oceanraft.Replica.Memory.{MultiRaftMemoryStorage, memory, set_replica_desc}
use oceanraft.Replica.Cache.{cache_replica_desc, remove_replica_desc}
use oceanraft.Group.Raft.{RaftGroup}
use oceanraft.Group.Tracked.{count}
use oceanraft.Node.Manager.{NodeManager, fresh_node}
use oceanraft.Node.Membership.{Members, remove_replica}
use oceanraft.Node.Members.{joined, remove_replica_drops_proposals}
use oceanraft.Common.{refl, ◌+◌, inl, lookup}
use oceanraft.Types.Message.{MultiRaftMessage, msg_heartbeat}
use oceanraft.Replica.Cache.{ReplicaCache, replica_for_node}
use oceanraft.Group.State.{follower}
use oceanraft.Group.Raft.{RawNode}
use oceanraft.Group.Propose.{is_leader}
use oceanraft.Node.Membership.{Worker}
use oceanraft.Node.Heartbeats.{plain}
use oceanraft.Node.Fanout.{fanout_one, fanout_heartbeat}
use oceanraft.Node.Fanned.{Handled, TermFor, fanout_one_lem, fanout_heartbeat-Handled}

abbrev Memory : Type 0
Memory = MultiRaftMemoryStorage Bool

abbrev storage : Memory
storage = record {
  node_id = 1;
  trigger_storage_temp_unavailable = false;
  group_storages = [];
  group_metadatas = [];
  replicas = [];
}

abbrev proposal : Proposal
proposal = record { index = 4; term = 2; is_conf_change = false; tx = some 9 }

abbrev pub group : RaftGroup ℕ
group = record {
  node_id = 1;
  group_id = 7;
  replica_id = 3;
  raft_group = 5;
  node_ids = 1 ∷ 2 ∷ 3 ∷ [];
  proposals = record { replica_id = 3; queue = proposal ∷ [] };
  leader = default_replica_desc;
  commit_index = 3;
  commit_term = 2;
  deleted = false;
  read_index_queue = record { ready_cnt = 0; handle_cnt = 0; queue = [] };
  shared_state = record {
    replica_id = 3;
    commit_index = 3;
    commit_term = 2;
    leader_id = 3;
    role = 4;
  };
}

abbrev members : Members Memory ℕ
members = record {
  group = group;
  node_manager = (2, fresh_node 2) ∷ [];
  replica_cache = record { storage = storage; cache = [] };
}

caches : (d : ReplicaDesc) → (cache_replica_desc memory 7 d true members.replica_cache).0 ≢ panic
unfolding cache_replica_desc set_replica_desc
caches d e = absurd cc

removes : (d : ReplicaDesc) → (remove_replica_desc memory 7 d true members.replica_cache).0 ≢ panic
unfolding remove_replica_desc
removes d e = absurd cc

remove_replica_drops_proposals_example :
    (m' : Members Memory ℕ) × (remove_replica memory 1 5 members
      ≡ ok (m', (9, Error.raft_group (RaftGroupError.deleted 7 3)) ∷ []))
    × (m'.group.proposals.queue ≡ [])
    × ((k : ℕ)
        → count k m'.group.node_ids
          ≡ (if k == 1 then count k group.node_ids - 1 else count k group.node_ids))
    × (joined 1 7 m'.node_manager ≡ none)
remove_replica_drops_proposals_example = remove_replica_drops_proposals memory 1 5 members removes

abbrev nodes : NodeManager
nodes = (1, fresh_node 1) ∷ (2, fresh_node 2) ∷ []

-- A raw node that follows, and counts the messages that it steps.
abbrev pub raw : RawNode ℕ
raw = record {
  state = λ n. follower;
  term = λ n. 2;
  last_index = λ n. n;
  committed = λ n. n;
  persisted = λ n. n;
  has_pending_conf = λ n. false;
  propose = λ context payload n. (ok tt, n + 1);
  propose_conf_change = λ context cc n. (ok tt, n + 1);
  propose_conf_change_v2 = λ context cc n. (ok tt, n + 1);
  advance_apply_to = λ index n. n;
  step = λ msg n. (ok tt, n + 1);
}

abbrev leading : ReplicaDesc
leading = record { node_id = 2; group_id = 7; replica_id = 9 }

abbrev following : ReplicaDesc
following = record { node_id = 1; group_id = 7; replica_id = 3 }

abbrev followed : RaftGroup ℕ
followed = record group { leader = leading }

abbrev known : ReplicaCache Memory
known = record { storage = storage; cache = (7, leading ∷ following ∷ []) ∷ [] }

abbrev worker : Worker Memory ℕ
worker = record {
  node_id = 1;
  groups = (7, followed) ∷ [];
  active_groups = [];
  node_manager = (2, record { node_id = 2; group_map = (7, tt) ∷ [] }) ∷ [];
  replica_cache = known;
}

found :
    (replica_for_node memory 7 2 known ≡ (ok (some leading), known))
    × (replica_for_node memory 7 1 known ≡ (ok (some following), known))
unfolding replica_for_node
found = (refl, refl)

followed_follows : is_leader raw followed ≡ false
unfolding is_leader
followed_follows = refl

fanout_one_lem_example :
    (w' : Worker Memory ℕ) × (term : ℕ) × (fanout_one raw memory 2 1 7 worker ≡ ok w')
    × TermFor raw (memory {Context = Bool}) 7 followed term
    × (lookup 7 w'.groups ≡ some (record followed { raft_group = 6 }))
    × (lookup 7 w'.active_groups ≡ some tt)
fanout_one_lem_example =
    fanout_one_lem raw memory 7 followed 2 1 leading following known known worker refl refl
      (omega arith) followed_follows found.0 found.1 (λ term e. absurd cc)

-- A transport that loses its peer.
abbrev sends : MultiRaftMessage → Outcome Error (Unit {0})
sends msg = err (Error.bad_parameter "gone")

-- The heartbeat comes from another node than the leader's.
abbrev stray : MultiRaftMessage
stray = record {
  group_id = 0;
  from_node = 3;
  to_node = 1;
  replicas = [];
  msg = plain msg_heartbeat;
}

fanout_heartbeat-Handled_example :
    Handled raw memory 7 followed (fanout_heartbeat raw memory sends stray worker)
fanout_heartbeat-Handled_example =
    fanout_heartbeat-Handled raw memory 7 followed sends stray worker (inl (omega arith)) refl
