-- ===== src/Group/Tests.antt =====
-- Runs of oceanraft/src/state.rs and oceanraft/src/group.rs, with a raw node that is no more than
-- the length of its log, and always leads in term 2.
use oceanraft.Common.{ℕ, ◌≡◌, ◌+◌, refl, true, false, List, [], ◌∷◌, none, some, Outcome, ok, arith}
use oceanraft.Types.{Entry, entry_normal, default_replica_desc}
use oceanraft.Types.Errors.{Error}
use oceanraft.Proposal.Queue.{Proposal}
use oceanraft.Group.State.{leader}
use oceanraft.Group.Raft.{RawNode, RaftGroup, WriteRequest}
use oceanraft.Group.Propose.{propose_write, last_index, term}
use oceanraft.Group.Answers.{WriteEnds, propose_write_lem}
use oceanraft.Group.Create.{create_apply, entries_size}
use oceanraft.Group.Collect.{own, foreign, done, create_apply_lem}
use oceanraft.Group.Track.{remove_track_node}
use oceanraft.Common.{Bool, false, ◌>>=◌, err, panic}
use oceanraft.Types.{default_conf_state, default_hard_state, default_metadata}
use oceanraft.Types.Errors.{StorageError, of_raft}
use oceanraft.Storage.Mem.{MemStorageCore, append, set_hardstate}
use oceanraft.Storage.Api.{install_snapshot, set_hardstate_commit, term as log_term}
use oceanraft.Replica.Memory.{MultiRaftMemoryStorage}
use oceanraft.Group.Write.{Ready, LightReady, LogStore, Writer}

abbrev raw : RawNode ℕ
raw = record {
  state = λ n. leader;
  term = λ n. 2;
  last_index = λ n. n;
  committed = λ n. n;
  persisted = λ n. n;
  has_pending_conf = λ n. false;
  propose = λ context payload n. (ok tt, n + 1);
  propose_conf_change = λ context cc n. (ok tt, n + 1);
  propose_conf_change_v2 = λ context cc n. (ok tt, n + 1);
  advance_apply_to = λ index n. n;
  step = λ msg n. (ok tt, n);
}

abbrev proposal : ℕ → ℕ → Proposal
proposal index term = record { index = index; term = term; is_conf_change = false; tx = some index }

abbrev group : RaftGroup ℕ
group = record {
  node_id = 1;
  group_id = 7;
  replica_id = 3;
  raft_group = 5;
  node_ids = [];
  proposals = record { replica_id = 3; queue = proposal 4 2 ∷ proposal 5 2 ∷ [] };
  leader = default_replica_desc;
  commit_index = 3;
  commit_term = 2;
  deleted = false;
  read_index_queue = record { ready_cnt = 0; handle_cnt = 0; queue = [] };
  shared_state = record {
    replica_id = 3;
    commit_index = 3;
    commit_term = 2;
    leader_id = 3;
    role = 4;
  };
}

abbrev write : WriteRequest (List ℕ)
write = record { group_id = 7; term = 0; request = 1 ∷ []; context = none; tx = 9 }

abbrev serialize : List ℕ → Outcome Error (List ℕ)
serialize bytes = ok bytes

propose_write_lem_example :
    WriteEnds raw serialize write group (propose_write raw serialize write group)
unfolding last_index term
propose_write_lem_example =
    propose_write_lem raw serialize write group (omega arith, omega arith, tt)
      (omega arith, omega arith) (λ e. absurd cc) (λ payload e. absurd cc)

abbrev entry : ℕ → ℕ → Entry
entry index term = record {
  entry_type = entry_normal;
  term = term;
  index = index;
  payload = index ∷ [];
  context = [];
  sync_log = false;
}

abbrev size : Entry → ℕ
size e = 1

-- The entry 3 is of another leader, the entry 4 is the group's own.
create_apply_lem_example :
    create_apply raw size (λ i. ok 2) 3 (entry 3 1 ∷ entry 4 2 ∷ []) group ≡ (
      ok (
        record {
          replica_id = 3;
          group_id = 7;
          term = 2;
          commit_index = 5;
          commit_term = 2;
          entries = entry 3 1 ∷ entry 4 2 ∷ [];
          entries_size = entries_size size (entry 3 1 ∷ entry 4 2 ∷ []);
          proposals = proposal 4 2 ∷ [];
        },
        [],
      ),
      record group { proposals = record { replica_id = 3; queue = proposal 5 2 ∷ [] } },
    )
create_apply_lem_example =
    create_apply_lem raw size (λ i. ok 2) 3 2 (entry 3 1 ∷ entry 4 2 ∷ []) group (proposal 4 2 ∷ [])
      (proposal 5 2 ∷ []) refl (foreign _ refl (own _ _ refl refl done))

abbrev tracking : RaftGroup ℕ
tracking = record group { node_ids = 1 ∷ 2 ∷ 3 ∷ [] }

-- The removal moves the last node to the place of the removed one.
remove_track_node_moves : (remove_track_node 1 tracking).node_ids ≡ 3 ∷ 2 ∷ []
unfolding remove_track_node
remove_track_node_moves = refl

-- A call in memory that fails leaves the log as it was.
abbrev logged :
    MemStorageCore Bool
    → Outcome StorageError (MemStorageCore Bool)
    → Outcome StorageError (Unit {0}) × MemStorageCore Bool
logged c (ok c') = (ok tt, c')
logged c (err e) = (err e, c)
logged c panic = (panic, c)

-- The memory log as the log store of a group, unavailable for the moment.
abbrev store : LogStore (MemStorageCore Bool)
store = record {
  install_snapshot = λ snap c. logged c (install_snapshot snap c);
  append = λ es c. logged c (append es c);
  set_hardstate = λ hs c. logged c (set_hardstate hs c);
  set_hardstate_commit = λ commit c. (ok tt, set_hardstate_commit commit c);
  term = λ i c. elim (log_term i c) [ ok t ↦ ok t | err e ↦ (of_raft e >>= err) | panic ↦ panic ];
}

abbrev busy : MemStorageCore Bool
busy = record {
  raft_state = record { hard_state = default_hard_state; conf_state = default_conf_state };
  entries = [];
  snapshot_metadata = default_metadata;
  applied_index = 0;
  applied_term = 0;
  trigger_snap_temp_unavailable = false;
  trigger_log_unavailable = false;
  trigger_log_temp_unavailable = true;
  trigger_log_write_slow = record { enable = false; block = 0 };
  trigger_log_read_slow = record { enable = false; block = 0 };
  get_entries_context = none;
}

abbrev ready : Ready
ready = record {
  snapshot = record { payload = []; metadata = default_metadata };
  entries = entry 1 1 ∷ [];
  hs = none;
  persisted_messages = [];
}

abbrev Disk : Type 0
Disk = MultiRaftMemoryStorage Bool

abbrev disk : Disk
disk = record {
  node_id = 1;
  trigger_storage_temp_unavailable = false;
  group_storages = [];
  group_metadatas = [];
  replicas = [];
}

abbrev writer : Writer Disk ℕ (MemStorageCore Bool)
writer = record {
  group = group;
  ready = some ready;
  log = busy;
  routes = record { replica_cache = record { storage = disk; cache = [] }; node_mgr = [] };
}

abbrev light : Ready → ℕ → LightReady × ℕ
light rd n = (record { commit_index = none; messages = []; committed_entries = [] }, n)
