-- ===== src/Node/Lifecycle.antt =====
-- oceanraft/src/node.rs: how a node creates, removes and finds its groups. The storage of the logs,
-- and how raft starts and campaigns, are the parameters of `Starts`.
use oceanraft.Common.{
  ℕ, true, false, List, [], ◌∷◌, Option, none, some, ltb, ◌==◌, if◌then◌else◌, max, min, lookup,
  insert, contains_key, Outcome, ok, err, panic,
}
use oceanraft.Common.Action.{◌>>=◌, lift}
use oceanraft.Types.{ReplicaDesc, GroupMetadata, default_replica_desc}
use oceanraft.Types.Errors.{Error, StorageError, storage, RaftError, RaftGroupError}
use oceanraft.Types.Message.{MultiRaftMessage}
use oceanraft.Storage.Mem.{RaftState}
use oceanraft.Proposal.Queue.{Proposal, ProposalQueue, drain}
use oceanraft.Group.State.{follower, of_parts}
use oceanraft.Group.Raft.{RaftGroup}
use oceanraft.Group.Track.{add_track_node}
use oceanraft.Node.Manager.{add_group}
use oceanraft.Node.Membership.{desc_of}
use oceanraft.Replica.Store.{MultiRaftStorage}
use oceanraft.Replica.Cache.{cache_replica_desc, replica_desc}
use oceanraft.Proposal.Queue as Queue
use oceanraft.Proposal.Reads as Reads
use oceanraft.Node.State.{
  group_create, NodeWorker, Call, put_worker, on_cache, on_storage, write_storage, join, push,
}

-- The log storage `L` of a group, and raft over it. `new_raw_node` is given the replica and the
-- applied index; the rest of raft's configuration is the node's.
pub record Starts (L S N : Type 0) : Type 0 where
  pub group_storage : (group_id replica_id : ℕ) → S → Outcome StorageError L × S
  pub get_group_metadata :
      (group_id replica_id : ℕ) → S → Outcome StorageError (Option GroupMetadata)
  pub set_group_metadata : GroupMetadata → S → Outcome StorageError S
  pub initial_state : L → Outcome RaftError RaftState
  pub get_applied : L → Outcome StorageError ℕ
  pub last_index : L → Outcome RaftError ℕ
  pub new_raw_node : (id applied : ℕ) → L → Outcome RaftError N
  pub campaign : N → Outcome RaftError (Unit {0}) × N

-- `unwrap_or(0)` of a call that does not panic.
abbrev pub or_zero : Outcome StorageError ℕ → Outcome Error ℕ
or_zero (ok n) = ok n
or_zero (err e) = ok 0
or_zero panic = panic

abbrev pub unwrapped : {E A : Type 0} → Outcome E A → Outcome Error A
unwrapped (ok a) = ok a
unwrapped (err e) = panic
unwrapped panic = panic

module _ {L S N : Type 0} (st : MultiRaftStorage S) (starts : Starts L S N) where
  -- The applied index that a group starts from: the larger of the stored one and the hint. One past
  -- what is committed and persisted is a panic.
  unfoldable pub start_applied : L → RaftState → Option ℕ → Outcome Error ℕ
  start_applied log rs applied_hint = elim (or_zero (starts.get_applied log)) [
    | panic ↦ panic
    | err e ↦ err e
    | ok stored ↦ elim (unwrapped (starts.last_index log)) [
      | panic ↦ panic
      | err e ↦ err e
      | ok persisted ↦
          let applied = max stored (elim applied_hint [ none ↦ 0 | some hint ↦ hint ]) in
          if ltb (min rs.hard_state.commit persisted) applied then panic else ok applied
    ]
  ]

  -- What a first message from the leader tells: the leader is stored, and its node is joined.
  unfoldable pub note_leader : GroupMetadata → ℕ → Call S N (Unit {0})
  note_leader gs_meta leader_id =
      if gs_meta.leader_id == leader_id
      then lift (ok tt)
      else write_storage (starts.set_group_metadata (record gs_meta { leader_id = leader_id }))

  unfoldable pub group_metadata : (group_id replica_id : ℕ) → Call S N GroupMetadata
  group_metadata group_id replica_id n =
      lift
        (elim (starts.get_group_metadata group_id replica_id n.worker.replica_cache.storage) [
          | panic ↦ panic
          | err e ↦ err (storage e)
          | ok none ↦ panic
          | ok (some meta) ↦ ok meta
        ])
        n

  unfoldable pub adopt_leader :
      (group_id replica_id : ℕ) → Option MultiRaftMessage → Call S N ReplicaDesc
  unfolding add_group note_leader group_metadata
  adopt_leader group_id replica_id none = lift (ok default_replica_desc)
  adopt_leader group_id replica_id (some init_msg) = do
    gs_meta ← group_metadata group_id replica_id
    _ ← note_leader gs_meta init_msg.msg.from
    _ ← join init_msg.from_node init_msg.group_id
    lift (ok (desc_of init_msg.group_id init_msg.from_node init_msg.msg.from))

  unfoldable pub know_replica : ℕ → ReplicaDesc → Call S N (Unit {0})
  unfolding cache_replica_desc add_group
  know_replica group_id rd = do
    _ ← on_cache (cache_replica_desc st group_id rd true)
    join rd.node_id group_id

  -- The loop over the replicas that the request or the message names.
  unfoldable pub track_replicas : ℕ → List ReplicaDesc → RaftGroup N → Call S N (RaftGroup N)
  unfolding know_replica add_track_node
  track_replicas group_id [] group = lift (ok group)
  track_replicas group_id (rd ∷ rds) group = do
    _ ← know_replica group_id rd
    track_replicas group_id rds (add_track_node rd.node_id group)

  -- The node of a voter, if it is known.
  unfoldable pub node_of : Option ReplicaDesc → Option ℕ
  node_of none = none
  node_of (some rd) = if rd.node_id == 0 then none else some rd.node_id

  unfoldable pub track_voter : ℕ → Option ℕ → RaftGroup N → Call S N (RaftGroup N)
  unfolding add_group add_track_node
  track_voter group_id none group = lift (ok group)
  track_voter group_id (some node_id) group = do
    _ ← join node_id group_id
    lift (ok (add_track_node node_id group))

  -- The loop over the voters that are stored, as far as their nodes are known.
  unfoldable pub track_voters : ℕ → List ℕ → RaftGroup N → Call S N (RaftGroup N)
  unfolding replica_desc node_of track_voter
  track_voters group_id [] group = lift (ok group)
  track_voters group_id (voter_id ∷ voters) group = do
    found ← on_cache (replica_desc st group_id voter_id)
    group' ← track_voter group_id (node_of found) group
    track_voters group_id voters group'

  -- The group is entered last; a shared state that is there already is a panic.
  unfoldable pub register : RaftGroup N → Call S N (Unit {0})
  unfolding push
  register group n =
      let n₁ =
        put_worker (record n.worker { groups = insert group.group_id group n.worker.groups }) n in
      let n₂ = push (group_create group.group_id group.replica_id) n₁ in
      let prev = lookup group.group_id n₂.shared_states in
      let n₃ : NodeWorker S N = record n₂ {
        shared_states = insert group.group_id group.shared_state n₂.shared_states;
      } in
      elim prev [ none ↦ (n₃, ok tt) | some _ ↦ (n₃, panic) ]

  unfoldable pub new_group :
      (node_id group_id replica_id : ℕ) → N → ReplicaDesc → RaftState → RaftGroup N
  unfolding of_parts Queue.new Reads.new
  new_group node_id group_id replica_id raft_group leader rs = record {
    node_id = node_id;
    group_id = group_id;
    replica_id = replica_id;
    raft_group = raft_group;
    node_ids = [];
    proposals = Queue.new replica_id;
    leader = leader;
    commit_index = rs.hard_state.commit;
    commit_term = rs.hard_state.term;
    deleted = false;
    read_index_queue = Reads.new;
    shared_state = of_parts replica_id rs.hard_state.commit rs.hard_state.term 0 follower;
  }

  -- The state of raft as stored, and raft started from it.
  unfoldable pub start_raft : ℕ → Option ℕ → L → Outcome Error (RaftState × N)
  unfolding start_applied
  start_raft replica_id applied_hint log = elim (starts.initial_state log) [
    | panic ↦ panic
    | err e ↦ err (Error.raft e)
    | ok rs ↦ elim (start_applied log rs applied_hint) [
      | panic ↦ panic
      | err e ↦ err e
      | ok applied ↦ elim (starts.new_raw_node replica_id applied log) [
        | panic ↦ panic
        | err e ↦ err (Error.raft e)
        | ok raft_group ↦ ok (rs, raft_group)
      ]
    ]
  ]

  unfoldable pub open_group : (group_id replica_id : ℕ) → Option ℕ → Call S N (RaftState × N)
  unfolding start_raft
  open_group group_id replica_id applied_hint = do
    log ← on_storage (starts.group_storage group_id replica_id)
    lift (start_raft replica_id applied_hint log)

  unfoldable pub enter_group : List ReplicaDesc → List ℕ → RaftGroup N → Call S N (Unit {0})
  unfolding track_replicas track_voters register
  enter_group replicas_desc voters group = do
    group₁ ← track_replicas group.group_id replicas_desc group
    group₂ ← track_voters group.group_id voters group₁
    register group₂

  unfoldable pub start_group :
      (node_id group_id replica_id : ℕ)
      → List ReplicaDesc
      → Option ℕ
      → Option MultiRaftMessage
      → Call S N (Unit {0})
  unfolding open_group adopt_leader enter_group new_group
  start_group node_id group_id replica_id replicas_desc applied_hint init_msg = do
    opened ← open_group group_id replica_id applied_hint
    leader ← adopt_leader group_id replica_id init_msg
    enter_group replicas_desc opened.0.conf_state.voters
        (new_group node_id group_id replica_id opened.1 leader opened.0)

  unfoldable pub create_raft_group :
      (group_id replica_id : ℕ)
      → List ReplicaDesc
      → Option ℕ
      → Option MultiRaftMessage
      → Call S N (Unit {0})
  unfolding start_group
  create_raft_group group_id replica_id replicas_desc applied_hint init_msg n =
      if contains_key group_id n.worker.groups
      then (n, err (Error.raft_group (RaftGroupError.exists n.worker.node_id group_id)))
      else if group_id == 0
      then (n, err (Error.bad_parameter "group id must be more than 0"))
      else if replica_id == 0
      then (n, err (Error.bad_parameter "replica id must be more than 0"))
      else start_group n.worker.node_id group_id replica_id replicas_desc applied_hint init_msg n
