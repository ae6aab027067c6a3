-- ===== src/Node/Requests.antt =====
-- oceanraft/src/node.rs: the messages, requests and proposals that reach a node.
use oceanraft.Common.{
  ℕ, Bool, true, List, [], ◌∷◌, none, some, if◌then◌else◌, lookup, insert, remove, contains_key,
  Outcome, ok, err, panic, map_err,
}
use oceanraft.Common.Action.{◌>>=◌, lift}
use oceanraft.Types.{ReplicaDesc}
use oceanraft.Types.Errors.{Error, RaftGroupError}
use oceanraft.Types.Message.{MultiRaftMessage}
use oceanraft.Types.Reply.{Replies}
use oceanraft.Proposal.Queue.{drain}
use oceanraft.Group.Raft.{RawNode, RaftGroup}
use oceanraft.Node.Manager.{NodeManager, contains_node, add_group}
use oceanraft.Node.Membership.{desc_of}
use oceanraft.Replica.Store.{MultiRaftStorage}
use oceanraft.Replica.Cache.{cache_replica_desc}
use oceanraft.Types.Membership.{MembershipRequest, MembershipRequestContext}
use oceanraft.Types.Reply.{Sender}
use oceanraft.Common.Action.{unwrap}
use oceanraft.Proposal.Reads.{ReadIndexContext, push_back}
use oceanraft.Group.Raft.{WriteRequest}
use oceanraft.Group.Propose.{Callback, deleted_replies, propose_write, propose_membership_change}
use oceanraft.Node.Manager as Manager
use oceanraft.Node.State.{NodeWorker, Call, put_worker, on_cache, write_storage, join, activate}
use oceanraft.Node.Lifecycle.{Starts, create_raft_group}

module _ {L S N : Type 0} (st : MultiRaftStorage S) (starts : Starts L S N) (raw : RawNode N)
    (replica_sync : Bool) where
  -- An error of raft's `step` is only logged.
  unfoldable pub step_group : MultiRaftMessage → Call S N (Unit {0})
  step_group msg n = elim (lookup msg.group_id n.worker.groups) [
    | none ↦ (n, panic)
    | some group ↦
        let (stepped, raft_group) = raw.step msg.msg group.raft_group in
        let group' : RaftGroup N = record group { raft_group = raft_group } in
        let n' =
          put_worker (record n.worker { groups = insert msg.group_id group' n.worker.groups }) n in
        elim stepped [
          | panic ↦ (n', panic)
          | err e ↦ (activate msg.group_id n', ok tt)
          | ok _ ↦ (activate msg.group_id n', ok tt)
        ]
  ]

  unfoldable pub handle_raft_message : MultiRaftMessage → Call S N (Unit {0})
  unfolding create_raft_group step_group cache_replica_desc contains_node
  handle_raft_message msg n =
      (do
        _ ←
            (if contains_key msg.group_id n.worker.groups
              then lift (ok tt)
              else create_raft_group st starts msg.group_id msg.msg.to msg.replicas none (some msg))
        _ ← on_cache (
            cache_replica_desc st msg.group_id (desc_of msg.group_id msg.from_node msg.msg.from)
              replica_sync)
        _ ← on_cache (
            cache_replica_desc st msg.group_id (desc_of msg.group_id msg.to_node msg.msg.to)
              replica_sync)
        _ ← (λ n'.
            (if contains_node msg.from_node n'.worker.node_manager
                then lift (ok tt)
                else join msg.from_node msg.group_id)
              n')
        step_group msg)
        n

-- A request and its client; the applied hint of the request is a number, which is always given.
pub data ManageMessage : Type 0 where
  create_group :
      (group_id replica_id : ℕ) → List ReplicaDesc → (applied_hint : ℕ) → Sender → ManageMessage
  remove_group : (group_id : ℕ) → Sender → ManageMessage

pub data ProposeMessage (W : Type 0) : Type 0 where
  write : WriteRequest W → ProposeMessage W
  membership : MembershipRequest → ProposeMessage W
  read_index_data : (group_id : ℕ) → ReadIndexContext → Sender → ProposeMessage W

-- The nodes that a removed group tracked lose it.
unfoldable pub leave_nodes : List ℕ → ℕ → NodeManager → NodeManager
unfolding Manager.remove_group
leave_nodes [] group_id m = m
leave_nodes (node_id ∷ node_ids) group_id m =
    leave_nodes node_ids group_id (Manager.remove_group node_id group_id m)

module _ {S N : Type 0} where
  abbrev pub put_group : ℕ → RaftGroup N → NodeWorker S N → NodeWorker S N
  put_group group_id g n =
      put_worker (record n.worker { groups = insert group_id g n.worker.groups }) n

  unfoldable pub remove_raft_group :
      (group_id replica_id : ℕ) → NodeWorker S N → NodeWorker S N × Replies
  unfolding drain deleted_replies leave_nodes
  remove_raft_group group_id replica_id n = elim (lookup group_id n.worker.groups) [
    | none ↦ (n, [])
    | some group ↦ (
      put_worker
          (record n.worker {
            groups = remove group_id n.worker.groups;
            node_manager = leave_nodes group.node_ids group_id n.worker.node_manager;
          })
          n,
      deleted_replies n.worker.node_id group_id (drain group.proposals).0,
    )
  ]

module _ {L S N : Type 0} (st : MultiRaftStorage S) (starts : Starts L S N) where
  -- The mark in the stored metadata of a group; an error of the storage is a panic.
  unfoldable pub mark_deleted : ℕ → RaftGroup N → Call S N (Unit {0})
  mark_deleted group_id group n =
      elim (starts.get_group_metadata group_id group.replica_id n.worker.replica_cache.storage) [
        | panic ↦ (n, panic)
        | err e ↦ (n, panic)
        | ok none ↦
            unwrap
              (write_storage (
                starts.set_group_metadata (record {
                  group_id = group_id;
                  replica_id = group.replica_id;
                  node_id = n.worker.node_id;
                  create_timestamp = 0;
                  leader_id = group.leader.replica_id;
                  deleted = true;
                })))
              n
        | ok (some meta) ↦
            if meta.deleted
            then (n, ok tt)
            else unwrap (write_storage (starts.set_group_metadata (record meta { deleted = true })))
                n
      ]

  -- The group stays where it is, without its proposals and marked.
  unfoldable pub remove_group_request :
      ℕ → NodeWorker S N → NodeWorker S N × Outcome Error (Unit {0}) × Replies
  unfolding drain deleted_replies mark_deleted
  remove_group_request group_id n = elim (lookup group_id n.worker.groups) [
    | none ↦ (n, ok tt, [])
    | some group ↦
        let (drained, left) = drain group.proposals in
        let group' : RaftGroup N = record group { proposals = left; deleted = true } in
        let (n', result) = mark_deleted group_id group' (put_group group_id group' n) in
        (n', result, deleted_replies n.worker.node_id group_id drained)
  ]

  -- The last two parts of the result are the answer to the client and what other clients are told.
  unfoldable pub handle_manage_message :
      ManageMessage
      → NodeWorker S N
      → NodeWorker S N × (Sender × Outcome Error (Unit {0})) × Replies
  unfolding create_raft_group remove_group_request
  handle_manage_message (create_group group_id replica_id replicas applied_hint tx) n =
      let (n', result) =
        create_raft_group st starts group_id replica_id replicas (some applied_hint) none
          (activate group_id n) in
      (n', (tx, result), [])
  handle_manage_message (remove_group group_id tx) n =
      let (n', result, told) = remove_group_request group_id n in (n', (tx, result), told)

  unfoldable pub campaign_raft :
      ℕ → Sender → NodeWorker S N → NodeWorker S N × (Sender × Outcome Error (Unit {0}))
  campaign_raft group_id tx n = elim (lookup group_id n.worker.groups) [
    | none ↦ (n, (tx, err (Error.raft_group (RaftGroupError.not_exist group_id n.worker.node_id))))
    | some group ↦
        let (result, raft_group) = starts.campaign group.raft_group in
        let group' : RaftGroup N = record group { raft_group = raft_group } in
        (put_group group_id group' n, (tx, map_err Error.raft result))
  ]

-- `read_index` is raft's, and the serializer a parameter.
unfoldable pub read_index_propose :
    {N : Type 0}
    → (List ℕ → N → N)
    → (ReadIndexContext → List ℕ)
    → ReadIndexContext
    → Sender
    → RaftGroup N
    → Outcome Error (Callback × RaftGroup N)
unfolding push_back
read_index_propose read_index serialize_read context tx g = ok (
  none,
  record g {
    raft_group = read_index (serialize_read context) g.raft_group;
    read_index_queue =
        push_back (record { uuid = context.uuid; read_index = none; context = none; tx = some tx })
          g.read_index_queue;
  },
)

module _ {S N : Type 0} where
  -- The group is made active before it is asked.
  unfoldable pub to_group :
      ℕ → Sender → (RaftGroup N → Outcome Error (Callback × RaftGroup N)) → Call S N Callback
  to_group group_id tx ask n = elim (lookup group_id n.worker.groups) [
    | none ↦
        (n, ok (some (tx, Error.raft_group (RaftGroupError.deleted n.worker.node_id group_id))))
    | some group ↦
        let n' = activate group_id n in
        elim (ask group) [
          | panic ↦ (n', panic)
          | err e ↦ (n', err e)
          | ok (callback, group') ↦ (put_group group_id group' n', ok callback)
        ]
  ]

  -- The serializers of the requests are parameters.
  unfoldable pub handle_propose :
      {W : Type 0}
      → RawNode N
      → (List ℕ → N → N)
      → (W → Outcome Error (List ℕ))
      → (MembershipRequestContext → List ℕ)
      → (ReadIndexContext → List ℕ)
      → ProposeMessage W
      → Call S N Callback
  unfolding to_group propose_write propose_membership_change read_index_propose
  handle_propose raw read_index serialize serialize_request serialize_read (write request) =
      to_group request.group_id request.tx (propose_write raw serialize request)
  handle_propose raw read_index serialize serialize_request serialize_read (membership request) =
      to_group request.group_id request.tx (propose_membership_change raw serialize_request request)
  handle_propose raw read_index serialize serialize_request serialize_read
        (read_index_data group_id context tx) =
      to_group group_id tx (read_index_propose read_index serialize_read context tx)
