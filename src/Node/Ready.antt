-- ===== src/Node/Ready.antt =====
-- oceanraft/src/group.rs, `RaftGroup::handle_ready`: what raft has made ready is sent, answered and
-- handed to the apply worker, and the rest of it to the write. Raft's ready, and the terms of a log,
-- are parameters.
use oceanraft.Common.{
  ℕ, true, List, [], ◌∷◌, ◌++◌, Option, none, some, ◌==◌, if◌then◌else◌, Outcome, ok, err, panic,
  map_err,
}
use oceanraft.Common.Action.{Action, and_then, ◌>>=◌, lift}
use oceanraft.Types.{ReplicaDesc, Entry}
use oceanraft.Types.Errors.{Error, StorageError, storage}
use oceanraft.Types.Message.{Message, MultiRaftMessage}
use oceanraft.Types.Reply.{Sender, Replies}
use oceanraft.Proposal.Reads.{ReadState, ReadIndexContext, on_reads_ready}
use oceanraft.Apply.Batch.{ApplyData}
use oceanraft.Group.Raft.{RawNode, RaftGroup}
use oceanraft.Group.Create.{handle_can_apply_entries}
use oceanraft.Group.Write.{Ready}
use oceanraft.Replica.Store.{MultiRaftStorage}
use oceanraft.Replica.Cache.{ReplicaCache, replica_for_node, cache_replica_desc}
use oceanraft.Transport.{Routes, send_messages}
use oceanraft.Node.Manager.{NodeManager}
use oceanraft.Node.Membership.{desc_of}
use oceanraft.Node.Lifecycle.{Starts}
use oceanraft.Node.Leader.{SoftState, Observer, handle_soft_state_change}

-- Raft's ready: what this call takes out of it, and the rest.
pub record RaftReady : Type 0 where
  pub messages : List Message
  pub ss : Option SoftState
  pub read_states : List ReadState
  pub committed_entries : List Entry
  pub rest : Ready

pub record RaftGroupWriteRequest : Type 0 where
  pub replica_id : ℕ
  pub ready : Option Ready

-- What the call reads and changes, with what it has sent and answered.
pub record Turn (S N : Type 0) : Type 0 where
  pub observer : Observer S N
  pub node_manager : NodeManager
  pub sent : List MultiRaftMessage
  pub answers : List (Sender × Option (List ℕ))
  pub told : Replies

abbrev pub Step : Type 0 → Type 0 → Type 0 → Type 0
Step S N A = Action (Turn S N) Error A

module _ {S N : Type 0} where
  abbrev pub put_group : RaftGroup N → Turn S N → Turn S N
  put_group g w = record w { observer = record w.observer { group = g } }

  abbrev pub on_replicas :
      {A : Type 0} → (ReplicaCache S → Outcome StorageError A × ReplicaCache S) → Step S N A
  on_replicas f w =
      let (result, c) = f w.observer.replica_cache in
      (record w { observer = record w.observer { replica_cache = c } }, map_err storage result)

  -- The replica on this node must be the one that raft drives; one that is missing is repaired.
  unfoldable pub known_replica :
      MultiRaftStorage S → (node_id raft_id : ℕ) → Option ReplicaDesc → Step S N ReplicaDesc
  unfolding cache_replica_desc
  known_replica st node_id raft_id (some desc) w =
      if desc.replica_id == raft_id then (w, ok desc) else (w, panic)
  known_replica st node_id raft_id none w =
      let desc = desc_of w.observer.group.group_id node_id raft_id in
      and_then (on_replicas (cache_replica_desc st w.observer.group.group_id desc true) w)
        (λ _. lift (ok desc))

  -- A panic on invalid reads; the rounds that serve them are enough.
  unfoldable pub take_reads :
      (List ℕ → Option ReadIndexContext) → List ReadState → Step S N (Unit {0})
  unfolding on_reads_ready
  take_reads decode [] w = (w, ok tt)
  take_reads decode (r ∷ rs) w =
      elim (on_reads_ready decode (r ∷ rs) w.observer.group.read_index_queue) [
        | panic ↦ (w, panic)
        | err e ↦ (w, panic)
        | ok none ↦ (w, panic)
        | ok (some (answers, queue)) ↦ (
          put_group (record w.observer.group { read_index_queue = queue })
              (record w { answers = w.answers ++ answers }),
          ok tt,
        )
      ]

  unfoldable pub send_ready : MultiRaftStorage S → ℕ → List Message → Step S N (Unit {0})
  unfolding send_messages
  send_ready st node_id [] w = (w, ok tt)
  send_ready st node_id (m ∷ ms) w =
      let routes : Routes S = record {
        replica_cache = w.observer.replica_cache;
        node_mgr = w.node_manager;
      } in
      elim (send_messages st node_id w.observer.group.group_id (m ∷ ms) routes) [
        | panic ↦ (w, panic)
        | err e ↦ (w, panic)
        | ok (sent, routes') ↦ (
          record w {
            observer = record w.observer { replica_cache = routes'.replica_cache };
            node_manager = routes'.node_mgr;
            sent = w.sent ++ sent;
          },
          ok tt,
        )
      ]

  abbrev pub settle_apply :
      Turn S N
      → Outcome StorageError (ApplyData × Replies) × RaftGroup N
      → Turn S N × Outcome Error (Option ApplyData)
  settle_apply w (ok (apply, told), g) =
      (put_group g (record w { told = w.told ++ told }), ok (some apply))
  settle_apply w (err e, g) = (put_group g w, err (storage e))
  settle_apply w (panic, g) = (put_group g w, panic)

module _ {L S N : Type 0} (st : MultiRaftStorage S) (starts : Starts L S N) (raw : RawNode N)
    (raft_id : N → ℕ) (ready : N → RaftReady × N) (log_term : L → ℕ → Outcome StorageError ℕ)
    (size : Entry → ℕ) (decode : List ℕ → Option ReadIndexContext) (node_id : ℕ) where
  unfoldable pub take_soft_state : Option SoftState → Step S N (Unit {0})
  unfolding handle_soft_state_change
  take_soft_state none w = (w, ok tt)
  take_soft_state (some ss) w = elim (handle_soft_state_change st starts ss w.observer) [
    | panic ↦ (w, panic)
    | err e ↦ (w, panic)
    | ok observer ↦ (record w { observer = observer }, ok tt)
  ]

  unfoldable pub make_apply : L → ℕ → List Entry → Step S N (Option ApplyData)
  unfolding handle_can_apply_entries
  make_apply log replica_id [] w = (w, ok none)
  make_apply log replica_id (e ∷ es) w =
      settle_apply w
        (handle_can_apply_entries raw size (log_term log) replica_id (e ∷ es) w.observer.group)

  -- The replica and the log come first: an error of theirs leaves raft its ready.
  unfoldable pub prepare : Step S N (ReplicaDesc × L)
  unfolding known_replica replica_for_node
  prepare w =
      (do
        found ← on_replicas (replica_for_node st w.observer.group.group_id node_id)
        desc ← known_replica st node_id (raft_id w.observer.group.raft_group) found
        log ← on_replicas (λ c.
            let (result, s) =
              starts.group_storage w.observer.group.group_id desc.replica_id c.storage in
            (result, record c { storage = s }))
        lift (ok (desc, log)))
        w

  unfoldable pub take_ready : ReplicaDesc → L → Step S N (RaftGroupWriteRequest × Option ApplyData)
  unfolding send_ready take_soft_state take_reads make_apply
  take_ready desc log w =
      let (rd, n) = ready w.observer.group.raft_group in
      (do
        _ ← send_ready st node_id rd.messages
        _ ← take_soft_state rd.ss
        _ ← take_reads decode rd.read_states
        apply ← make_apply log desc.replica_id rd.committed_entries
        lift (ok (record { replica_id = desc.replica_id; ready = some rd.rest }, apply)))
        (put_group (record w.observer.group { raft_group = n }) w)

  unfoldable pub handle_ready : Step S N (RaftGroupWriteRequest × Option ApplyData)
  unfolding prepare take_ready
  handle_ready = do prepared ← prepare; take_ready prepared.0 prepared.1
