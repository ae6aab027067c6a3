-- ===== src/Node/Round.antt =====
-- oceanraft/src/node.rs, `handle_readys`: the groups that are active are asked for what they have
-- ready, one after the other. The set of the active groups is a list without repetitions.
use oceanraft.Common.{
  ℕ, Bool, true, false, List, [], ◌∷◌, map, Option, none, some, ◌==◌, if◌then◌else◌, Map, lookup,
  insert, Outcome, ok, err, panic,
}
use oceanraft.Types.{Entry}
use oceanraft.Types.Errors.{Error, StorageError, storage}
use oceanraft.Types.Message.{MultiRaftMessage}
use oceanraft.Types.Reply.{Sender, Replies}
use oceanraft.Proposal.Reads.{ReadIndexContext}
use oceanraft.Apply.Batch.{ApplyData}
use oceanraft.Group.Raft.{RawNode, RaftGroup}
use oceanraft.Replica.Store.{MultiRaftStorage}
use oceanraft.Node.State.{NodeWorker, activate}
use oceanraft.Node.Lifecycle.{Starts}
use oceanraft.Node.Ready.{RaftReady, RaftGroupWriteRequest, Turn, handle_ready}

-- The node, what it has sent and answered, and what is to be written and applied.
pub record Round (S N : Type 0) : Type 0 where
  pub node : NodeWorker S N
  pub sent : List MultiRaftMessage
  pub answers : List (Sender × Option (List ℕ))
  pub told : Replies
  pub writes : Map RaftGroupWriteRequest
  pub applys : Map ApplyData

unfoldable pub is_fatal : Error → Bool
is_fatal (storage StorageError.storage_temporarily_unavailable) = false
is_fatal (storage e) = true
is_fatal e = false

module _ {S N : Type 0} where
  abbrev pub begin_turn : RaftGroup N → Round S N → Turn S N
  begin_turn group r = record {
    observer = record {
      group = group;
      replica_cache = r.node.worker.replica_cache;
      events = r.node.cache;
    };
    node_manager = r.node.worker.node_manager;
    sent = r.sent;
    answers = r.answers;
    told = r.told;
  }

  abbrev pub end_turn : ℕ → Turn S N → Round S N → Round S N
  end_turn group_id t r = record r {
    node = record r.node {
      worker = record r.node.worker {
        groups = insert group_id t.observer.group r.node.worker.groups;
        replica_cache = t.observer.replica_cache;
        node_manager = t.node_manager;
      };
      cache = t.observer.events;
    };
    sent = t.sent;
    answers = t.answers;
    told = t.told;
  }

  -- A storage that is away for a while makes the group wait; one that is not makes the node panic.
  unfoldable pub on_ready_error : ℕ → Error → Round S N → Outcome Error (Round S N)
  unfolding is_fatal
  on_ready_error group_id e r =
      if is_fatal e then panic else ok (record r { node = activate group_id r.node })

  unfoldable pub on_ready :
      ℕ
      → Outcome Error (RaftGroupWriteRequest × Option ApplyData)
      → Round S N
      → Outcome Error (Round S N)
  unfolding on_ready_error
  on_ready group_id panic r = panic
  on_ready group_id (err e) r = on_ready_error group_id e r
  on_ready group_id (ok (gwr, none)) r = ok (record r { writes = insert group_id gwr r.writes })
  on_ready group_id (ok (gwr, some apply)) r =
      ok (record r {
        writes = insert group_id gwr r.writes;
        applys = insert group_id apply r.applys;
      })

module _ {L S N : Type 0} (st : MultiRaftStorage S) (starts : Starts L S N) (raw : RawNode N)
    (raft_id : N → ℕ) (ready : N → RaftReady × N) (has_ready : N → Bool)
    (log_term : L → ℕ → Outcome StorageError ℕ) (size : Entry → ℕ)
    (decode : List ℕ → Option ReadIndexContext) where
  unfoldable pub ready_group : ℕ → RaftGroup N → Round S N → Outcome Error (Round S N)
  unfolding handle_ready on_ready
  ready_group group_id group r =
      if has_ready group.raft_group
      then (let (t, result) =
            handle_ready st starts raw raft_id ready log_term size decode r.node.worker.node_id
              (begin_turn group r) in
          on_ready group_id result (end_turn group_id t r))
      else ok r

  unfoldable pub ready_each : List ℕ → Round S N → Outcome Error (Round S N)
  unfolding ready_group
  ready_each [] r = ok r
  ready_each (group_id ∷ group_ids) r =
      elim (if group_id == 0 then ok r else (elim (lookup group_id r.node.worker.groups) [
        | none ↦ ok r
        | some group ↦ ready_group group_id group r
      ])) [ panic ↦ panic | err e ↦ err e | ok r' ↦ ready_each group_ids r' ]

  -- What is sent to the apply worker, and then written, are the last two parts of the result.
  unfoldable pub collect_readys : NodeWorker S N → Outcome Error (Round S N)
  unfolding ready_each
  collect_readys n =
      let drained = map (λ kv. kv.0) n.worker.active_groups in
      let n' = record n { worker = record n.worker { active_groups = [] } } in
      ready_each drained
        (record { node = n'; sent = []; answers = []; told = []; writes = []; applys = [] })
