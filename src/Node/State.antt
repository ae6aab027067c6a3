-- ===== src/Node/State.antt =====
-- oceanraft/src/node.rs: the state of a node, and oceanraft/src/event.rs: the events that wait to be
-- sent. Each helper works on one part of the state.
use oceanraft.Common.{ℕ, List, [], ◌∷◌, ◌++◌, Map, insert, Outcome, ok, err, panic, map_err}
use oceanraft.Common.Action.{Action}
use oceanraft.Types.Errors.{Error, StorageError, storage}
use oceanraft.Group.State.{GroupState}
use oceanraft.Node.Manager.{NodeManager, add_group}
use oceanraft.Node.Membership.{Worker}
use oceanraft.Replica.Cache.{ReplicaCache}

pub data Event : Type 0 where
  leader_election : (group_id replica_id leader_id : ℕ) → Event
  group_create : (group_id replica_id : ℕ) → Event

-- `cache` are the events that are not sent yet.
pub record NodeWorker (S N : Type 0) : Type 0 where
  pub worker : Worker S N
  pub shared_states : Map GroupState
  pub cache : List Event

-- The parts of the node that a call works on, one at a time.
abbrev pub Call : Type 0 → Type 0 → Type 0 → Type 0
Call S N A = Action (NodeWorker S N) Error A

-- A write that fails changes nothing.
abbrev pub written : {S : Type 0} → S → Outcome StorageError S → Outcome StorageError (Unit {0}) × S
written s (ok s') = (ok tt, s')
written s (err e) = (err e, s)
written s panic = (panic, s)

module _ {S N : Type 0} where
  abbrev pub put_worker : Worker S N → NodeWorker S N → NodeWorker S N
  put_worker w n = record n { worker = w }

  abbrev pub on_cache :
      {A : Type 0} → (ReplicaCache S → Outcome StorageError A × ReplicaCache S) → Call S N A
  on_cache f n =
      let (result, c) = f n.worker.replica_cache in
      (put_worker (record n.worker { replica_cache = c }) n, map_err storage result)

  abbrev pub read_storage : {A : Type 0} → (S → Outcome StorageError A) → Call S N A
  read_storage f n = (n, map_err storage (f n.worker.replica_cache.storage))

  abbrev pub on_storage : {A : Type 0} → (S → Outcome StorageError A × S) → Call S N A
  on_storage f = on_cache (λ c. let (result, s) = f c.storage in (result, record c { storage = s }))

  abbrev pub write_storage : (S → Outcome StorageError S) → Call S N (Unit {0})
  write_storage f = on_storage (λ s. written s (f s))

  abbrev pub managed :
      NodeWorker S N → Outcome Error NodeManager → NodeWorker S N × Outcome Error (Unit {0})
  managed n (ok m) = (put_worker (record n.worker { node_manager = m }) n, ok tt)
  managed n (err e) = (n, err e)
  managed n panic = (n, panic)

  abbrev pub join : ℕ → ℕ → Call S N (Unit {0})
  join node_id group_id n = managed n (add_group node_id group_id n.worker.node_manager)

  abbrev pub activate : ℕ → NodeWorker S N → NodeWorker S N
  activate group_id n =
      put_worker (record n.worker { active_groups = insert group_id tt n.worker.active_groups }) n

  unfoldable pub push : Event → NodeWorker S N → NodeWorker S N
  push event n = record n { cache = n.cache ++ event ∷ [] }
