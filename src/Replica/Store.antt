-- ===== src/Replica/Store.antt =====
-- oceanraft/src/storage/mod.rs, the part of the trait `MultiRaftStorage` that knows the replicas, as
-- an interface over the state `S` of the storage. A call that ends in an error changes nothing.
use oceanraft.Common.{ℕ, ◌≡◌, Option, some, Outcome, ok}
use oceanraft.Types.{ReplicaDesc}
use oceanraft.Types.Errors.{StorageError}

pub record MultiRaftStorage (S : Type 0) : Type 0 where
  pub get_replica_desc : (group_id replica_id : ℕ) → S → Outcome StorageError (Option ReplicaDesc)
  pub replica_for_node : (group_id node_id : ℕ) → S → Outcome StorageError (Option ReplicaDesc)
  pub set_replica_desc : ℕ → ReplicaDesc → S → Outcome StorageError S
  pub remove_replica_desc : (group_id replica_id : ℕ) → S → Outcome StorageError S

-- What the trait promises of its answers: they are about the replica, or the node, that is asked for.
pub record IsStorage {S : Type 0} (storage : MultiRaftStorage S) : Type 0 where
  pub get_sound :
      (group_id replica_id : ℕ) (s : S) (d : ReplicaDesc)
      → storage.get_replica_desc group_id replica_id s ≡ ok (some d)
      → d.replica_id ≡ replica_id
  pub node_sound :
      (group_id node_id : ℕ) (s : S) (d : ReplicaDesc)
      → storage.replica_for_node group_id node_id s ≡ ok (some d)
      → d.node_id ≡ node_id
