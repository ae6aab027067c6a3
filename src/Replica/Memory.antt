-- ===== src/Replica/Memory.antt =====
-- oceanraft/src/storage/mem.rs, `MultiRaftMemoryStorage`: the groups, their metadata and their
-- replicas, in memory. The clock that stamps a new group is a parameter of the call.
use oceanraft.Common.{
  ℕ, Bool, false, List, [], ◌∷◌, ◌++◌, map, Option, none, some, ◌==◌, if◌then◌else◌, find,
  erase_first, Map, lookup, insert, Outcome, ok, err,
}
use oceanraft.Types.{ReplicaDesc, GroupMetadata, same_desc}
use oceanraft.Types.Errors.{StorageError}
use oceanraft.Storage.Mem.{MemStorageCore, new as mem_new}
use oceanraft.Replica.Store.{MultiRaftStorage}

pub record MultiRaftMemoryStorage (Context : Type 0) : Type 0 where
  pub node_id : ℕ
  pub trigger_storage_temp_unavailable : Bool
  pub group_storages : Map (MemStorageCore Context)
  pub group_metadatas : Map GroupMetadata
  pub replicas : Map (List ReplicaDesc)

-- The replicas of a group; a group without an entry has none.
abbrev pub replicas_of : ℕ → Map (List ReplicaDesc) → List ReplicaDesc
replicas_of group_id m = elim (lookup group_id m) [ none ↦ [] | some rs ↦ rs ]

-- Every call begins with this check.
abbrev pub available :
    {Context A : Type 0} → MultiRaftMemoryStorage Context → A → Outcome StorageError A
available s a =
    if s.trigger_storage_temp_unavailable
    then err StorageError.storage_temporarily_unavailable
    else ok a

module _ {Context : Type 0} where
  unfoldable pub new : ℕ → MultiRaftMemoryStorage Context
  new node_id = record {
    node_id = node_id;
    trigger_storage_temp_unavailable = false;
    group_storages = [];
    group_metadatas = [];
    replicas = [];
  }

  unfoldable pub trigger_storage_temp_unavailable :
      Bool → MultiRaftMemoryStorage Context → MultiRaftMemoryStorage Context
  trigger_storage_temp_unavailable enable s = record s { trigger_storage_temp_unavailable = enable }

  -- A group that is not known yet gets an empty log and its metadata.
  unfoldable pub group_storage :
      (now group_id replica_id : ℕ)
      → MultiRaftMemoryStorage Context
      → Outcome StorageError (MemStorageCore Context × MultiRaftMemoryStorage Context)
  unfolding mem_new
  group_storage now group_id replica_id s = available s (elim (lookup group_id s.group_storages) [
    | some store ↦ (store, s)
    | none ↦ (
      mem_new,
      record s {
        group_storages = insert group_id mem_new s.group_storages;
        group_metadatas =
            insert group_id
              (record {
                group_id = group_id;
                replica_id = replica_id;
                node_id = s.node_id;
                leader_id = 0;
                create_timestamp = now;
                deleted = false;
              })
              s.group_metadatas;
      },
    )
  ])

  unfoldable pub scan_group_metadata : MultiRaftMemoryStorage Context → List GroupMetadata
  scan_group_metadata s = map (λ kv. kv.1) s.group_metadatas

  unfoldable pub get_group_metadata : ℕ → MultiRaftMemoryStorage Context → Option GroupMetadata
  get_group_metadata group_id s = lookup group_id s.group_metadatas

  unfoldable pub set_group_metadata :
      GroupMetadata → MultiRaftMemoryStorage Context → MultiRaftMemoryStorage Context
  set_group_metadata meta s = record s {
    group_metadatas = insert meta.group_id meta s.group_metadatas;
  }

  unfoldable pub get_replica_desc :
      (group_id replica_id : ℕ)
      → MultiRaftMemoryStorage Context
      → Outcome StorageError (Option ReplicaDesc)
  get_replica_desc group_id replica_id s = available s (elim (lookup group_id s.replicas) [
    | none ↦ none
    | some rs ↦ find (λ r. r.replica_id == replica_id) rs
  ])

  unfoldable pub set_replica_desc :
      ℕ
      → ReplicaDesc
      → MultiRaftMemoryStorage Context
      → Outcome StorageError (MultiRaftMemoryStorage Context)
  set_replica_desc group_id desc s = available s (elim (lookup group_id s.replicas) [
    | none ↦ record s { replicas = insert group_id (desc ∷ []) s.replicas }
    | some rs ↦ elim (find (λ r. same_desc r desc) rs) [
      | some _ ↦ s
      | none ↦ record s { replicas = insert group_id (rs ++ desc ∷ []) s.replicas }
    ]
  ])

  unfoldable pub remove_replica_desc :
      (group_id replica_id : ℕ)
      → MultiRaftMemoryStorage Context
      → Outcome StorageError (MultiRaftMemoryStorage Context)
  remove_replica_desc group_id replica_id s = available s (elim (lookup group_id s.replicas) [
    | none ↦ s
    | some rs ↦ record s {
      replicas = insert group_id (erase_first (λ r. r.replica_id == replica_id) rs) s.replicas;
    }
  ])

  unfoldable pub scan_group_replica_desc :
      ℕ → MultiRaftMemoryStorage Context → Outcome StorageError (List ReplicaDesc)
  scan_group_replica_desc group_id s = available s (replicas_of group_id s.replicas)

  unfoldable pub replica_for_node :
      (group_id node_id : ℕ)
      → MultiRaftMemoryStorage Context
      → Outcome StorageError (Option ReplicaDesc)
  replica_for_node group_id node_id s = available s (elim (lookup group_id s.replicas) [
    | none ↦ none
    | some rs ↦ find (λ r. r.node_id == node_id) rs
  ])

  -- The implementation of the trait.
  abbrev pub memory : MultiRaftStorage (MultiRaftMemoryStorage Context)
  memory = record {
    get_replica_desc = get_replica_desc;
    replica_for_node = replica_for_node;
    set_replica_desc = set_replica_desc;
    remove_replica_desc = remove_replica_desc;
  }
