-- ===== src/Rocks/Store/Api.antt =====
-- oceanraft/src/storage/rocks.rs, `MultiRaftStorage` for `RockStore`: each call of the store with its
-- error turned into one of the storage.
use oceanraft.Common.{ℕ, Bool, false, List, Option, Outcome}
use oceanraft.Types.{GroupMetadata, ReplicaDesc}
use oceanraft.Types.Errors.{StorageError}
use oceanraft.Rocks.Errors.{to_storage_error}
use oceanraft.Rocks.Keys.{Bytes}
use oceanraft.Rocks.Db.{or_err, RocksDb, Prost}
use oceanraft.Rocks.Core.{RockStoreCore}
use oceanraft.Rocks.Store as Store

module _ {S : Type 0} (rocks : RocksDb S) (prost : Prost) (is_utf8 : Bytes → Bool)
    (node_id : ℕ) where
  unfoldable pub group_storage :
      (now group_id replica_id : ℕ) → S → S × Outcome StorageError RockStoreCore
  unfolding Store.create_group_store_if_missing to_storage_error
  group_storage now group_id replica_id =
      or_err (to_storage_error false false)
        (Store.create_group_store_if_missing rocks prost is_utf8 node_id now group_id replica_id)

  unfoldable pub scan_group_metadata : S → S × Outcome StorageError (List GroupMetadata)
  unfolding Store.scan_groups to_storage_error
  scan_group_metadata =
      or_err (to_storage_error false false) (Store.scan_groups rocks prost is_utf8 node_id)

  unfoldable pub get_group_metadata :
      (group_id replica_id : ℕ) → S → S × Outcome StorageError (Option GroupMetadata)
  unfolding Store.get_group_metadata to_storage_error
  get_group_metadata group_id replica_id =
      or_err (to_storage_error false false)
        (Store.get_group_metadata rocks prost is_utf8 node_id group_id replica_id)

  unfoldable pub set_group_metadata : GroupMetadata → S → S × Outcome StorageError (Unit {0})
  unfolding Store.set_group_metadata to_storage_error
  set_group_metadata meta =
      or_err (to_storage_error false false)
        (Store.set_group_metadata rocks prost is_utf8 node_id meta)

  unfoldable pub get_replica_desc :
      (group_id replica_id : ℕ) → S → S × Outcome StorageError (Option ReplicaDesc)
  unfolding Store.get_replica_desc to_storage_error
  get_replica_desc group_id replica_id =
      or_err (to_storage_error false false)
        (Store.get_replica_desc rocks prost is_utf8 node_id group_id replica_id)

  unfoldable pub set_replica_desc : ℕ → ReplicaDesc → S → S × Outcome StorageError (Unit {0})
  unfolding Store.set_replica_desc to_storage_error
  set_replica_desc group_id rd =
      or_err (to_storage_error false false)
        (Store.set_replica_desc rocks prost is_utf8 node_id group_id rd)

  unfoldable pub remove_replica_desc :
      (group_id replica_id : ℕ) → S → S × Outcome StorageError (Unit {0})
  unfolding Store.remove_replica_desc to_storage_error
  remove_replica_desc group_id replica_id =
      or_err (to_storage_error false false)
        (Store.remove_replica_desc rocks prost is_utf8 node_id group_id replica_id)

  unfoldable pub scan_group_replica_desc : ℕ → S → S × Outcome StorageError (List ReplicaDesc)
  unfolding Store.scan_group_replica_desc to_storage_error
  scan_group_replica_desc group_id =
      or_err (to_storage_error false false)
        (Store.scan_group_replica_desc rocks prost is_utf8 node_id group_id)

  unfoldable pub replica_for_node :
      (group_id target_node_id : ℕ) → S → S × Outcome StorageError (Option ReplicaDesc)
  unfolding Store.search_replica_desc_on_node to_storage_error
  replica_for_node group_id target_node_id =
      or_err (to_storage_error false false)
        (Store.search_replica_desc_on_node rocks prost is_utf8 node_id group_id target_node_id)
