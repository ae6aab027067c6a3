-- ===== src/Rocks/Store.antt =====
-- oceanraft/src/storage/rocks.rs, `RockStore`: the groups and replicas of a node in the database.
-- The check that a row of bytes is a text, and the clock, are parameters.
pub mod Search
pub mod Api
pub mod Again
use oceanraft.Common.{
  ℕ, ◌≡◌, Bool, true, false, List, [], ◌∷◌, ◌++◌, Option, some, none, ◌==◌, if◌then◌else◌, Outcome,
  ok, err, panic, or_panic,
}
use oceanraft.Types.{GroupMetadata, ReplicaDesc}
use oceanraft.Types.Errors.{StorageError}
use oceanraft.Rocks.Errors.{RocksdbErrorKind, to_storage_error}
use oceanraft.Rocks.Keys.{
  Bytes, underscore, digits, format_replica_desc_key, format_replica_desc_seek_key,
  format_group_replica_desc_seek_key, replica_desc_prefix,
}
use oceanraft.Rocks.Db.{Cf, metadata_cf, Put, Action, ◌>>=◌, lift, or_err, RocksDb, Codec, Prost}
use oceanraft.Rocks.Core.{RockStoreCore, new}

-- "gs"
abbrev group_store_prefix : Bytes
group_store_prefix = 103 ∷ 115 ∷ []

unfoldable pub group_store_key : (group_id replica_id : ℕ) → Bytes
group_store_key group_id replica_id =
    group_store_prefix ++ underscore ++ digits group_id ++ underscore ++ digits replica_id

-- `str::starts_with`
abbrev pub starts_with : Bytes → Bytes → Bool
starts_with key [] = true
starts_with [] (p ∷ ps) = false
starts_with (k ∷ ks) (p ∷ ps) = if k == p then starts_with ks ps else false

-- The loop of the scans: what the iterator yields as long as the keys begin with the prefix.
unfoldable pub scan :
    {A : Type 0}
    → Codec A
    → (Bytes → Bool)
    → Bytes
    → List (Outcome RocksdbErrorKind (Bytes × Bytes))
    → Outcome RocksdbErrorKind (List A)
scan codec is_utf8 prefix [] = ok []
scan codec is_utf8 prefix (err kind ∷ items) = err kind
scan codec is_utf8 prefix (panic ∷ items) = panic
scan codec is_utf8 prefix (ok (key, value) ∷ items) =
    let rest = scan codec is_utf8 prefix items in
    if is_utf8 key
    then (if starts_with key prefix
        then elim (codec.decode value) [
          | none ↦ panic
          | some a ↦ elim rest [ ok found ↦ ok (a ∷ found) | err kind ↦ err kind | panic ↦ panic ]
        ]
        else ok [])
    else ok []

-- The loop of the search: the first replica of the node among the keys that begin with the prefix.
unfoldable pub search :
    Codec ReplicaDesc
    → (Bytes → Bool)
    → Bytes
    → ℕ
    → List (Outcome RocksdbErrorKind (Bytes × Bytes))
    → Outcome RocksdbErrorKind (Option ReplicaDesc)
search codec is_utf8 seek node_id [] = ok none
search codec is_utf8 seek node_id (err kind ∷ items) = err kind
search codec is_utf8 seek node_id (panic ∷ items) = panic
search codec is_utf8 seek node_id (ok (key, value) ∷ items) =
    let rest = search codec is_utf8 seek node_id items in
    if is_utf8 key
    then (if starts_with key seek
        then elim (codec.decode value) [
          | none ↦ panic
          | some rd ↦ (if rd.node_id == node_id then ok (some rd) else rest)
        ]
        else ok none)
    else ok none

module _ {S : Type 0} (rocks : RocksDb S) (prost : Prost) (is_utf8 : Bytes → Bool)
    (node_id : ℕ) where
  -- `get_cf_opt` and a `decode` of what is there.
  unfoldable pub get_decoded :
      {A : Type 0} → Codec A → Bytes → S → S × Outcome RocksdbErrorKind (Option A)
  get_decoded codec key = do
    found ← rocks.get metadata_cf key
    lift (elim found [
      | none ↦ ok none
      | some bytes ↦ elim (codec.decode bytes) [ none ↦ panic | some a ↦ ok (some a) ]
    ])

  -- `now` is the time in seconds that the clock shows.
  unfoldable pub create_group_store_if_missing :
      (now group_id replica_id : ℕ) → S → S × Outcome RocksdbErrorKind RockStoreCore
  unfolding new
  create_group_store_if_missing now group_id replica_id =
      let core : RockStoreCore = record {
        node_id = node_id;
        group_id = group_id;
        replica_id = replica_id;
      } in
      let key = group_store_key group_id replica_id in
      rocks.get metadata_cf key >>= λ found. elim found [
        | some bytes ↦ lift (ok core)
        | none ↦ (do
          core' ← new rocks prost core
          _ ← rocks.put (record {
            cf = metadata_cf;
            key = key;
            value = prost.group_metadata.encode (record {
              group_id = group_id;
              replica_id = replica_id;
              node_id = node_id;
              leader_id = 0;
              create_timestamp = now;
              deleted = false;
            });
          })
          lift (ok core'))
      ]

  unfoldable pub scan_groups : S → S × Outcome RocksdbErrorKind (List GroupMetadata)
  unfolding scan
  scan_groups s =
      let prefix = group_store_prefix ++ underscore in
      let (s', items) = rocks.iterate metadata_cf prefix s in
      (s', scan prost.group_metadata is_utf8 prefix items)

  unfoldable pub get_group_metadata :
      (group_id replica_id : ℕ) → S → S × Outcome RocksdbErrorKind (Option GroupMetadata)
  unfolding get_decoded
  get_group_metadata group_id replica_id =
      get_decoded prost.group_metadata (group_store_key group_id replica_id)

  unfoldable pub set_group_metadata : GroupMetadata → S → S × Outcome RocksdbErrorKind (Unit {0})
  set_group_metadata meta = rocks.put (record {
    cf = metadata_cf;
    key = group_store_key meta.group_id meta.replica_id;
    value = prost.group_metadata.encode meta;
  })

  unfoldable pub get_replica_desc :
      (group_id replica_id : ℕ) → S → S × Outcome RocksdbErrorKind (Option ReplicaDesc)
  unfolding get_decoded
  get_replica_desc group_id replica_id =
      get_decoded prost.replica_desc (format_replica_desc_key group_id replica_id)

  unfoldable pub set_replica_desc : ℕ → ReplicaDesc → S → S × Outcome RocksdbErrorKind (Unit {0})
  set_replica_desc group_id rd = rocks.put (record {
    cf = metadata_cf;
    key = format_replica_desc_key group_id rd.replica_id;
    value = prost.replica_desc.encode rd;
  })

  unfoldable pub remove_replica_desc :
      (group_id replica_id : ℕ) → S → S × Outcome RocksdbErrorKind (Unit {0})
  remove_replica_desc group_id replica_id =
      rocks.delete metadata_cf (format_replica_desc_key group_id replica_id)

  unfoldable pub scan_replica_desc : S → S × Outcome RocksdbErrorKind (List ReplicaDesc)
  unfolding scan
  scan_replica_desc s =
      let prefix = format_replica_desc_seek_key in
      let (s', items) = rocks.iterate metadata_cf prefix s in
      (s', scan prost.replica_desc is_utf8 prefix items)

  unfoldable pub scan_group_replica_desc : ℕ → S → S × Outcome RocksdbErrorKind (List ReplicaDesc)
  unfolding scan
  scan_group_replica_desc group_id s =
      let prefix = replica_desc_prefix ++ underscore ++ digits group_id in
      let (s', items) = rocks.iterate metadata_cf prefix s in
      (s', scan prost.replica_desc is_utf8 prefix items)

  unfoldable pub search_replica_desc_on_node :
      (group_id target_node_id : ℕ) → S → S × Outcome RocksdbErrorKind (Option ReplicaDesc)
  unfolding search
  search_replica_desc_on_node group_id target_node_id s =
      let seek = format_group_replica_desc_seek_key group_id in
      let (s', items) = rocks.iterate metadata_cf seek s in
      (s', search prost.replica_desc is_utf8 seek target_node_id items)
