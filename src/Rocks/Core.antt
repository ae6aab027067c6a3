-- ===== src/Rocks/Core.antt =====
-- oceanraft/src/storage/rocks.rs, `RockStoreCore`: what it reads and writes under its own keys.
pub mod Log
pub mod State
pub mod Data
pub mod Represents
pub mod Reads
pub mod Batch
pub mod Append
pub mod Range
pub mod Install
pub mod Rereads
use oceanraft.Common.{
  ℕ, zero, suc, ◌+◌, ◌*◌, ◌≡◌, Bool, true, false, List, [], ◌∷◌, ◌++◌, Option, some, none, ◌==◌,
  if◌then◌else◌, length, Outcome, ok, err, panic, or_panic,
}
use Prim.Native.Nat.{◌/◌, ◌%◌}
use oceanraft.Types.{
  Entry, HardState, ConfState, SnapshotMetadata, default_conf_state, default_hard_state,
  default_metadata,
}
use oceanraft.Types.Errors.{StorageError}
use oceanraft.Rocks.Errors.{RocksdbErrorKind, to_storage_error}
use oceanraft.Rocks.Keys.{
  Bytes, same_bytes, format_hardstate_key, format_confstate_key, format_empty_key,
  format_first_index_key, format_last_index_key, format_entry_key, format_applied_key,
  format_snapshot_metadata_key,
}
use oceanraft.Rocks.Db.{
  Cf, metadata_cf, log_cf, Put, Action, ◌>>=◌, lift, or_err, unwrap, RocksDb, Codec, Prost,
}

pub record EntryMetadata : Type 0 where
  pub first_index : ℕ
  pub last_index : ℕ
  pub empty : Bool

-- The rest of the fields are the database and the two sides of the snapshots: parameters.
pub record RockStoreCore : Type 0 where
  pub node_id : ℕ
  pub group_id : ℕ
  pub replica_id : ℕ

-- `u64::to_be_bytes` and `u64::from_be_bytes`
unfoldable pub be_bytes : ℕ → ℕ → Bytes
be_bytes zero n = []
be_bytes (suc width) n = be_bytes width (n / 256) ++ (n % 256) ∷ []

unfoldable pub be_value : ℕ → Bytes → ℕ
be_value acc [] = acc
be_value acc (b ∷ bs) = be_value (acc * 256 + b) bs

unfoldable pub to_be_bytes : ℕ → Bytes
to_be_bytes n = be_bytes 8 n

unfoldable pub from_be_bytes : {E : Type 0} → Bytes → Outcome E ℕ
from_be_bytes bs = if length bs == 8 then ok (be_value 0 bs) else panic

-- "true" and "false"
abbrev true_text : Bytes
true_text = 116 ∷ 114 ∷ 117 ∷ 101 ∷ []

abbrev false_text : Bytes
false_text = 102 ∷ 97 ∷ 108 ∷ 115 ∷ 101 ∷ []

unfoldable pub flag_text : Bool → Bytes
flag_text true = true_text
flag_text false = false_text

unfoldable pub parse_flag : {E : Type 0} → Bytes → Outcome E Bool
parse_flag text =
    if same_bytes text true_text
    then ok true
    else if same_bytes text false_text
    then ok false
    else panic

module _ {S : Type 0} (rocks : RocksDb S) (prost : Prost) (core : RockStoreCore) where
  -- What is read under a key of the metadata, or the default.
  unfoldable pub read_or : {A : Type 0} → Codec A → A → Bytes → Action S RocksdbErrorKind A
  read_or codec default key = do
    found ← rocks.get metadata_cf key
    lift (elim found [ none ↦ ok default | some bytes ↦ or_panic (codec.decode bytes) ])

  unfoldable pub get_hard_state : Action S RocksdbErrorKind HardState
  unfolding read_or
  get_hard_state =
      read_or prost.hard_state default_hard_state
        (format_hardstate_key core.group_id core.replica_id)

  unfoldable pub get_conf_state : Action S RocksdbErrorKind ConfState
  unfolding read_or
  get_conf_state =
      read_or prost.conf_state default_conf_state
        (format_confstate_key core.group_id core.replica_id)

  unfoldable pub get_snapshot_metadata : Action S RocksdbErrorKind SnapshotMetadata
  unfolding read_or
  get_snapshot_metadata =
      read_or prost.metadata default_metadata
        (format_snapshot_metadata_key core.group_id core.replica_id)

  unfoldable pub set_snapshot_metadata : SnapshotMetadata → Action S RocksdbErrorKind (Unit {0})
  set_snapshot_metadata meta = rocks.put (record {
    cf = metadata_cf;
    key = format_snapshot_metadata_key core.group_id core.replica_id;
    value = prost.metadata.encode meta;
  })

  unfoldable pub set_empty_flag : Bool → Action S RocksdbErrorKind (Unit {0})
  set_empty_flag flag = rocks.put (record {
    cf = log_cf;
    key = format_empty_key core.group_id core.replica_id;
    value = flag_text flag;
  })

  unfoldable pub is_empty : Action S RocksdbErrorKind Bool
  unfolding parse_flag
  is_empty = do
    found ← rocks.get log_cf (format_empty_key core.group_id core.replica_id)
    lift (elim found [ none ↦ panic | some bytes ↦ parse_flag bytes ])

  unfoldable pub get_entry : ℕ → Action S RocksdbErrorKind Entry
  get_entry index = do
    found ← rocks.get log_cf (format_entry_key core.group_id index)
    lift (elim found [ none ↦ panic | some bytes ↦ or_panic (prost.entry.decode bytes) ])

  -- What a multi-get found under one of its keys: nothing there is a panic.
  unfoldable pub expect_found :
      Outcome RocksdbErrorKind (Option Bytes) → Action S RocksdbErrorKind Bytes
  expect_found (ok none) = lift panic
  expect_found (ok (some bytes)) = lift (ok bytes)
  expect_found (err e) = lift (err e)
  expect_found panic = lift panic

  unfoldable pub entry_meta_of :
      List (Outcome RocksdbErrorKind (Option Bytes)) → Action S RocksdbErrorKind EntryMetadata
  unfolding expect_found parse_flag get_snapshot_metadata from_be_bytes
  entry_meta_of (flag ∷ first ∷ last ∷ []) = do
    text ← expect_found flag
    empty ← lift (parse_flag text)
    if empty
        then (do
          meta ← get_snapshot_metadata
          lift
              (ok (record { first_index = meta.index + 1; last_index = meta.index; empty = true })))
        else (do
          bytes₁ ← expect_found first
          first_index ← lift (from_be_bytes bytes₁)
          bytes₂ ← expect_found last
          last_index ← lift (from_be_bytes bytes₂)
          lift (ok (record { first_index = first_index; last_index = last_index; empty = false })))
  entry_meta_of _ = lift panic

  unfoldable pub get_entry_meta : Action S RocksdbErrorKind EntryMetadata
  unfolding entry_meta_of
  get_entry_meta s =
      let keys =
        format_empty_key core.group_id core.replica_id
        ∷ format_first_index_key core.group_id core.replica_id
        ∷ format_last_index_key core.group_id core.replica_id
        ∷ [] in
      let (s', results) = rocks.multi_get log_cf keys s in entry_meta_of results s'

  -- The batch of `RockStoreCore::new`: the default states.
  unfoldable pub new_batch : List Put
  new_batch =
      (record {
        cf = metadata_cf;
        key = format_hardstate_key core.group_id core.replica_id;
        value = prost.hard_state.encode default_hard_state;
      })
      ∷ (record {
        cf = metadata_cf;
        key = format_confstate_key core.group_id core.replica_id;
        value = prost.conf_state.encode default_conf_state;
      })
      ∷ (record {
        cf = metadata_cf;
        key = format_snapshot_metadata_key core.group_id core.replica_id;
        value = prost.metadata.encode default_metadata;
      })
      ∷ []

  -- `RockStoreCore::new`
  unfoldable pub new : Action S RocksdbErrorKind RockStoreCore
  unfolding set_empty_flag
  new = do _ ← set_empty_flag true; _ ← rocks.write new_batch; lift (ok core)
