-- ===== src/Rocks/Core/Log.antt =====
-- oceanraft/src/storage/rocks.rs, `RockStoreCore`: the calls on the log. The flag
-- `set_ignore_range_deletions` and the sync of a write are settings of the database.
use oceanraft.Common.{
  ℕ, suc, ◌+◌, min, Bool, true, false, List, [], ◌∷◌, ◌++◌, map, Option, some, none, ltb, ◌==◌,
  if◌then◌else◌, Outcome, ok, err, panic, or_panic,
}
use oceanraft.Types.{Entry, SnapshotMetadata}
use oceanraft.Types.Errors.{StorageError, RaftStorageError, RaftError, store}
use oceanraft.Rocks.Errors.{RocksdbErrorKind, to_storage_error, to_raft_error}
use oceanraft.Rocks.Keys.{
  Bytes, same_bytes, format_empty_key, format_first_index_key, format_last_index_key,
  format_entry_key,
}
use oceanraft.Rocks.Db.{log_cf, Put, ◌>>=◌, lift, or_err, unwrap, RocksDb, Prost}
use oceanraft.Rocks.Core.{
  RockStoreCore, to_be_bytes, from_be_bytes, flag_text, is_empty, get_snapshot_metadata,
  get_entry_meta,
}

-- `to_read_err`, passed on to `raft::Error` by the operator `?`.
unfoldable pub to_read_err : (is_log is_snap : Bool) → RocksdbErrorKind → RaftError
unfolding to_raft_error
to_read_err is_log is_snap kind = store (to_raft_error is_log is_snap kind)

-- The index of the last of a non-empty row of entries.
unfoldable pub last_of : Entry → List Entry → ℕ
last_of e [] = e.index
last_of e (e' ∷ es) = last_of e' es

module _ (prost : Prost) (core : RockStoreCore) where
  unfoldable pub entry_put : Entry → Put
  entry_put e = record {
    cf = log_cf;
    key = format_entry_key core.group_id e.index;
    value = prost.entry.encode e;
  }

  -- The batch of an append: the first index and the flag if the log is empty, the entries, and the
  -- last index.
  unfoldable pub append_batch : Bool → Entry → List Entry → List Put
  unfolding entry_put last_of
  append_batch empty e es =
      (if empty
        then (record {
          cf = log_cf;
          key = format_first_index_key core.group_id core.replica_id;
          value = to_be_bytes e.index;
        })
          ∷ (record {
            cf = log_cf;
            key = format_empty_key core.group_id core.replica_id;
            value = flag_text false;
          })
          ∷ []
        else [])
      ++ map entry_put (e ∷ es)
      ++ (record {
        cf = log_cf;
        key = format_last_index_key core.group_id core.replica_id;
        value = to_be_bytes (last_of e es);
      })
        ∷ []

  -- The loop of `entries` over what the iterator yields.
  unfoldable pub collect :
      (next high : ℕ)
      → List (Outcome RocksdbErrorKind (Bytes × Bytes))
      → Outcome RaftError (List Entry)
  collect next high [] = ok []
  collect next high (item ∷ items) =
      let rest = collect (suc next) high items in
      if next == high then ok [] else elim item [
        | ok (key, bytes) ↦
            if same_bytes (format_entry_key core.group_id next) key
            then elim (prost.entry.decode bytes) [
              | none ↦ panic
              | some e ↦ elim rest [ ok es ↦ ok (e ∷ es) | err e' ↦ err e' | panic ↦ panic ]
            ]
            else ok []
        | err kind ↦ panic
        | panic ↦ panic
      ]

module _ {S : Type 0} (rocks : RocksDb S) (prost : Prost) (core : RockStoreCore) where
  unfoldable pub append_unchecked : List Entry → S → S × Outcome StorageError (Unit {0})
  unfolding get_entry_meta append_batch
  append_unchecked [] = lift (ok tt)
  append_unchecked (e ∷ es) = do
    log_meta ← unwrap (get_entry_meta rocks prost core)
    unwrap (rocks.write (append_batch prost core log_meta.empty e es))

  unfoldable pub append : List Entry → S → S × Outcome StorageError (Unit {0})
  unfolding get_entry_meta append_batch to_storage_error
  append [] = lift (ok tt)
  append (e ∷ es) = do
    ent_meta ← or_err (to_storage_error true false) (get_entry_meta rocks prost core)
    if ltb e.index ent_meta.first_index
        then lift panic
        else if ltb (ent_meta.last_index + 1) e.index
        then lift panic
        else (do
          _ ←
              (if ltb ent_meta.last_index e.index
                then lift (ok tt)
                else or_err (to_storage_error true false) (
                    rocks.delete_range log_cf (format_entry_key core.group_id e.index)
                      (format_entry_key core.group_id (ent_meta.last_index + 1))))
          or_err (to_storage_error true false)
              (rocks.write (append_batch prost core ent_meta.empty e es)))

  -- `raft::util::limit_size` is raft's.
  unfoldable pub entries :
      (List Entry → Option ℕ → List Entry)
      → (low high : ℕ) → Option ℕ
      → S
      → S × Outcome RaftError (List Entry)
  unfolding get_entry_meta collect to_read_err
  entries limit_size low high max_size = do
    log_meta ← or_err (to_read_err true false) (get_entry_meta rocks prost core)
    if ltb low log_meta.first_index
        then lift (err (store RaftStorageError.compacted))
        else if ltb (log_meta.last_index + 1) high
        then lift panic
        else if ltb high low
        then lift panic
        else λ s.
            let (s', items) = rocks.iterate log_cf (format_entry_key core.group_id low) s in
            (do
              es ← lift (collect prost core low (min high (log_meta.last_index + 1)) items)
              lift (ok (limit_size es max_size)))
              s'

  unfoldable pub term : ℕ → S → S × Outcome RaftError ℕ
  unfolding get_snapshot_metadata get_entry_meta to_read_err
  term idx = do
    snap_meta ← unwrap (get_snapshot_metadata rocks prost core)
    if idx == snap_meta.index then lift (ok snap_meta.term) else (do
      log_meta ← or_err (to_read_err true false) (get_entry_meta rocks prost core)
      if ltb idx log_meta.first_index
          then lift (err (store RaftStorageError.compacted))
          else if ltb log_meta.last_index idx
          then lift (err (store RaftStorageError.unavailable))
          else (do
            found ←
                or_err (to_read_err true false)
                  (rocks.get log_cf (format_entry_key core.group_id idx))
            bytes ← lift (or_panic found)
            ent ← lift (or_panic (prost.entry.decode bytes))
            lift (ok ent.term)))

  -- `first_index` and `last_index`: from the snapshot if the log is empty, else from its key.
  unfoldable pub index_under : Bytes → (SnapshotMetadata → ℕ) → S → S × Outcome RaftError ℕ
  unfolding is_empty get_snapshot_metadata to_read_err from_be_bytes
  index_under key of_snapshot = do
    empty ← or_err (to_read_err true false) (is_empty rocks prost core)
    if empty
        then (do
          snap_meta ← or_err (to_read_err true false) (get_snapshot_metadata rocks prost core)
          lift (ok (of_snapshot snap_meta)))
        else (do
          found ← or_err (to_read_err true false) (rocks.get log_cf key)
          bytes ← lift (or_panic found)
          lift (from_be_bytes bytes))

  unfoldable pub first_index : S → S × Outcome RaftError ℕ
  unfolding index_under
  first_index =
      index_under (format_first_index_key core.group_id core.replica_id) (λ meta. meta.index + 1)

  unfoldable pub last_index : S → S × Outcome RaftError ℕ
  unfolding index_under
  last_index =
      index_under (format_last_index_key core.group_id core.replica_id) (λ meta. meta.index)
