-- ===== src/Rocks/Core/State.antt =====
-- oceanraft/src/storage/rocks.rs, `RockStoreCore`: the states of raft, the applied index and the
-- snapshots. What the user's state machine does with a snapshot is a parameter.
use oceanraft.Common.{
  ℕ, ◌+◌, max, Bool, true, false, List, [], ◌∷◌, Option, some, none, ltb, ◌==◌, if◌then◌else◌,
  Outcome, ok, err, panic, or_panic,
}
use oceanraft.Types.{
  Snapshot, HardState, ConfState, SnapshotMetadata, default_hard_state, default_conf_state,
}
use oceanraft.Types.Errors.{StorageError, RaftError}
use oceanraft.Storage.Mem.{RaftState}
use oceanraft.Rocks.Errors.{RocksdbErrorKind, to_storage_error}
use oceanraft.Rocks.Keys.{
  Bytes, format_hardstate_key, format_confstate_key, format_entry_key, format_applied_key,
}
use oceanraft.Rocks.Db.{metadata_cf, log_cf, ◌>>=◌, lift, or_err, unwrap, RocksDb, Codec, Prost}
use oceanraft.Rocks.Core.{
  RockStoreCore, EntryMetadata, to_be_bytes, from_be_bytes, get_hard_state, get_conf_state,
  get_entry, get_snapshot_metadata, set_snapshot_metadata, get_entry_meta,
}
use oceanraft.Rocks.Core.Log.{to_read_err}

module _ {S : Type 0} (rocks : RocksDb S) (prost : Prost) (core : RockStoreCore) where
  unfoldable pub set_hardstate : HardState → S → S × Outcome StorageError (Unit {0})
  unfolding to_storage_error
  set_hardstate hs = or_err (to_storage_error true false) (
      rocks.put (record {
        cf = metadata_cf;
        key = format_hardstate_key core.group_id core.replica_id;
        value = prost.hard_state.encode hs;
      }))

  unfoldable pub set_hardstate_commit : ℕ → S → S × Outcome StorageError (Unit {0})
  unfolding get_hard_state set_hardstate
  set_hardstate_commit commit = do
    hs ← unwrap (get_hard_state rocks prost core)
    set_hardstate (record hs { commit = commit })

  unfoldable pub set_confstate : ConfState → S → S × Outcome StorageError (Unit {0})
  unfolding to_storage_error
  set_confstate cs = or_err (to_storage_error true false) (
      rocks.put (record {
        cf = metadata_cf;
        key = format_confstate_key core.group_id core.replica_id;
        value = prost.conf_state.encode cs;
      }))

  unfoldable pub set_applied : ℕ → S → S × Outcome StorageError (Unit {0})
  unfolding to_storage_error to_be_bytes
  set_applied index = or_err (to_storage_error true false) (
      rocks.put (record {
        cf = metadata_cf;
        key = format_applied_key core.group_id;
        value = to_be_bytes index;
      }))

  unfoldable pub get_applied : S → S × Outcome StorageError ℕ
  unfolding to_storage_error from_be_bytes
  get_applied = do
    found ←
        or_err (to_storage_error true false)
          (rocks.get metadata_cf (format_applied_key core.group_id))
    lift (elim found [ none ↦ ok 0 | some bytes ↦ from_be_bytes bytes ])

  -- One answer of the multi-get of `initial_state`: the default, or what the bytes merge to.
  unfoldable pub state_of :
      {A : Type 0}
      → Codec A
      → A
      → Outcome RocksdbErrorKind (Option Bytes)
      → S
      → S × Outcome RaftError A
  unfolding to_read_err
  state_of codec default result = do
    found ← or_err (to_read_err true false) (lift result)
    lift (elim found [ none ↦ ok default | some bytes ↦ or_panic (codec.decode bytes) ])

  unfoldable pub initial_state_of :
      List (Outcome RocksdbErrorKind (Option Bytes)) → S → S × Outcome RaftError RaftState
  unfolding state_of
  initial_state_of (first ∷ second ∷ []) = do
    hard_state ← state_of prost.hard_state default_hard_state first
    conf_state ← state_of prost.conf_state default_conf_state second
    lift (ok (record { hard_state = hard_state; conf_state = conf_state }))
  initial_state_of _ = lift panic

  unfoldable pub initial_state : S → S × Outcome RaftError RaftState
  unfolding initial_state_of
  initial_state s =
      let keys =
        format_hardstate_key core.group_id core.replica_id
        ∷ format_confstate_key core.group_id core.replica_id
        ∷ [] in
      let (s', results) = rocks.multi_get metadata_cf keys s in initial_state_of results s'

  -- `load_snapshot` of the user's snapshot reader.
  unfoldable pub snapshot :
      ((group_id replica_id : ℕ) → S → S × Outcome RaftError (List ℕ))
      → ℕ
      → S
      → S × Outcome RaftError Snapshot
  unfolding get_snapshot_metadata get_conf_state get_hard_state get_entry to_read_err
  snapshot load_snapshot request_index = do
    payload ← load_snapshot core.group_id core.replica_id
    snap_meta ← or_err (to_read_err false true) (get_snapshot_metadata rocks prost core)
    cs ← or_err (to_read_err false true) (get_conf_state rocks prost core)
    hs ← or_err (to_read_err false true) (get_hard_state rocks prost core)
    term ←
        (if hs.commit == snap_meta.index
          then lift (ok snap_meta.term)
          else if ltb snap_meta.index hs.commit
          then (do
            e ← or_err (to_read_err false true) (get_entry rocks prost core hs.commit)
            lift (ok e.term))
          else lift panic)
    lift (
        ok (record {
          payload = payload;
          metadata = record { conf_state = cs; index = max hs.commit request_index; term = term };
        }))

  -- The range of entries that a snapshot clears.
  unfoldable pub clear_entries : EntryMetadata → S → S × Outcome StorageError (Unit {0})
  unfolding to_storage_error
  clear_entries ent_meta =
      if ent_meta.empty
      then lift (ok tt)
      else or_err (to_storage_error false true) (
          rocks.delete_range log_cf (format_entry_key core.group_id ent_meta.first_index)
            (format_entry_key core.group_id (ent_meta.last_index + 1)))

  -- `is_default` is the comparison with `SnapshotMetadata::default()`, and `install` the
  -- `install_snapshot` of the user's snapshot writer.
  unfoldable pub install_snapshot :
      (SnapshotMetadata → Bool)
      → ((group_id replica_id : ℕ) → List ℕ → S → S × Outcome StorageError (Unit {0}))
      → Snapshot
      → S
      → S × Outcome StorageError (Unit {0})
  unfolding get_entry_meta set_snapshot_metadata get_hard_state set_hardstate clear_entries
      set_confstate to_storage_error
  install_snapshot is_default install snap = do
    ent_meta ← or_err (to_storage_error false true) (get_entry_meta rocks prost core)
    if ltb snap.metadata.index ent_meta.first_index
        then lift (err StorageError.snapshot_out_of_date)
        else if is_default snap.metadata
        then lift (ok tt)
        else (do
          _ ←
              or_err (to_storage_error false true)
                (set_snapshot_metadata rocks prost core snap.metadata)
          _ ← install core.group_id core.replica_id snap.payload
          hs ← or_err (to_storage_error false true) (get_hard_state rocks prost core)
          _ ←
              set_hardstate
                (record hs { term = max snap.metadata.term hs.term; commit = snap.metadata.index })
          _ ← clear_entries ent_meta
          set_confstate snap.metadata.conf_state)
