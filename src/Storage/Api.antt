-- ===== src/Storage/Api.antt =====
-- oceanraft/src/storage/mem.rs: the traits `Storage` and `StorageExt` for `MemStorage`, each call
-- over the state behind the lock. `GetEntriesContext::can_async` and `raft::util::limit_size` are
-- raft's, and parameters here.
pub mod Reads
pub mod Snapshots
pub mod Range
use oceanraft.Common.{
  ℕ, ◌+◌, ◌-◌, Bool, false, ◌&&◌, List, [], ◌∷◌, Option, some, ltb, ◌==◌, if◌then◌else◌, length,
  get_elem?, take, drop, Outcome, ok, err, panic, ◌>>=◌, or_panic,
}
use oceanraft.Types.{Entry, ConfState, Snapshot}
use oceanraft.Types.Errors.{StorageError, RaftStorageError, RaftError, of_raft, store}
use oceanraft.Storage.Mem.{
  MemStorageCore, RaftState, first_index, last_index, core_snapshot, apply_snapshot, set_commit,
  put_conf_state,
}

-- The slice `entries[lo..hi]`, which panics unless `lo ≤ hi ≤ len`.
abbrev pub slice : ℕ → ℕ → List Entry → Outcome RaftError (List Entry)
slice lo hi es =
    if ltb hi lo
    then panic
    else if ltb (length es) hi
    then panic
    else ok (take (hi - lo) (drop lo es))

-- The slice between two log positions, counted from the first entry. A subtraction that would go
-- below zero panics, or wraps to a bound that panics.
unfoldable pub slice_from_first : ℕ → ℕ → List Entry → Outcome RaftError (List Entry)
slice_from_first low high [] = panic
slice_from_first low high (e ∷ es) =
    if ltb low e.index
    then panic
    else if ltb high e.index
    then panic
    else slice (low - e.index) (high - e.index) (e ∷ es)

module _ {Context : Type 0} where
  unfoldable pub initial_state : MemStorageCore Context → RaftState
  initial_state c = c.raft_state

  -- `RaftState::initialized` is raft's.
  unfoldable pub initialize_with_conf_state :
      (RaftState → Bool)
      → ConfState
      → MemStorageCore Context
      → Outcome StorageError (MemStorageCore Context)
  unfolding initial_state
  initialize_with_conf_state initialized cs c =
      if initialized (initial_state c) then panic else ok (put_conf_state cs c)

  unfoldable pub term : ℕ → MemStorageCore Context → Outcome RaftError ℕ
  unfolding first_index last_index
  term idx c =
      if idx == c.snapshot_metadata.index
      then ok c.snapshot_metadata.term
      else if ltb idx (first_index c)
      then err (store RaftStorageError.compacted)
      else if ltb (last_index c) idx
      then err (store RaftStorageError.unavailable)
      else do e ← or_panic (get_elem? c.entries (idx - first_index c)); ok e.term

  -- An unavailable snapshot is reported once; a requested index past the commit index is granted.
  unfoldable pub snapshot :
      ℕ → MemStorageCore Context → Outcome RaftError Snapshot × MemStorageCore Context
  unfolding core_snapshot
  snapshot request_index c =
      if c.trigger_snap_temp_unavailable
      then (
        err (store RaftStorageError.snapshot_temporarily_unavailable),
        record c { trigger_snap_temp_unavailable = false },
      )
      else (
        (do
          snap ← core_snapshot c
          ok (
              if ltb snap.metadata.index request_index
              then record snap { metadata = record snap.metadata { index = request_index } }
              else snap)),
        c,
      )

  unfoldable pub install_snapshot :
      Snapshot → MemStorageCore Context → Outcome StorageError (MemStorageCore Context)
  unfolding apply_snapshot of_raft
  install_snapshot snap c = elim (apply_snapshot snap c) [
    | ok c' ↦ ok c'
    | err e ↦ (do e' ← of_raft e; err e')
    | panic ↦ panic
  ]

  unfoldable pub set_hardstate_commit : ℕ → MemStorageCore Context → MemStorageCore Context
  unfolding set_commit
  set_hardstate_commit commit c = set_commit commit c

  unfoldable pub get_applied : MemStorageCore Context → ℕ
  get_applied c = c.applied_index

  unfoldable pub set_applied : ℕ → MemStorageCore Context → MemStorageCore Context
  set_applied index c = record c { applied_index = index }

  module _ (can_async : Context → Bool) (limit_size : List Entry → Option ℕ → List Entry) where
    unfoldable pub entries :
        ℕ
        → ℕ
        → Option ℕ
        → Context
        → MemStorageCore Context
        → Outcome RaftError (List Entry) × MemStorageCore Context
    unfolding first_index last_index slice_from_first
    entries low high max_size context c =
        if ltb low (first_index c)
        then (err (store RaftStorageError.compacted), c)
        else if ltb (last_index c + 1) high
        then (panic, c)
        else if c.trigger_log_temp_unavailable && can_async context
        then (
          err (store RaftStorageError.log_temporarily_unavailable),
          record c { get_entries_context = some context },
        )
        else ((do ents ← slice_from_first low high c.entries; ok (limit_size ents max_size)), c)
