-- ===== src/Storage/Mem.antt =====
-- oceanraft/src/storage/mem.rs, `MemStorageCore` and `MemStorage`: one raft log held in memory.
-- A lock is taken and released within each call, so a call is a function on the state. A writing
-- call that ends in an error has changed nothing but what its result shows; a panic leaves no state.
-- `sleep` takes time only and is left out; the flags that guard it are kept.
pub mod Contiguous
pub mod Valid
pub mod Append
pub mod Compact
pub mod Install
use oceanraft.Common.{
  ℕ, ◌+◌, ◌-◌, max, Bool, true, false, not, ◌&&◌, List, [], ◌∷◌, ◌++◌, Option, none, some, ltb, leb,
  ◌==◌, if◌then◌else◌, length, get_elem?, take, drop, last, Outcome, ok, err, panic, ◌>>=◌,
  or_panic,
}
use oceanraft.Types.{
  Entry, HardState, ConfState, SnapshotMetadata, Snapshot, default_conf_state, default_hard_state,
  default_metadata,
}
use oceanraft.Types.Errors.{StorageError, RaftStorageError, RaftError, store}

-- A duration is a number of milliseconds.
pub record TriggerSlow : Type 0 where
  pub enable : Bool
  pub block : ℕ

pub record RaftState : Type 0 where
  pub hard_state : HardState
  pub conf_state : ConfState

-- `Context` is raft's `GetEntriesContext`.
pub record MemStorageCore (Context : Type 0) : Type 0 where
  pub raft_state : RaftState
  pub entries : List Entry
  pub snapshot_metadata : SnapshotMetadata
  pub applied_index : ℕ
  pub applied_term : ℕ
  pub trigger_snap_temp_unavailable : Bool
  pub trigger_log_unavailable : Bool
  pub trigger_log_temp_unavailable : Bool
  pub trigger_log_write_slow : TriggerSlow
  pub trigger_log_read_slow : TriggerSlow
  pub get_entries_context : Option Context

-- `entries.drain(..n)` and `entries.drain(n..)`: what stays. A cut past the end panics.
abbrev pub drain_to : ℕ → List Entry → Outcome StorageError (List Entry)
drain_to n es = if ltb (length es) n then panic else ok (drop n es)

abbrev pub drain_from : ℕ → List Entry → Outcome StorageError (List Entry)
drain_from n es = if ltb (length es) n then panic else ok (take n es)

unfoldable pub first_of : List Entry → SnapshotMetadata → ℕ
first_of [] meta = meta.index + 1
first_of (e ∷ es) meta = e.index

abbrev pub is_empty : List Entry → Bool
is_empty [] = true
is_empty (e ∷ es) = false

-- `entries[index - entries[0].index]`, where the subtraction does not go below zero.
unfoldable pub entry_from_first : {E : Type 0} → List Entry → ℕ → Outcome E Entry
entry_from_first [] index = panic
entry_from_first (e ∷ es) index =
    if ltb index e.index then panic else or_panic (get_elem? (e ∷ es) (index - e.index))

-- `drain` from the first entry on, if there is one.
unfoldable pub compact_entries : ℕ → List Entry → Outcome StorageError (List Entry)
compact_entries compact_index [] = ok []
compact_entries compact_index (e ∷ es) = drain_to (compact_index - e.index) (e ∷ es)

module _ {Context : Type 0} where
  -- `MemStorage::new`
  unfoldable pub new : MemStorageCore Context
  new = record {
    raft_state = record { hard_state = default_hard_state; conf_state = default_conf_state };
    entries = [];
    snapshot_metadata = default_metadata;
    applied_index = 0;
    applied_term = 0;
    trigger_snap_temp_unavailable = false;
    trigger_log_unavailable = false;
    trigger_log_temp_unavailable = false;
    trigger_log_write_slow = record { enable = false; block = 0 };
    trigger_log_read_slow = record { enable = false; block = 0 };
    get_entries_context = none;
  }

  -- The guards that the three writing calls share.
  unfoldable pub check_available : MemStorageCore Context → Outcome StorageError (Unit {0})
  check_available c =
      if c.trigger_log_unavailable
      then err StorageError.log_unavailable
      else if c.trigger_log_temp_unavailable
      then err StorageError.log_temporarily_unavailable
      else ok tt

  abbrev pub put_hard_state : HardState → MemStorageCore Context → MemStorageCore Context
  put_hard_state hs c = record c {
    raft_state = record { hard_state = hs; conf_state = c.raft_state.conf_state };
  }

  abbrev pub put_conf_state : ConfState → MemStorageCore Context → MemStorageCore Context
  put_conf_state cs c = record c {
    raft_state = record { hard_state = c.raft_state.hard_state; conf_state = cs };
  }

  unfoldable pub set_hardstate :
      HardState → MemStorageCore Context → Outcome StorageError (MemStorageCore Context)
  unfolding check_available
  set_hardstate hs c = do _ ← check_available c; ok (put_hard_state hs c)

  unfoldable pub set_conf_state :
      ConfState → MemStorageCore Context → Outcome StorageError (MemStorageCore Context)
  unfolding check_available
  set_conf_state cs c = do _ ← check_available c; ok (put_conf_state cs c)

  unfoldable pub set_commit : ℕ → MemStorageCore Context → MemStorageCore Context
  set_commit commit c = put_hard_state (record c.raft_state.hard_state { commit = commit }) c

  unfoldable pub first_index : MemStorageCore Context → ℕ
  unfolding first_of
  first_index c = first_of c.entries c.snapshot_metadata

  unfoldable pub last_index : MemStorageCore Context → ℕ
  last_index c = elim (last c.entries) [ some e ↦ e.index | none ↦ c.snapshot_metadata.index ]

  unfoldable pub has_entry_at : ℕ → MemStorageCore Context → Bool
  unfolding first_index last_index
  has_entry_at index c =
      not (is_empty c.entries) && leb (first_index c) index && leb index (last_index c)

  unfoldable pub commit_to :
      ℕ → MemStorageCore Context → Outcome StorageError (MemStorageCore Context)
  unfolding has_entry_at entry_from_first
  commit_to index c =
      if has_entry_at index c
      then (do
        e ← entry_from_first c.entries index
        ok (put_hard_state (record c.raft_state.hard_state { commit = index; term = e.term }) c))
      else panic

  unfoldable pub commit_to_and_set_conf_states :
      ℕ → Option ConfState → MemStorageCore Context → Outcome StorageError (MemStorageCore Context)
  unfolding commit_to
  commit_to_and_set_conf_states idx cs c = do
    c' ← commit_to idx c
    ok (elim cs [ some cs' ↦ put_conf_state cs' c' | none ↦ c' ])

  unfoldable pub apply_snapshot :
      Snapshot → MemStorageCore Context → Outcome RaftError (MemStorageCore Context)
  unfolding first_index
  apply_snapshot snapshot c =
      if ltb snapshot.metadata.index (first_index c)
      then err (store RaftStorageError.snapshot_out_of_date)
      else ok (record c {
        snapshot_metadata = snapshot.metadata;
        raft_state = record {
          hard_state = record c.raft_state.hard_state {
            term = max c.raft_state.hard_state.term snapshot.metadata.term;
            commit = snapshot.metadata.index;
          };
          conf_state = snapshot.metadata.conf_state;
        };
        entries = [];
      })

  -- The term that a snapshot at the commit index carries.
  unfoldable pub snapshot_term : {E : Type 0} → MemStorageCore Context → Outcome E ℕ
  unfolding entry_from_first
  snapshot_term c =
      let commit = c.raft_state.hard_state.commit in
      if commit == c.snapshot_metadata.index
      then ok c.snapshot_metadata.term
      else if ltb c.snapshot_metadata.index commit
      then (do e ← entry_from_first c.entries commit; ok e.term)
      else panic

  -- The private `snapshot` of the core.
  unfoldable pub core_snapshot : {E : Type 0} → MemStorageCore Context → Outcome E Snapshot
  unfolding snapshot_term
  core_snapshot c = do
    term ← snapshot_term c
    ok (record {
      payload = [];
      metadata = record {
        conf_state = c.raft_state.conf_state;
        index = c.raft_state.hard_state.commit;
        term = term;
      };
    })

  unfoldable pub compact :
      ℕ → MemStorageCore Context → Outcome StorageError (MemStorageCore Context)
  unfolding first_index last_index compact_entries
  compact compact_index c =
      if leb compact_index (first_index c)
      then ok c
      else if ltb (last_index c + 1) compact_index
      then panic
      else do es ← compact_entries compact_index c.entries; ok (record c { entries = es })

  unfoldable pub append :
      List Entry → MemStorageCore Context → Outcome StorageError (MemStorageCore Context)
  unfolding first_index last_index check_available
  append [] c = ok c
  append (e ∷ es) c =
      if ltb e.index (first_index c)
      then panic
      else if ltb (last_index c + 1) e.index
      then panic
      else do
        _ ← check_available c
        kept ← drain_from (e.index - first_index c) c.entries
        ok (record c { entries = kept ++ e ∷ es })

  -- The switches by which a test makes the storage fail or lag.
  unfoldable pub trigger_snap_unavailable : MemStorageCore Context → MemStorageCore Context
  trigger_snap_unavailable c = record c { trigger_snap_temp_unavailable = true }

  unfoldable pub trigger_log_unavailable : Bool → MemStorageCore Context → MemStorageCore Context
  trigger_log_unavailable enable c = record c { trigger_log_temp_unavailable = enable }

  unfoldable pub enable_log_write_slow : ℕ → MemStorageCore Context → MemStorageCore Context
  enable_log_write_slow block c = record c {
    trigger_log_write_slow = record { enable = true; block = block };
  }

  unfoldable pub disable_log_write_slow : MemStorageCore Context → MemStorageCore Context
  disable_log_write_slow c = record c {
    trigger_log_write_slow = record c.trigger_log_write_slow { enable = false };
  }

  unfoldable pub enable_log_read_slow : ℕ → MemStorageCore Context → MemStorageCore Context
  enable_log_read_slow block c = record c {
    trigger_log_read_slow = record { enable = true; block = block };
  }

  unfoldable pub disable_log_read_slow : MemStorageCore Context → MemStorageCore Context
  disable_log_read_slow c = record c {
    trigger_log_read_slow = record c.trigger_log_read_slow { enable = false };
  }

  unfoldable pub take_get_entries_context :
      MemStorageCore Context → Option Context × MemStorageCore Context
  take_get_entries_context c = (c.get_entries_context, record c { get_entries_context = none })
