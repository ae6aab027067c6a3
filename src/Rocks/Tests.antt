-- ===== src/Rocks/Tests.antt =====
-- Runs of oceanraft/src/storage/rocks.rs over a database in memory.
use oceanraft.Common.{
  ℕ, ◌+◌, ◌^◌, ◌<◌, ◌≤◌, ◌≡◌, ◌≢◌, refl, Bool, true, false, [], ◌∷◌, map, some, none, ltb, ok,
  panic, arith,
}
use oceanraft.Types.{
  Entry, entry_normal, ReplicaDesc, Snapshot, default_hard_state, default_conf_state,
}
use oceanraft.Types.Errors.{RaftStorageError, to_raft_storage}
use oceanraft.Storage.Mem.{MemStorageCore, check_available}
use oceanraft.Storage.Mem.Valid.{IsValid, new-IsValid}
use oceanraft.Storage.Mem.Append.{appended, appended-IsValid}
use oceanraft.Rocks.Errors.{
  timed_out, to_storage_error, to_raft_error, is_temporary, to_storage_error-to_raft_error,
}
use oceanraft.Rocks.Keys.{
  bytes_lt, format_entry_key, format_hardstate_key, format_confstate_key,
  format_snapshot_metadata_key, digits, digits_within,
}
use oceanraft.Rocks.Keys.Order.{format_entry_key-bytes_lt}
use oceanraft.Rocks.Db.{metadata_cf, IsRocksDb, RocksDb, write_value, put_value, delete_value}
use oceanraft.Rocks.Core.{
  RockStoreCore, read_or, get_hard_state, get_snapshot_metadata, get_entry_meta, new, new_batch,
}
use oceanraft.Rocks.Core.Log.{append, append_batch, entry_put, last_of, term, entries}
use oceanraft.Rocks.Core.State.{install_snapshot}
use oceanraft.Rocks.Core.Represents.{Represents, Simulates}
use oceanraft.Rocks.Core.Reads.{term_same}
use oceanraft.Rocks.Core.Append.{append-Simulates, done, done-Represents}
use oceanraft.Rocks.Core.Range.{item_of, entries_same}
use oceanraft.Rocks.Core.Install.{install_snapshot_stale}
use oceanraft.Rocks.Core.Rereads.{created, new-Represents}
use oceanraft.Rocks.Store.{search_replica_desc_on_node}
use oceanraft.Rocks.Store.Search.{desc_item, search_replica_desc_on_node_misses}
use oceanraft.Rocks.Store.Again.{replica_desc_reread, group_storage_again}
use oceanraft.Rocks.Sample.{State, no_keys, database, database-IsRocksDb, prost, prost-IsProst}
use oceanraft.Storage.Mem as Mem
use oceanraft.Storage.Api as Mem_api
use oceanraft.Rocks.Store.Api as Store_api

abbrev entry : ℕ → Entry
entry i = record {
  entry_type = entry_normal;
  term = 3;
  index = i;
  payload = i ∷ [];
  context = [];
  sync_log = false;
}

abbrev core : RockStoreCore
core = record { node_id = 1; group_id = 7; replica_id = 2 }

-- The iterator yields the entries 1 and 2.
abbrev rocks : RocksDb State
rocks = database (map (item_of prost prost-IsProst core) (entry 1 ∷ entry 2 ∷ []))

abbrev laws : IsRocksDb rocks
laws = database-IsRocksDb (map (item_of prost prost-IsProst core) (entry 1 ∷ entry 2 ∷ []))

abbrev empty_log : MemStorageCore Bool
empty_log = Mem.new

abbrev fresh : State
fresh = created laws prost prost-IsProst core no_keys tt

fresh-Represents : Represents laws prost core fresh empty_log
fresh-Represents = (new-Represents laws prost prost-IsProst core no_keys tt).1

abbrev log : MemStorageCore Bool
log = appended empty_log new-IsValid (entry 1) (entry 2 ∷ [])

small : last_of (entry 1) (entry 2 ∷ []) + 1 < 2 ^ 64
unfolding last_of
small = omega arith

free : check_available empty_log ≡ ok tt
unfolding check_available Mem.new
free = refl

low : Mem.first_index empty_log ≤ 1
unfolding Mem.first_index Mem.first_of Mem.new
low = omega arith

high : 1 ≤ Mem.last_index empty_log + 1
unfolding Mem.last_index Mem.new
high = omega arith

abbrev state : State
state =
    done laws prost prost-IsProst core fresh empty_log new-IsValid fresh-Represents (entry 1)
      (entry 2 ∷ []) (refl, (refl, tt)) small

new-Represents_example :
    (new rocks prost core no_keys ≡ (fresh, ok core)) × Represents laws prost core fresh empty_log
new-Represents_example = new-Represents laws prost prost-IsProst core no_keys tt

append-Simulates_example :
    Simulates laws prost core
      (Mem.append (entry 1 ∷ entry 2 ∷ []) empty_log)
      (append rocks prost core (entry 1 ∷ entry 2 ∷ []) fresh)
append-Simulates_example =
    append-Simulates laws prost prost-IsProst core fresh empty_log new-IsValid fresh-Represents
      (entry 1) (entry 2 ∷ []) (refl, (refl, tt)) small free

valid : IsValid log
valid = appended-IsValid empty_log new-IsValid (entry 1) (entry 2 ∷ []) (refl, (refl, tt)) low high

stored : Represents laws prost core state log
stored =
    done-Represents laws prost prost-IsProst core fresh empty_log new-IsValid fresh-Represents
      (entry 1) (entry 2 ∷ []) (refl, (refl, tt)) small low high

term_same_example : term rocks prost core 2 state ≡ (state, Mem_api.term 2 log)
term_same_example = term_same laws prost prost-IsProst core state log valid stored 2

entries_same_example :
    entries rocks prost core (λ es max_size. es) 1 3 none state
    ≡ (state, ok (entry 1 ∷ entry 2 ∷ []))
unfolding Mem.first_index Mem.first_of Mem.last_index Mem.new
entries_same_example =
    entries_same laws prost prost-IsProst core state log valid stored (λ es max_size. es) 1 3 none
      [] (omega arith) (omega arith) (omega arith) refl

abbrev snap : Snapshot
snap = record {
  payload = [];
  metadata = record { conf_state = default_conf_state; index = 2; term = 3 };
}

hs_stored :
    state metadata_cf (format_hardstate_key 7 2) ≡ some (prost.hard_state.encode default_hard_state)
unfolding put_value write_value delete_value append_batch new_batch entry_put Mem.last_index Mem.new
    format_hardstate_key format_confstate_key format_snapshot_metadata_key digits digits_within
hs_stored = refl

install_snapshot_stale_example :
    (s' : State) × (install_snapshot rocks prost core
        (λ meta. false)
        (λ g r p s. (s, ok tt))
        snap
        state
      ≡ (s', ok tt))
    × (get_snapshot_metadata rocks prost core s' ≡ (s', ok snap.metadata))
    × (get_entry_meta rocks prost core s' ≡ (
      s',
      ok (record {
        first_index = Mem.first_index log;
        last_index = Mem.last_index log;
        empty = false;
      }),
    ))
    × (Mem.first_index log ≢ 2 → term rocks prost core (Mem.first_index log) s' ≡ (s', panic))
unfolding Mem.first_index Mem.first_of Mem.new
install_snapshot_stale_example =
    install_snapshot_stale laws prost prost-IsProst core state log valid stored refl snap
      default_hard_state hs_stored (λ meta. false) (λ g r p s. (s, ok tt)) (λ t. refl) refl
      (omega arith)

fresh_hs : get_hard_state rocks prost core fresh ≡ (fresh, ok default_hard_state)
unfolding get_hard_state read_or put_value write_value new_batch Mem.new format_hardstate_key
    format_confstate_key format_snapshot_metadata_key digits digits_within
fresh_hs = refl

format_entry_key-bytes_lt_example :
    bytes_lt (format_entry_key 1 3) (format_entry_key 1 11) ≡ ltb 3 11
format_entry_key-bytes_lt_example = format_entry_key-bytes_lt 1 3 11 (omega arith) (omega arith)

to_storage_error-to_raft_error_example :
    (to_raft_storage (to_storage_error true false timed_out) ≡ to_raft_error true false timed_out)
    × (to_raft_storage (to_storage_error false true timed_out)
        ≡ RaftStorageError.log_temporarily_unavailable)
    × (to_raft_error false true timed_out ≡ RaftStorageError.snapshot_temporarily_unavailable)
unfolding is_temporary
to_storage_error-to_raft_error_example = to_storage_error-to_raft_error timed_out

abbrev desc : ReplicaDesc
desc = record { node_id = 1; group_id = 7; replica_id = 2 }

-- The iterator yields the replica that is sought.
search_replica_desc_on_node_misses_example :
    search_replica_desc_on_node
      (database (desc_item prost.replica_desc (7, desc) ∷ []))
      prost
      (λ key. true)
      1
      7
      1
      no_keys
    ≡ (no_keys, ok none)
search_replica_desc_on_node_misses_example =
    search_replica_desc_on_node_misses (database (desc_item prost.replica_desc (7, desc) ∷ []))
      prost (λ key. true) 1 7 1 ((7, desc) ∷ []) no_keys no_keys (omega arith) refl

replica_desc_reread_example :
    (s' : State) × (Store_api.set_replica_desc rocks prost (λ key. true) 1 7 desc no_keys
      ≡ (s', ok tt))
    × (Store_api.get_replica_desc rocks prost (λ key. true) 1 7 2 s' ≡ (s', ok (some desc)))
    × (t : State) × (Store_api.remove_replica_desc rocks prost (λ key. true) 1 7 2 s' ≡ (t, ok tt))
    × (Store_api.get_replica_desc rocks prost (λ key. true) 1 7 2 t ≡ (t, ok none))
replica_desc_reread_example =
    replica_desc_reread laws prost prost-IsProst (λ key. true) 1 no_keys tt 7 desc

group_storage_again_example :
    (s' : State) × (Store_api.group_storage rocks prost (λ key. true) 1 100 7 2 no_keys
      ≡ (s', ok core))
    × (Store_api.group_storage rocks prost (λ key. true) 1 200 7 2 s' ≡ (s', ok core))
group_storage_again_example =
    group_storage_again laws prost prost-IsProst (λ key. true) 1 no_keys tt 100 200 7 2
