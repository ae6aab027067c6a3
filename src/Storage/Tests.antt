-- ===== src/Storage/Tests.antt =====
-- Runs of oceanraft/src/storage/mem.rs on a small log.
use oceanraft.Common.{
  ℕ, ◌≡◌, refl, Bool, true, false, List, [], ◌∷◌, Option, none, some, if◌then◌else◌, ltb, length,
  get_elem?, take, suc, ap, ◌-◌, ◌≤◌, ◌<◌, ok, panic, arith, min,
}
use oceanraft.Types.{Entry, entry_normal, default_conf_state, Snapshot}
use oceanraft.Storage.Mem.{
  MemStorageCore, append, compact, apply_snapshot, last_index, first_index, first_of,
  check_available,
}
use oceanraft.Storage.Mem.Valid.{IsValid, entry_at}
use oceanraft.Storage.Mem.Append.{append_lem}
use oceanraft.Storage.Mem.Compact.{compact_lem, compact_all_lem}
use oceanraft.Storage.Mem.Install.{Installed, apply_snapshot_lem}
use oceanraft.Storage.Mem.Contiguous.{Contiguous}
use oceanraft.Storage.Api.{term, entries}
use oceanraft.Storage.Api.Range.{IsLimit, Reads, entries_lem}

abbrev entry : ℕ → ℕ → Entry
entry index term = record {
  entry_type = entry_normal;
  term = term;
  index = index;
  payload = index ∷ [];
  context = [];
  sync_log = false;
}

abbrev Core : Type 0
Core = MemStorageCore Bool

-- The log after a snapshot at 3 of term 1: the entries 4 and 5 of term 2, with commit index 4.
abbrev log : Core
log = record {
  raft_state = record {
    hard_state = record { term = 2; vote = 7; commit = 4 };
    conf_state = default_conf_state;
  };
  entries = entry 4 2 ∷ entry 5 2 ∷ [];
  snapshot_metadata = record { conf_state = default_conf_state; index = 3; term = 1 };
  applied_index = 4;
  applied_term = 2;
  trigger_snap_temp_unavailable = false;
  trigger_log_unavailable = false;
  trigger_log_temp_unavailable = false;
  trigger_log_write_slow = record { enable = false; block = 0 };
  trigger_log_read_slow = record { enable = false; block = 0 };
  get_entries_context = none;
}

log-IsValid : IsValid log
unfolding first_of
log-IsValid = record { contiguous = (refl, (refl, tt)); above = omega arith }

abbrev snap : Snapshot
snap = record {
  payload = [];
  metadata = record { conf_state = default_conf_state; index = 9; term = 3 };
}

append_lem_example :
    (c' : Core) × (append (entry 5 3 ∷ []) log ≡ ok c')
    × IsValid c'
    × ((i : ℕ)
        → entry_at c' i ≡ (if ltb i 5 then entry_at log i else get_elem? (entry 5 3 ∷ []) (i - 5)))
unfolding first_index last_index check_available
append_lem_example =
    append_lem log log-IsValid (entry 5 3) [] (refl, tt) (omega arith) (omega arith) refl

compact_lem_example :
    (c' : Core) × (compact 5 log ≡ ok c')
    × IsValid c'
    × ((i : ℕ) → entry_at c' i ≡ (if ltb i 5 then none else entry_at log i))
unfolding last_index
compact_lem_example = compact_lem log log-IsValid 5 (omega arith)

compact_all_lem_example :
    (c' : Core) × (compact 6 log ≡ ok c')
    × (last_index c' ≡ 3)
    × (append (entry 6 2 ∷ []) c' ≡ panic)
unfolding last_index
compact_all_lem_example = compact_all_lem log log-IsValid 6 (omega arith) refl (entry 6 2) [] refl

apply_snapshot_lem_example : (c' : Core) × (apply_snapshot snap log ≡ ok c') × Installed snap log c'
unfolding first_index
apply_snapshot_lem_example = apply_snapshot_lem snap log log-IsValid (omega arith)

-- A size limit of this kind: the limit counts entries, and one entry always passes.
abbrev limit : List Entry → Option ℕ → List Entry
limit es none = es
limit es (some m) = take (suc m) es

limit-IsLimit : IsLimit limit
limit-IsLimit = record { prefix = λ es m. prefix es m; progress = λ es m h. progress es m h }
  where
    take-length : (es : List Entry) → es ≡ take (length es) es
    take-length [] = refl
    take-length (e ∷ es) = ap (◌∷◌ e) (take-length es)

    prefix : (es : List Entry) (m : Option ℕ) → (n : ℕ) × (limit es m ≡ take n es)
    prefix es none = (length es, take-length es)
    prefix es (some m) = (suc m, refl)

    progress : (es : List Entry) (m : Option ℕ) → 0 < length es → 0 < length (limit es m)
    progress es none h = h
    progress [] (some m) h = h
    progress (e ∷ es) (some m) h = omega arith

entries_lem_example :
    (es : List Entry) × (entries (λ b. b) limit 4 6 (some 0) true log ≡ (ok es, log))
    × Contiguous 4 es
    × (length es ≤ 6 - 4)
    × (min 1 (6 - 4) ≤ length es)
    × Reads log 4 es
unfolding first_index last_index
entries_lem_example =
    entries_lem (λ b. b) limit limit-IsLimit log log-IsValid 4 6 (some 0) true (omega arith)
      (omega arith) (omega arith) (omega arith) refl
