-- ===== src/Storage/Mem/Install.antt =====
-- What `MemStorageCore::apply_snapshot` does to the log.
use oceanraft.Common.{max, [], ℕ, ◌≤◌, ◌<◌, ◌≡◌, refl, none, ok, err, arith}
use oceanraft.Types.{Snapshot}
use oceanraft.Types.Errors.{RaftStorageError, store}
use oceanraft.Storage.Mem.{MemStorageCore, first_of, first_index, last_index, apply_snapshot}
use oceanraft.Storage.Mem.Valid.{IsValid, entry_at}

-- What a snapshot replaces in the log `c` when it gives the log `c'`.
pub record Installed {Context : Type 0} (snap : Snapshot) (c c' : MemStorageCore Context)
    : Type 0 where
  pub valid : IsValid c'
  pub empty : (i : ℕ) → entry_at c' i ≡ none
  pub ends_at : last_index c' ≡ snap.metadata.index
  pub commit : c'.raft_state.hard_state.commit ≡ snap.metadata.index
  pub conf_state : c'.raft_state.conf_state ≡ snap.metadata.conf_state
  pub vote : c'.raft_state.hard_state.vote ≡ c.raft_state.hard_state.vote
  pub term_grows : c.raft_state.hard_state.term ≤ c'.raft_state.hard_state.term
  pub newer : c.snapshot_metadata.index < c'.snapshot_metadata.index

module _ {Context : Type 0} (snap : Snapshot) (c : MemStorageCore Context) where
  -- A snapshot below the first position is refused as out of date.
  pub apply_snapshot_stale :
      snap.metadata.index < first_index c
      → apply_snapshot snap c ≡ err (store RaftStorageError.snapshot_out_of_date)
  unfolding apply_snapshot first_index
  apply_snapshot_stale h = ground arith

  -- Any other snapshot replaces the whole of a valid log: the log becomes empty and ends at the
  -- snapshot, which is newer than the one before; the commit index and the membership are the
  -- snapshot's, the vote stays, and the term does not fall.
  pub apply_snapshot_lem :
      IsValid c
      → first_index c ≤ snap.metadata.index
      → (c' : MemStorageCore Context) × (apply_snapshot snap c ≡ ok c') × Installed snap c c'
  unfolding apply_snapshot first_index last_index first_of
  apply_snapshot_lem v h = (
    record c {
      snapshot_metadata = snap.metadata;
      raft_state = record {
        hard_state = record c.raft_state.hard_state {
          term = max c.raft_state.hard_state.term snap.metadata.term;
          commit = snap.metadata.index;
        };
        conf_state = snap.metadata.conf_state;
      };
      entries = [];
    },
    ground arith,
    record {
      valid = record { contiguous = tt; above = omega arith };
      empty = λ i. ground arith;
      ends_at = refl;
      commit = refl;
      conf_state = refl;
      vote = refl;
      term_grows = omega arith;
      newer = omega (arith, v.above);
    },
  )
