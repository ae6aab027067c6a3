-- ===== src/Storage/Api/Snapshots.antt =====
-- Snapshots that `MemStorage` makes, and the commit index that they are made at.
use oceanraft.Common.{
  ℕ, ◌-◌, ◌≤◌, ◌<◌, ◌≡◌, ◌⊎◌, ◌↔◌, refl, inl, inr, true, false, List, [], ◌∷◌, some, length,
  get_elem?, ok, panic, arith, max,
}
use oceanraft.Types.{Entry, SnapshotMetadata, Snapshot}
use oceanraft.Types.Errors.{StorageError, RaftError}
use oceanraft.Storage.Mem.{
  MemStorageCore, first_of, first_index, last_index, entry_from_first, snapshot_term, core_snapshot,
  commit_to, has_entry_at, is_empty, put_hard_state,
}
use oceanraft.Storage.Mem.Valid.{IsValid}
use oceanraft.Storage.Api.{term, snapshot}
use oceanraft.Storage.Api.Reads.{entry_at-some}

-- Counting from the first entry finds the entry of a position that the log holds.
entry_from_first_lem :
    {E : Type 0} (meta : SnapshotMetadata) (i : ℕ) (es : List Entry) (e : Entry)
    → first_of es meta ≤ i
    → get_elem? es (i - first_of es meta) ≡ some e
    → entry_from_first {E = E} es i ≡ ok e
unfolding entry_from_first first_of
entry_from_first_lem meta i [] e lo h = cc
entry_from_first_lem meta i (x ∷ xs) e lo h = ground arith

is_empty_lem : (es : List Entry) → (is_empty es ≡ true) ↔ (length es ≡ 0)
is_empty_lem [] = ground arith
is_empty_lem (e ∷ es) = ground arith

module _ {Context : Type 0} (c : MemStorageCore Context) (v : IsValid c) where
  -- The commit index is one whose term the log knows.
  abbrev pub CommitHeld : Type 0
  CommitHeld =
      (c.raft_state.hard_state.commit ≡ c.snapshot_metadata.index)
      ⊎ ((first_index c ≤ c.raft_state.hard_state.commit)
          × (c.raft_state.hard_state.commit ≤ last_index c))

  -- An entry that the log holds is found from the first one.
  entry_from_first_held :
      {E : Type 0} (i : ℕ)
      → first_index c ≤ i
      → i ≤ last_index c
      → (e : Entry) × (entry_from_first {E = E} c.entries i ≡ ok e) × (term i c ≡ ok e.term)
  unfolding first_index term
  entry_from_first_held i lo hi =
      let (e, held, at) = entry_at-some c v i lo hi in
      (
        e,
        entry_from_first_lem c.snapshot_metadata i c.entries e lo (ground arith),
        ground (arith, v.above),
      )

  snapshot_term_lem :
      CommitHeld
      → (t : ℕ) × (snapshot_term {E = RaftError} c ≡ ok t)
        × (term c.raft_state.hard_state.commit c ≡ ok t)
  unfolding snapshot_term term first_index
  snapshot_term_lem (inl at) = (c.snapshot_metadata.term, ground arith, ground arith)
  snapshot_term_lem (inr (lo, hi)) =
      let (e, held, known) =
        entry_from_first_held {E = RaftError} c.raft_state.hard_state.commit lo hi in
      (e.term, ground (arith, v.above), known)

  -- While no failure is pending and the log knows the commit index, `snapshot` succeeds and changes
  -- nothing: the snapshot has the membership and the commit index, raised to the requested index,
  -- and the term that `term` reports for the commit index.
  pub snapshot_lem :
      (request : ℕ)
      → c.trigger_snap_temp_unavailable ≡ false
      → CommitHeld
      → (snap : Snapshot) × (snapshot request c ≡ (ok snap, c))
        × (snap.metadata.index ≡ max c.raft_state.hard_state.commit request)
        × (snap.metadata.conf_state ≡ c.raft_state.conf_state)
        × (term c.raft_state.hard_state.commit c ≡ ok snap.metadata.term)
  unfolding snapshot core_snapshot
  snapshot_lem request calm held =
      let (t, made, known) = snapshot_term_lem held in
      (
        record {
          payload = [];
          metadata = record {
            conf_state = c.raft_state.conf_state;
            index = max c.raft_state.hard_state.commit request;
            term = t;
          };
        },
        ground arith,
        refl,
        refl,
        known,
      )

  -- `commit_to` at a position that a non-empty valid log holds succeeds: it sets the commit index
  -- and the term of the entry there, and leaves the vote and the log alone.
  pub commit_to_lem :
      (i : ℕ)
      → 0 < length c.entries
      → first_index c ≤ i
      → i ≤ last_index c
      → (c' : MemStorageCore Context) × (commit_to i c ≡ ok c')
        × (c'.raft_state.hard_state.commit ≡ i)
        × (term i c ≡ ok c'.raft_state.hard_state.term)
        × (c'.raft_state.hard_state.vote ≡ c.raft_state.hard_state.vote)
        × (c'.entries ≡ c.entries)
  unfolding commit_to has_entry_at
  commit_to_lem i some_left lo hi =
      let (e, held, known) = entry_from_first_held {E = StorageError} i lo hi in
      (
        put_hard_state (record c.raft_state.hard_state { commit = i; term = e.term }) c,
        ground (arith, is_empty_lem c.entries),
        refl,
        known,
        refl,
        refl,
      )

  -- At any other position `commit_to` panics.
  pub commit_to-panic :
      (i : ℕ)
      → (length c.entries ≡ 0) ⊎ (i < first_index c) ⊎ (last_index c < i)
      → commit_to i c ≡ panic
  unfolding commit_to has_entry_at
  commit_to-panic i h = ground (arith, is_empty_lem c.entries)
