-- ===== src/Storage/Api/Reads.antt =====
-- What the reading calls of `MemStorage` return.
use oceanraft.Common.{
  ℕ, ◌-◌, ◌≤◌, ◌<◌, ◌≡◌, ◌≢◌, refl, inl, inr, some, ltb, ◌==◌, get_elem?-some, Bool-cases, Outcome,
  ok, err, arith,
}
use oceanraft.Types.{Entry}
use oceanraft.Types.Errors.{RaftError, RaftStorageError, store}
use oceanraft.Storage.Mem.{MemStorageCore, first_of, first_index, last_index}
use oceanraft.Storage.Mem.Contiguous.{index-Contiguous}
use oceanraft.Storage.Mem.Valid.{IsValid, entry_at, last_index_lem}
use oceanraft.Storage.Api.{term}

-- The ways in which reading the term at a position can end.
pub data TermRead {Context : Type 0} (c : MemStorageCore Context) (i : ℕ) (r : Outcome RaftError ℕ)
    : Type 0 where
  at_snapshot : i ≡ c.snapshot_metadata.index → r ≡ ok c.snapshot_metadata.term → TermRead c i r
  below :
      i ≢ c.snapshot_metadata.index
      → i < first_index c
      → r ≡ err (store RaftStorageError.compacted)
      → TermRead c i r
  beyond : last_index c < i → r ≡ err (store RaftStorageError.unavailable) → TermRead c i r
  found : (e : Entry) → entry_at c i ≡ some e → e.index ≡ i → r ≡ ok e.term → TermRead c i r

module _ {Context : Type 0} (c : MemStorageCore Context) (v : IsValid c) where
  -- In a valid log every position from the first to the last holds an entry with that index.
  pub entry_at-some :
      (i : ℕ)
      → first_index c ≤ i
      → i ≤ last_index c
      → (e : Entry) × (entry_at c i ≡ some e) × (e.index ≡ i)
  unfolding first_index
  entry_at-some i lo hi =
      let f = first_of c.entries c.snapshot_metadata in
      let (e, held) = get_elem?-some c.entries (i - f) (omega (arith, last_index_lem c v)) in
      (e, ground arith, omega (arith, index-Contiguous f (i - f) c.entries e v.contiguous held))

  -- `term` on a valid log: the snapshot's term at the snapshot, `Compacted` below the first
  -- position, `Unavailable` past the last, and the entry's own term in between; it never panics.
  pub term_lem : (i : ℕ) → TermRead c i (term i c)
  unfolding term
  term_lem i = elim (Bool-cases (i == c.snapshot_metadata.index)) [
    | inl at ↦ rw at (at_snapshot (ground arith) refl)
    | inr off ↦ rw off (elim (Bool-cases (ltb i (first_index c))) [
      | inl low ↦ rw low (below (ground arith) (ground arith) refl)
      | inr lo ↦ rw lo (elim (Bool-cases (ltb (last_index c) i)) [
        | inl high ↦ rw high (beyond (ground arith) refl)
        | inr hi ↦
            let (e, held, at) = entry_at-some i (ground arith) (ground arith) in
            rw hi (found e held at (ground (arith, held)))
      ])
    ])
  ]
