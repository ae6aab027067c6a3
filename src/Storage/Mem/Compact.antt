-- ===== src/Storage/Mem/Compact.antt =====
-- What `MemStorageCore::compact` and `MemStorageCore::apply_snapshot` do to the log.
use oceanraft.Common.{
  ℕ, zero, suc, ◌+◌, ◌-◌, ◌≤◌, ◌<◌, ◌≡◌, refl, inl, inr, true, List, [], ◌∷◌, none, ltb, leb,
  if◌then◌else◌, length, drop, get_elem?-drop, get_elem?-none, Bool-cases, ok, panic, arith,
}
use oceanraft.Types.{Entry, SnapshotMetadata}
use oceanraft.Storage.Mem.{
  MemStorageCore, first_of, first_index, last_index, compact, compact_entries, append,
}
use oceanraft.Storage.Mem.Contiguous.{Contiguous, drop-Contiguous}
use oceanraft.Storage.Mem.Valid.{IsValid, entry_at, last_index_lem}

-- The first position after a cut of `n` entries moves by `n`, if an entry is left.
first_of-drop :
    (meta : SnapshotMetadata) (i n : ℕ) (es : List Entry)
    → Contiguous i es
    → n < length es
    → first_of (drop n es) meta ≡ i + n
unfolding first_of
first_of-drop meta i n [] h lt = absurd (omega arith)
first_of-drop meta i zero (x ∷ xs) h lt = omega arith
first_of-drop meta i (suc n) (x ∷ xs) h lt =
    omega (arith, first_of-drop meta (suc i) n xs h.1 (omega arith))

-- A cut of everything leaves nothing.
drop-length : (n : ℕ) (es : List Entry) → length es ≤ n → drop n es ≡ []
drop-length zero [] h = refl
drop-length zero (x ∷ xs) h = absurd (omega arith)
drop-length (suc n) [] h = refl
drop-length (suc n) (x ∷ xs) h = drop-length n xs (omega arith)

compact_entries_lem :
    (ci : ℕ) (meta : SnapshotMetadata) (es : List Entry)
    → first_of es meta < ci
    → ci ≤ first_of es meta + length es
    → compact_entries ci es ≡ ok (drop (ci - first_of es meta) es)
unfolding compact_entries first_of
compact_entries_lem ci meta [] lo hi = absurd (omega arith)
compact_entries_lem ci meta (e ∷ es) lo hi = ground arith

first_of-empty :
    (meta : SnapshotMetadata) (es : List Entry) → length es ≡ 0 → first_of es meta ≡ meta.index + 1
unfolding first_of
first_of-empty meta [] h = refl
first_of-empty meta (e ∷ es) h = absurd (omega arith)

module _ {Context : Type 0} (c : MemStorageCore Context) (v : IsValid c) (ci : ℕ) where
  abbrev compacted : MemStorageCore Context
  compacted = record c { entries = drop (ci - first_of c.entries c.snapshot_metadata) c.entries }

  module _ (lo : first_index c < ci) (hi : ci ≤ last_index c + 1) where
    compact-eq : compact ci c ≡ ok compacted
    unfolding compact first_index
    compact-eq =
        ground (arith, last_index_lem c v, compact_entries_lem ci c.snapshot_metadata c.entries lo)

    compacted-IsValid : IsValid compacted
    unfolding first_index first_of
    compacted-IsValid = elim (Bool-cases (ltb n (length c.entries))) [
      | inl some_left ↦
          let moved : first_of (drop n c.entries) c.snapshot_metadata ≡ f + n =
            first_of-drop c.snapshot_metadata f n c.entries v.contiguous (ground arith) in
          record {
            contiguous = rw moved (drop-Contiguous f n c.entries v.contiguous);
            above = rw moved (omega (arith, v.above));
          }
      | inr none_left ↦
          let gone : drop n c.entries ≡ [] = drop-length n c.entries (ground arith) in
          rw gone (record { contiguous = tt; above = empty_above })
    ]
      where
        f : ℕ
        f = first_of c.entries c.snapshot_metadata

        n : ℕ
        n = ci - f

        empty_above : c.snapshot_metadata.index < first_of [] c.snapshot_metadata
        empty_above = omega arith

    entry_at-compacted : (i : ℕ) → entry_at compacted i ≡ (if ltb i ci then none else entry_at c i)
    unfolding first_index
    entry_at-compacted i = elim (Bool-cases (ltb n (length c.entries))) [
      | inl some_left ↦
          let moved : first_of (drop n c.entries) c.snapshot_metadata ≡ f + n =
            first_of-drop c.snapshot_metadata f n c.entries v.contiguous (ground arith) in
          rw (moved, get_elem?-drop) (ground arith)
      | inr none_left ↦
          let gone : drop n c.entries ≡ [] = drop-length n c.entries (ground arith) in
          rw gone (ground (arith, get_elem?-none c.entries (i - f)))
    ]
      where
        f : ℕ
        f = first_of c.entries c.snapshot_metadata

        n : ℕ
        n = ci - f

  -- A compaction of a valid log up to one past its end succeeds and leaves a valid log, in which
  -- just the positions below the compaction index have become empty.
  pub compact_lem :
      ci ≤ last_index c + 1
      → (c' : MemStorageCore Context) × (compact ci c ≡ ok c')
        × IsValid c'
        × ((i : ℕ) → entry_at c' i ≡ (if ltb i ci then none else entry_at c i))
  unfolding compact first_index
  compact_lem hi = elim (Bool-cases (leb ci (first_index c))) [
    | inl low ↦ (c, compact_low low, v, λ i. same low i)
    | inr high ↦
        let lo : first_index c < ci = ground arith in
        (compacted, compact-eq lo hi, compacted-IsValid lo hi, entry_at-compacted lo hi)
  ]
    where
      compact_low : leb ci (first_index c) ≡ true → compact ci c ≡ ok c
      compact_low low = ground arith

      same :
          leb ci (first_index c) ≡ true
          → (i : ℕ) → entry_at c i ≡ (if ltb i ci then none else entry_at c i)
      same low i = ground arith

  holds_entries : c.snapshot_metadata.index < last_index c → first_index c < last_index c + 1
  unfolding first_index
  holds_entries h = grind (arith, last_index_lem c v, first_of-empty c.snapshot_metadata c.entries)

  -- A compaction of everything, which the documented bound allows, forgets where the log ended:
  -- the end falls back to the snapshot, and an append of the next entry panics.
  pub compact_all_lem :
      c.snapshot_metadata.index < last_index c
      → ci ≡ last_index c + 1
      → (e : Entry) (es : List Entry) → e.index ≡ ci
      → (c' : MemStorageCore Context) × (compact ci c ≡ ok c')
        × (last_index c' ≡ c.snapshot_metadata.index)
        × (append (e ∷ es) c' ≡ panic)
  unfolding first_index append first_of last_index
  compact_all_lem some_entries all e es next =
      let lo : first_index c < ci = rw all (holds_entries some_entries) in
      let gone : drop (ci - first_of c.entries c.snapshot_metadata) c.entries ≡ [] =
        drop-length _ c.entries (omega (arith, last_index_lem c v)) in
      (compacted, compact-eq lo (omega arith), rw gone refl, rw gone (ground arith))
