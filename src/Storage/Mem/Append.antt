-- ===== src/Storage/Mem/Append.antt =====
-- What `MemStorageCore::append` does to the log.
use oceanraft.Common.{
  ℕ, zero, suc, ◌+◌, ◌-◌, ◌≤◌, ◌≡◌, refl, inl, inr, List, [], ◌∷◌, ◌++◌, ltb, if◌then◌else◌, length,
  get_elem?, take, length-take, get_elem?-overwrite, Bool-cases, ok, panic, ◌>>=◌, arith,
}
use oceanraft.Types.{Entry, SnapshotMetadata}
use oceanraft.Storage.Mem.{
  MemStorageCore, first_of, first_index, last_index, append, check_available,
}
use oceanraft.Storage.Mem.Contiguous.{Contiguous, Contiguous-append, take-Contiguous}
use oceanraft.Storage.Mem.Valid.{IsValid, entry_at, last_index_lem}

-- The entries that an append of `e ∷ es` leaves, for a log whose first position is `f`.
abbrev pub overwritten : ℕ → List Entry → Entry → List Entry → List Entry
overwritten f old e es = take (e.index - f) old ++ e ∷ es

-- The first position stays where it is.
pub first_of-overwritten :
    (meta : SnapshotMetadata) (old : List Entry) (e : Entry) (es : List Entry)
    → first_of old meta ≤ e.index
    → e.index ≤ first_of old meta + length old
    → first_of (overwritten (first_of old meta) old e es) meta ≡ first_of old meta
unfolding first_of
first_of-overwritten meta [] e es lo hi = ground arith
first_of-overwritten meta (x ∷ xs) e es lo hi = elim (Bool-cases (ltb x.index e.index)) [
  | inl above ↦
      let s : e.index - x.index ≡ suc (e.index - x.index - 1) = ground arith in
      rw (s, first_of) refl
  | inr same ↦ let s : e.index - x.index ≡ zero = ground arith in rw (s, first_of) (ground arith)
]

module _ {Context : Type 0} (c : MemStorageCore Context) (v : IsValid c) (e : Entry)
    (es : List Entry) where
  abbrev pub appended : MemStorageCore Context
  appended = record c {
    entries = overwritten (first_of c.entries c.snapshot_metadata) c.entries e es;
  }

  -- An append to a valid log panics below its first position and beyond its end, fails while the
  -- log is unavailable, and otherwise cuts the log at the first new index and adds the new entries.
  pub append_branches : append (e ∷ es) c ≡ (
      if ltb e.index (first_index c)
      then panic
      else if ltb (last_index c + 1) e.index
      then panic
      else (check_available c >>= λ _. ok appended))
  unfolding append first_index
  append_branches = ground (arith, last_index_lem c v)

  module _ (run : Contiguous e.index (e ∷ es)) (lo : first_index c ≤ e.index)
      (hi : e.index ≤ last_index c + 1) where
    pub appended-IsValid : IsValid appended
    unfolding first_index
    appended-IsValid =
        let kept : first_of appended.entries c.snapshot_metadata ≡ first_index c =
          first_of-overwritten c.snapshot_metadata c.entries e es lo
            (omega (arith, last_index_lem c v)) in
        let f = first_of c.entries c.snapshot_metadata in
        let n = e.index - f in
        let fits : n ≤ length c.entries = omega (arith, last_index_lem c v) in
        record {
          contiguous = rw kept (
              Contiguous-append f e.index (take n c.entries) (e ∷ es)
                (take-Contiguous f n c.entries v.contiguous) run
                (omega (arith, length-take n c.entries fits)));
          above = rw kept v.above;
        }

    -- Below the first new position the log is as before, from there on it is the new entries.
    pub entry_at-appended :
        (i : ℕ)
        → entry_at appended i
          ≡ (if ltb i e.index then entry_at c i else get_elem? (e ∷ es) (i - e.index))
    unfolding first_index
    entry_at-appended i = ground (
      arith,
      last_index_lem c v,
      first_of-overwritten c.snapshot_metadata c.entries e es lo,
      get_elem?-overwrite (e.index - first_of c.entries c.snapshot_metadata)
          (i - first_of c.entries c.snapshot_metadata) c.entries (e ∷ es),
    )

    -- On a valid log that is available, an append of consecutive entries that start between the
    -- first position and one past the last succeeds and leaves a valid log, which below the first
    -- new index reads as before and from there on is the new entries and nothing else.
    pub append_lem :
        check_available c ≡ ok tt
        → (c' : MemStorageCore Context) × (append (e ∷ es) c ≡ ok c')
          × IsValid c'
          × ((i : ℕ)
              → entry_at c' i
                ≡ (if ltb i e.index then entry_at c i else get_elem? (e ∷ es) (i - e.index)))
    append_lem free = (appended, done, appended-IsValid, entry_at-appended)
      where
        done : append (e ∷ es) c ≡ ok appended
        done = ground (arith, append_branches)
