-- ===== src/Storage/Mem/Valid.antt =====
-- The invariant of a log in memory, and the log seen as a partial function of the position.
use oceanraft.Common.{
  ℕ, ◌+◌, ◌-◌, ◌<◌, ◌≡◌, refl, List, [], ◌∷◌, Option, none, ltb, if◌then◌else◌, length, get_elem?,
  arith,
}
use oceanraft.Types.{Entry, SnapshotMetadata}
use oceanraft.Storage.Mem.{MemStorageCore, first_of, last_index, new}
use oceanraft.Storage.Mem.Contiguous.{Contiguous, last-Contiguous}

-- The entries follow one another, and stand above the snapshot.
pub record IsValid {Context : Type 0} (c : MemStorageCore Context) : Type 0 where
  pub contiguous : Contiguous (first_of c.entries c.snapshot_metadata) c.entries
  pub above : c.snapshot_metadata.index < first_of c.entries c.snapshot_metadata

module _ {Context : Type 0} where
  -- The entry at a log position, if the log holds it.
  abbrev pub entry_at : MemStorageCore Context → ℕ → Option Entry
  entry_at c i =
      if ltb i (first_of c.entries c.snapshot_metadata)
      then none
      else get_elem? c.entries (i - first_of c.entries c.snapshot_metadata)

  pub new-IsValid : IsValid {Context = Context} new
  unfolding new first_of
  new-IsValid = record { contiguous = tt; above = omega arith }

  last_of-first_of :
      (meta : SnapshotMetadata) (es : List Entry) (c : MemStorageCore Context)
      → Contiguous (first_of es meta) es
      → c.entries ≡ es
      → c.snapshot_metadata ≡ meta
      → last_index c + 1 ≡ first_of es meta + length es
  unfolding last_index first_of
  last_of-first_of meta [] c h e m = rw (e, last_index) (ground arith)
  last_of-first_of meta (x ∷ xs) c h e m =
      let (l, found, ends) = last-Contiguous x.index x xs h in
      rw (e, found, last_index) (omega (arith, ends))

  -- The log ends where its entries end.
  pub last_index_lem :
      (c : MemStorageCore Context)
      → IsValid c
      → last_index c + 1 ≡ first_of c.entries c.snapshot_metadata + length c.entries
  last_index_lem c v = last_of-first_of c.snapshot_metadata c.entries c v.contiguous refl refl
