-- ===== src/Storage/Api/Range.antt =====
-- What `MemStorage::entries` returns for a range of positions.
use oceanraft.Common.{
  ℕ, zero, suc, ◌+◌, ◌-◌, ◌≤◌, ◌<◌, ◌≡◌, refl, Bool, false, ◌&&◌, List, [], ◌∷◌, Option, some,
  length, get_elem?, take, drop, get_elem?-drop, length-take, length-drop, ok, arith, min,
}
use oceanraft.Types.{Entry, SnapshotMetadata}
use oceanraft.Storage.Mem.{MemStorageCore, first_of, first_index, last_index}
use oceanraft.Storage.Mem.Contiguous.{Contiguous, drop-Contiguous, take-Contiguous}
use oceanraft.Storage.Mem.Valid.{IsValid, entry_at, last_index_lem}
use oceanraft.Storage.Api.{entries, slice_from_first}

-- What `raft::util::limit_size` promises: a prefix, which is not empty if the list is not.
pub record IsLimit (limit_size : List Entry → Option ℕ → List Entry) : Type 0 where
  pub prefix : (es : List Entry) (m : Option ℕ) → (n : ℕ) × (limit_size es m ≡ take n es)
  pub progress : (es : List Entry) (m : Option ℕ) → 0 < length es → 0 < length (limit_size es m)

get_elem?-take :
    (n k : ℕ) (es : List Entry) (e : Entry)
    → get_elem? (take n es) k ≡ some e
    → get_elem? es k ≡ some e
get_elem?-take zero k es e h = cc
get_elem?-take (suc n) k [] e h = cc
get_elem?-take (suc n) zero (x ∷ es) e h = h
get_elem?-take (suc n) (suc k) (x ∷ es) e h = get_elem?-take n k es e h

length-take-le : (n : ℕ) (es : List Entry) → length (take n es) ≤ length es
length-take-le zero es = omega arith
length-take-le (suc n) [] = omega arith
length-take-le (suc n) (x ∷ es) = omega (arith, length-take-le n es)

slice_from_first_lem :
    (meta : SnapshotMetadata) (low high : ℕ) (es : List Entry)
    → 0 < length es
    → first_of es meta ≤ low
    → low ≤ high
    → high ≤ first_of es meta + length es
    → slice_from_first low high es ≡ ok (take (high - low) (drop (low - first_of es meta) es))
unfolding slice_from_first first_of
slice_from_first_lem meta low high [] some_left lo mid hi = absurd (omega arith)
slice_from_first_lem meta low high (e ∷ es) some_left lo mid hi =
    let d : (high - e.index) - (low - e.index) ≡ high - low = omega arith in ground arith

-- The entries are those that the log holds from position `i` on.
abbrev pub Reads : {Context : Type 0} → MemStorageCore Context → ℕ → List Entry → Type 0
Reads c i [] = Unit
Reads c i (e ∷ es) = (entry_at c i ≡ some e) × Reads c (suc i) es

Reads-intro :
    {Context : Type 0} (c : MemStorageCore Context) (i : ℕ) (es : List Entry)
    → ((k : ℕ) (e : Entry) → get_elem? es k ≡ some e → entry_at c (i + k) ≡ some e)
    → Reads c i es
Reads-intro c i [] h = tt
Reads-intro c i (e ∷ es) h =
    let e0 : i + zero ≡ i = omega arith in
    (
      rw e0 at (h zero e refl),
      Reads-intro c (suc i) es
          (λ k x g. let e1 : suc i + k ≡ i + suc k = omega arith in rw e1 (h (suc k) x g)),
    )

module _ {Context : Type 0} (can_async : Context → Bool)
    (limit_size : List Entry → Option ℕ → List Entry) (limit : IsLimit limit_size)
    (c : MemStorageCore Context) (v : IsValid c) (low high : ℕ) (max_size : Option ℕ)
    (context : Context) where
  -- The slice before the size limit cuts it.
  whole : List Entry
  whole = take (high - low) (drop (low - first_of c.entries c.snapshot_metadata) c.entries)

  whole-Contiguous : first_index c ≤ low → Contiguous low whole
  unfolding whole first_index
  whole-Contiguous lo =
      let f = first_of c.entries c.snapshot_metadata in
      let e : f + (low - f) ≡ low = omega arith in
      take-Contiguous low (high - low) _
        (rw e at (drop-Contiguous f (low - f) c.entries v.contiguous))

  length-whole :
      first_index c ≤ low → low ≤ high → high ≤ last_index c + 1 → length whole ≡ high - low
  unfolding whole first_index
  length-whole lo mid hi =
      let f = first_of c.entries c.snapshot_metadata in
      length-take (high - low) (drop (low - f) c.entries)
        (omega (arith, length-drop (low - f) c.entries, last_index_lem c v))

  entry_at-whole :
      first_index c ≤ low
      → (k : ℕ) (e : Entry) → get_elem? whole k ≡ some e
      → entry_at c (low + k) ≡ some e
  unfolding whole first_index
  entry_at-whole lo k e h =
      let f = first_of c.entries c.snapshot_metadata in
      let found : get_elem? (drop (low - f) c.entries) k ≡ some e =
        get_elem?-take (high - low) k (drop (low - f) c.entries) e h in
      let shift : (low - f) + k ≡ (low + k) - f = omega arith in
      ground (arith, get_elem?-drop (low - f) k c.entries)

  entries-whole :
      0 < length c.entries
      → first_index c ≤ low
      → low ≤ high
      → high ≤ last_index c + 1
      → (c.trigger_log_temp_unavailable && can_async context) ≡ false
      → entries can_async limit_size low high max_size context c
        ≡ (ok (limit_size whole max_size), c)
  unfolding entries first_index whole
  entries-whole some_left lo mid hi free = ground (
    arith,
    last_index_lem c v,
    slice_from_first_lem c.snapshot_metadata low high c.entries some_left lo mid,
  )

  -- With a size limit that keeps a prefix, and not an empty one, on a valid log with an entry,
  -- `entries` for a range from the first position to one past the
  -- last succeeds, unless it may be fetched later and the log is temporarily unavailable. It
  -- changes nothing; what it returns are the log's own entries from `low` on, in order, none at or
  -- past `high`, and at least one if the range has one.
  pub entries_lem :
      0 < length c.entries
      → first_index c ≤ low
      → low ≤ high
      → high ≤ last_index c + 1
      → (c.trigger_log_temp_unavailable && can_async context) ≡ false
      → (es : List Entry) × (entries can_async limit_size low high max_size context c ≡ (ok es, c))
        × Contiguous low es
        × (length es ≤ high - low)
        × (min 1 (high - low) ≤ length es)
        × Reads c low es
  unfolding whole
  entries_lem some_left lo mid hi free =
      let (n, cut) = limit.prefix whole max_size in
      (
        limit_size whole max_size,
        returned,
        rw cut (take-Contiguous low n whole (whole-Contiguous lo)),
        rw cut (omega (arith, length-take-le n whole, length-whole lo mid hi)),
        grind (arith, limit.progress whole max_size, length-whole lo mid hi),
        Reads-intro c low (limit_size whole max_size)
            (λ k e h. entry_at-whole lo k e (get_elem?-take n k whole e (rw cut at h))),
      )
    where
      returned :
          entries can_async limit_size low high max_size context c
          ≡ (ok (limit_size whole max_size), c)
      returned = entries-whole some_left lo mid hi free
