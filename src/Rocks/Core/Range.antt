-- ===== src/Rocks/Core/Range.antt =====
-- oceanraft/src/storage/rocks.rs, `entries`, against oceanraft/src/storage/mem.rs.
use oceanraft.Common.{
  ℕ, suc, ◌+◌, ◌-◌, ◌≤◌, ◌≡◌, refl, sym, subst, true, false, min, List, [], ◌∷◌, ◌++◌, map, Option,
  ltb, ◌==◌, length, take, drop, length-take, length-drop, Outcome, ok, arith,
}
use oceanraft.Types.{Entry}
use oceanraft.Storage.Mem.{MemStorageCore}
use oceanraft.Storage.Mem.Contiguous.{Contiguous, take-Contiguous, drop-Contiguous}
use oceanraft.Storage.Mem.Valid.{IsValid, last_index_lem}
use oceanraft.Rocks.Errors.{RocksdbErrorKind}
use oceanraft.Rocks.Keys.{Bytes, same_bytes, format_entry_key}
use oceanraft.Rocks.Keys.Order.{same_bytes_refl}
use oceanraft.Rocks.Db.{log_cf, RocksDb, IsRocksDb, Prost, IsProst}
use oceanraft.Rocks.Core.{RockStoreCore}
use oceanraft.Rocks.Core.Log.{entries, collect}
use oceanraft.Rocks.Core.Represents.{Represents, get_entry_meta_lem}
use oceanraft.Storage.Mem as Mem

module _ (prost : Prost) (codecs : IsProst prost) (core : RockStoreCore) where
  -- What an iterator yields at an entry.
  abbrev pub item_of : Entry → Outcome RocksdbErrorKind (Bytes × Bytes)
  item_of e = ok (format_entry_key core.group_id e.index, prost.entry.encode e)

  collect_lem :
      (next high : ℕ) (es : List Entry) (rest : List (Outcome RocksdbErrorKind (Bytes × Bytes)))
      → Contiguous next es
      → next + length es ≡ high
      → collect prost core next high (map item_of es ++ rest) ≡ ok es
  unfolding collect
  collect_lem next high [] [] run ends = refl
  collect_lem next high [] (item ∷ items) run ends =
      let here : (next == high) ≡ true = ground arith in rw here refl
  collect_lem next high (e ∷ es) rest run ends =
      let off : (next == high) ≡ false = ground arith in
      let at : e.index ≡ next = run.0 in
      let key = format_entry_key core.group_id next in
      let matched : same_bytes key (format_entry_key core.group_id e.index) ≡ true =
        subst (λ i. same_bytes key (format_entry_key core.group_id i) ≡ true) (sym at)
          (same_bytes_refl key) in
      rw (off, matched, codecs.entry e, collect_lem (suc next) high es rest run.1 (omega arith))
        refl

module _ {S Context : Type 0} {rocks : RocksDb S} (laws : IsRocksDb rocks) (prost : Prost)
    (codecs : IsProst prost) (core : RockStoreCore) (s : S) (c : MemStorageCore Context)
    (v : IsValid c) (r : Represents laws prost core s c) where
  -- The entries of the log from `low` up to `high`.
  abbrev pub between : (low high : ℕ) → List Entry
  between low high = take (high - low) (drop (low - Mem.first_index c) c.entries)

  -- Where the iterator yields the entries from `low` to `high` first, `entries` returns them, cut to
  -- the size that is asked for.
  pub entries_same :
      (limit_size : List Entry → Option ℕ → List Entry) (low high : ℕ) (max_size : Option ℕ)
      (rest : List (Outcome RocksdbErrorKind (Bytes × Bytes)))
      → Mem.first_index c ≤ low
      → low ≤ high
      → high ≤ Mem.last_index c + 1
      → rocks.iterate log_cf (format_entry_key core.group_id low) s
        ≡ (s, map (item_of prost codecs core) (between low high) ++ rest)
      → entries rocks prost core limit_size low high max_size s
        ≡ (s, ok (limit_size (between low high) max_size))
  unfolding entries Mem.first_index
  entries_same limit_size low high max_size rest lo run hi yields =
      let f = Mem.first_of c.entries c.snapshot_metadata in
      let es = between low high in
      let base : f + (low - f) ≡ low = omega arith in
      let follows : Contiguous low es =
        take-Contiguous low (high - low) (drop (low - f) c.entries) (
          subst (λ i. Contiguous i (drop (low - f) c.entries)) base
            (drop-Contiguous f (low - f) c.entries v.contiguous)) in
      let left = length-drop (low - f) c.entries in
      let count =
        length-take (high - low) (drop (low - f) c.entries)
          (omega (arith, left, last_index_lem c v)) in
      let above : ltb low (Mem.first_index c) ≡ false = ground arith in
      let within : ltb (Mem.last_index c + 1) high ≡ false = ground arith in
      let ordered : ltb high low ≡ false = ground arith in
      let end : min high (Mem.last_index c + 1) ≡ high = omega arith in
      rw
        (
          get_entry_meta_lem laws prost codecs core s c v r,
          above,
          within,
          ordered,
          yields,
          end,
          collect_lem prost codecs core low high es rest follows (omega (arith, count)),
        )
        refl
