-- ===== src/Rocks/Core/Append.antt =====
-- oceanraft/src/storage/rocks.rs, `append`, against oceanraft/src/storage/mem.rs.
use oceanraft.Common.{
  ℕ, suc, ◌+◌, ◌-◌, ◌^◌, ◌<◌, ◌≤◌, ◌≡◌, refl, sym, ap, ◌∙◌, inl, inr, true, false, List, [], ◌∷◌,
  ◌++◌, some, ltb, if◌then◌else◌, length, get_elem?, take, length-take, length-append,
  get_elem?-none, ok, Bool-cases, arith,
}
use oceanraft.Types.{Entry}
use oceanraft.Storage.Mem.{MemStorageCore, check_available}
use oceanraft.Storage.Mem.Contiguous.{Contiguous}
use oceanraft.Storage.Mem.Valid.{IsValid, entry_at, last_index_lem}
use oceanraft.Storage.Mem.Append.{
  appended, append_branches, appended-IsValid, entry_at-appended, first_of-overwritten,
}
use oceanraft.Rocks.Keys.{
  format_empty_key, format_first_index_key, format_entry_key, format_snapshot_metadata_key, Bytes,
  bytes_lt,
}
use oceanraft.Rocks.Keys.Order.{format_entry_key-bytes_lt}
use oceanraft.Rocks.Keys.Apart.{empty_behind, first_behind}
use oceanraft.Rocks.Db.{
  Cf, Put, metadata_cf, log_cf, RocksDb, IsRocksDb, Prost, IsProst, delete_value,
}
use oceanraft.Rocks.Core.{RockStoreCore, flag_text, to_be_bytes}
use oceanraft.Rocks.Core.Log.{append, append_batch, last_of}
use oceanraft.Rocks.Core.Represents.{Represents, Simulates, is_empty-cases, get_entry_meta_lem}
use oceanraft.Rocks.Core.Batch.{batch_flag, batch_first, batch_last, batch_entry, batch_meta}
use oceanraft.Storage.Mem as Mem

last_of_lem :
    (i : ℕ) (e : Entry) (es : List Entry) → Contiguous i (e ∷ es) → last_of e es ≡ i + length es
unfolding last_of
last_of_lem i e [] run = omega (arith, run.0)
last_of_lem i e (e' ∷ es) run = omega (arith, last_of_lem (suc i) e' es run.1)

is_empty-append :
    (xs : List Entry) (e : Entry) (es : List Entry) → Mem.is_empty (xs ++ e ∷ es) ≡ false
is_empty-append [] e es = refl
is_empty-append (x ∷ xs) e es = refl

module _ {S Context : Type 0} {rocks : RocksDb S} (laws : IsRocksDb rocks) (prost : Prost)
    (codecs : IsProst prost) (core : RockStoreCore) (s : S) (c : MemStorageCore Context)
    (v : IsValid c) (r : Represents laws prost core s c) (e : Entry) (es : List Entry)
    (run : Contiguous e.index (e ∷ es)) (fits : last_of e es + 1 < 2 ^ 64) where
  abbrev start : Bytes
  start = format_entry_key core.group_id e.index

  abbrev end : Bytes
  end = format_entry_key core.group_id (Mem.last_index c + 1)

  abbrev batch : List Put
  batch = append_batch prost core (Mem.is_empty c.entries) e es

  -- The state after the range of the overwritten entries is deleted, if there is one.
  abbrev pub cut : S
  cut = if ltb (Mem.last_index c) e.index then s else laws.after_delete log_cf start end s

  abbrev pub done : S
  done = laws.after_write batch cut

  cut-Working : laws.Working cut
  cut-Working = elim (Bool-cases (ltb (Mem.last_index c) e.index)) [
    | inl h ↦ rw h r.working
    | inr h ↦ rw h (laws.delete-Working log_cf _ _ s r.working)
  ]

  -- What stands behind the entries, or below the first new one, is not cut.
  cut-view :
      (cf : Cf) (key : Bytes)
      → (delete_value log_cf start end cf key (laws.view s cf key) ≡ laws.view s cf key)
      → laws.view cut cf key ≡ laws.view s cf key
  cut-view cf key h = elim (Bool-cases (ltb (Mem.last_index c) e.index)) [
    | inl t ↦ rw t refl
    | inr f ↦ rw f (laws.view_delete log_cf _ _ s cf key ∙ h)
  ]

  -- The range of the overwritten entries has its end behind its start.
  start-end : e.index ≤ Mem.last_index c → bytes_lt start end ≡ true
  start-end h =
      format_entry_key-bytes_lt core.group_id e.index (Mem.last_index c + 1)
        (omega (arith, h, r.bound)) (omega (arith, r.bound))
      ∙ ground (arith, h)

  module _ (lo : Mem.first_index c ≤ e.index) (hi : e.index ≤ Mem.last_index c + 1) where
    append-ok : append rocks prost core (e ∷ es) s ≡ (done, ok tt)
    unfolding append
    append-ok =
        let lo' : ltb e.index (Mem.first_index c) ≡ false = ground arith in
        let hi' : ltb (Mem.last_index c + 1) e.index ≡ false = ground arith in
        rw (get_entry_meta_lem laws prost codecs core s c v r, lo', hi')
          (elim (Bool-cases (ltb (Mem.last_index c) e.index)) [
            | inl t ↦
                let whole : cut ≡ s = rw t refl in
                rw (t, laws.write_lem _ s r.working)
                  (ap (λ s'. (laws.after_write batch s', ok tt)) (sym whole))
            | inr f ↦
                let whole : cut ≡ laws.after_delete log_cf start end s = rw f refl in
                rw
                  (
                    f,
                    laws.delete_range_lem log_cf start end s r.working
                        (start-end (ground (arith, f))),
                    laws.write_lem batch _ (laws.delete-Working log_cf start end s r.working),
                  )
                  (ap (λ s'. (laws.after_write batch s', ok tt)) (sym whole))
          ])

    first_index-appended : Mem.first_index (appended c v e es) ≡ Mem.first_index c
    unfolding Mem.first_index
    first_index-appended =
        first_of-overwritten c.snapshot_metadata c.entries e es lo
          (omega (arith, last_index_lem c v))

    last_index-appended : Mem.last_index (appended c v e es) ≡ last_of e es
    unfolding Mem.first_index
    last_index-appended =
        let n = e.index - Mem.first_of c.entries c.snapshot_metadata in
        let kept = length-take n c.entries (omega (arith, last_index_lem c v)) in
        omega (
          arith,
          last_index_lem (appended c v e es) (appended-IsValid c v e es run lo hi),
          first_index-appended,
          length-append (take n c.entries) (e ∷ es),
          kept,
          last_of_lem e.index e es run,
        )

    done-flag :
        laws.view done log_cf (format_empty_key core.group_id core.replica_id)
        ≡ some (flag_text false)
    unfolding delete_value
    done-flag =
        let key = format_empty_key core.group_id core.replica_id in
        let behind = λ (i : ℕ). empty_behind core.group_id i core.group_id core.replica_id in
        let kept = cut-view log_cf key (rw (behind e.index, behind (Mem.last_index c + 1)) refl) in
        laws.view_write batch cut log_cf key
        ∙ batch_flag prost core (Mem.is_empty c.entries) e es (laws.view cut log_cf key)
            (kept ∙ r.flag)

    done-meta :
        laws.view done metadata_cf (format_snapshot_metadata_key core.group_id core.replica_id)
        ≡ some (prost.metadata.encode c.snapshot_metadata)
    unfolding delete_value
    done-meta =
        let key = format_snapshot_metadata_key core.group_id core.replica_id in
        laws.view_write batch cut metadata_cf key
        ∙ batch_meta prost core (Mem.is_empty c.entries) e es (laws.view cut metadata_cf key) key
        ∙ cut-view metadata_cf key refl
        ∙ r.meta

    done-first :
        laws.view done log_cf (format_first_index_key core.group_id core.replica_id)
        ≡ some (to_be_bytes (Mem.first_index c))
    unfolding delete_value Mem.first_index
    done-first =
        let key = format_first_index_key core.group_id core.replica_id in
        let behind = λ (i : ℕ). first_behind core.group_id i core.group_id core.replica_id in
        let kept = cut-view log_cf key (rw (behind e.index, behind (Mem.last_index c + 1)) refl) in
        laws.view_write batch cut log_cf key
        ∙ batch_first prost core (Mem.is_empty c.entries) e es (laws.view cut log_cf key)
        ∙ elim (is_empty-cases c.entries) [
          | inl h ↦
              let flag : Mem.is_empty c.entries ≡ true = rw h refl in
              let none : length c.entries ≡ 0 = rw h refl in
              let at : e.index ≡ Mem.first_index c = omega (arith, last_index_lem c v, none) in
              rw flag (ap (λ i. some (to_be_bytes i)) at)
          | inr h ↦ rw h (kept ∙ r.first h)
        ]

    done-entry :
        (i : ℕ) (e' : Entry)
        → entry_at (appended c v e es) i ≡ some e'
        → laws.view done log_cf (format_entry_key core.group_id i) ≡ some (prost.entry.encode e')
    unfolding delete_value
    done-entry i e' held =
        let key = format_entry_key core.group_id i in
        let ends = last_of_lem e.index e es run in
        let read = sym (entry_at-appended c v e es run lo hi i) ∙ held in
        let batched = λ (small : i < 10 ^ 20).
          laws.view_write batch cut log_cf key
          ∙ batch_entry prost core (Mem.is_empty c.entries) e es (laws.view cut log_cf key) i run
              (omega (arith, ends, fits)) small in
        elim (Bool-cases (ltb i e.index)) [
          | inl t ↦
              let small : i < 10 ^ 20 = ground (arith, ends, fits) in
              let order =
                format_entry_key-bytes_lt core.group_id i e.index small (omega (arith, ends, fits))
                ∙ t in
              let kept = cut-view log_cf key (rw order refl) in
              let old : entry_at c i ≡ some e' = ground (arith, read) in
              batched small ∙ rw t (kept ∙ r.entry i e' old)
          | inr f ↦
              let new : get_elem? (e ∷ es) (i - e.index) ≡ some e' = ground (arith, read) in
              elim (Bool-cases (ltb (i - e.index) (length (e ∷ es)))) [
                | inl t ↦
                    let small : i < 10 ^ 20 = ground (arith, ends, fits) in
                    batched small ∙ rw (f, new) refl
                | inr over ↦
                    let past = get_elem?-none (e ∷ es) (i - e.index) (ground arith) in absurd cc
              ]
        ]

    -- An append that panics neither in memory nor on disk.
    pub done-Represents : Represents laws prost core done (appended c v e es)
    done-Represents =
        let filled =
          is_empty-append (take (e.index - Mem.first_of c.entries c.snapshot_metadata) c.entries) e
            es in
        record {
          working = laws.write-Working _ cut cut-Working;
          flag = rw filled done-flag;
          meta = done-meta;
          first = λ h. rw first_index-appended done-first;
          last = λ h. rw last_index-appended (
              laws.view_write batch cut log_cf _
              ∙ batch_last prost core (Mem.is_empty c.entries) e es _);
          entry = done-entry;
          bound = rw last_index-appended fits;
        }

  -- Over a database that holds a valid log and works, an append of consecutive entries with indexes
  -- of 64 bits does what the append in memory does: it panics below the first index and past the end,
  -- and otherwise succeeds and leaves the database holding the log that memory then holds.
  pub append-Simulates :
      check_available c ≡ ok tt
      → Simulates laws prost core (Mem.append (e ∷ es) c) (append rocks prost core (e ∷ es) s)
  unfolding append
  append-Simulates free =
      let meta = get_entry_meta_lem laws prost codecs core s c v r in
      rw (append_branches c v e es) (elim (Bool-cases (ltb e.index (Mem.first_index c))) [
        | inl low ↦ rw (low, meta, low) refl
        | inr lo ↦ rw lo (elim (Bool-cases (ltb (Mem.last_index c + 1) e.index)) [
          | inl high ↦ rw (high, meta, lo, high) refl
          | inr hi ↦
              let lo' : Mem.first_index c ≤ e.index = ground arith in
              let hi' : e.index ≤ Mem.last_index c + 1 = ground arith in
              let valid = appended-IsValid c v e es run lo' hi' in
              rw (hi, free, append-ok lo' hi') (refl, valid, done-Represents lo' hi')
        ])
      ])
