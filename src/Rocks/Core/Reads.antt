-- ===== src/Rocks/Core/Reads.antt =====
-- oceanraft/src/storage/rocks.rs against oceanraft/src/storage/mem.rs: the calls that read the log.
use oceanraft.Common.{
  ℕ, ◌-◌, get_elem?, ◌≡◌, refl, inl, inr, true, some, ltb, ◌==◌, ok, Bool-cases, arith,
}
use oceanraft.Storage.Mem.{MemStorageCore}
use oceanraft.Storage.Mem.Valid.{IsValid}
use oceanraft.Storage.Api.Reads.{entry_at-some}
use oceanraft.Rocks.Keys.{
  format_empty_key, format_first_index_key, format_last_index_key, format_entry_key,
}
use oceanraft.Rocks.Db.{log_cf, RocksDb, IsRocksDb, Prost, IsProst}
use oceanraft.Rocks.Core.{RockStoreCore, is_empty}
use oceanraft.Rocks.Core.Data.{from_be_bytes-to_be_bytes, parse_flag-flag_text}
use oceanraft.Rocks.Core.Log.{term, first_index, last_index, index_under}
use oceanraft.Rocks.Core.Represents.{
  Represents, is_empty-cases, get_snapshot_metadata_lem, get_entry_meta_lem, first_below,
}
use oceanraft.Storage.Mem as Mem
use oceanraft.Storage.Api as Api

module _ {S Context : Type 0} {rocks : RocksDb S} (laws : IsRocksDb rocks) (prost : Prost)
    (codecs : IsProst prost) (core : RockStoreCore) (s : S) (c : MemStorageCore Context)
    (v : IsValid c) (r : Represents laws prost core s c) where
  is_empty_lem : is_empty rocks prost core s ≡ (s, ok (Mem.is_empty c.entries))
  unfolding is_empty
  is_empty_lem =
      rw
        (
          laws.get_lem log_cf (format_empty_key core.group_id core.replica_id) s r.working,
          r.flag,
          parse_flag-flag_text (Mem.is_empty c.entries),
        )
        refl

  -- Both ends of the log that is stored are those of the log in memory.
  pub indexes_same :
      (first_index rocks prost core s ≡ (s, ok (Mem.first_index c)))
      × (last_index rocks prost core s ≡ (s, ok (Mem.last_index c)))
  unfolding first_index last_index index_under Mem.first_index Mem.last_index Mem.first_of
  indexes_same =
      let first_key = format_first_index_key core.group_id core.replica_id in
      let last_key = format_last_index_key core.group_id core.replica_id in
      elim (is_empty-cases c.entries) [
        | inl h ↦
            let flag : Mem.is_empty c.entries ≡ true = rw h refl in
            let meta = get_snapshot_metadata_lem laws prost codecs core s c v r in
            (rw (is_empty_lem, flag, meta, h) refl, rw (is_empty_lem, flag, meta, h) refl)
        | inr h ↦ (
          rw
              (
                is_empty_lem,
                h,
                laws.get_lem log_cf first_key s r.working,
                r.first h,
                from_be_bytes-to_be_bytes (Mem.first_index c)
                    (first_below laws prost codecs core s c v r h),
              )
              refl,
          rw
              (
                is_empty_lem,
                h,
                laws.get_lem log_cf last_key s r.working,
                r.last h,
                from_be_bytes-to_be_bytes (Mem.last_index c) (omega (arith, r.bound)),
              )
              refl,
        )
      ]

  -- The term that is read at any position is the one that is read in memory, errors included.
  pub term_same : (i : ℕ) → term rocks prost core i s ≡ (s, Api.term i c)
  unfolding term Api.term Mem.first_index Mem.first_of
  term_same i =
      rw (get_snapshot_metadata_lem laws prost codecs core s c v r)
        (elim (Bool-cases (i == c.snapshot_metadata.index)) [
          | inl at ↦ rw at refl
          | inr off ↦
              rw (off, get_entry_meta_lem laws prost codecs core s c v r)
                (elim (Bool-cases (ltb i (Mem.first_index c))) [
                  | inl low ↦ rw low refl
                  | inr lo ↦ rw lo (elim (Bool-cases (ltb (Mem.last_index c) i)) [
                    | inl high ↦ rw high refl
                    | inr hi ↦
                        let (e, held, at) = entry_at-some c v i (ground arith) (ground arith) in
                        let got : get_elem? c.entries (i - Mem.first_index c) ≡ some e =
                          ground (arith, held) in
                        let key = format_entry_key core.group_id i in
                        rw
                          (
                            hi,
                            laws.get_lem log_cf key s r.working,
                            r.entry i e held,
                            codecs.entry e,
                            got,
                          )
                          refl
                  ])
                ])
        ])
