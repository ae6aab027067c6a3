-- ===== src/Rocks/Core/Represents.antt =====
-- oceanraft/src/storage/rocks.rs against oceanraft/src/storage/mem.rs: when the database holds, under
-- the keys of a replica, the log that a `MemStorageCore` holds in memory.
use oceanraft.Common.{
  ℕ, ◌+◌, ◌^◌, ◌<◌, ◌≤◌, ◌≡◌, refl, ◌⊎◌, inl, inr, true, false, [], ◌∷◌, some, length, List,
  Outcome, ok, err, panic, arith,
}
use oceanraft.Types.{Entry}
use oceanraft.Types.Errors.{StorageError}
use oceanraft.Storage.Mem.{MemStorageCore}
use oceanraft.Storage.Mem.Valid.{IsValid, entry_at, last_index_lem}
use oceanraft.Rocks.Keys.{
  format_empty_key, format_first_index_key, format_last_index_key, format_entry_key,
  format_snapshot_metadata_key,
}
use oceanraft.Rocks.Db.{metadata_cf, log_cf, RocksDb, IsRocksDb, Prost, IsProst}
use oceanraft.Rocks.Core.{
  RockStoreCore, to_be_bytes, flag_text, read_or, get_snapshot_metadata, get_entry_meta,
  entry_meta_of, expect_found,
}
use oceanraft.Rocks.Core.Data.{from_be_bytes-to_be_bytes, parse_flag-flag_text}
use oceanraft.Storage.Mem as Mem

module _ {S Context : Type 0} {rocks : RocksDb S} (laws : IsRocksDb rocks) (prost : Prost)
    (core : RockStoreCore) where
  pub record Represents (s : S) (c : MemStorageCore Context) : Type 0 where
    pub working : laws.Working s
    pub flag :
        laws.view s log_cf (format_empty_key core.group_id core.replica_id)
        ≡ some (flag_text (Mem.is_empty c.entries))
    pub meta :
        laws.view s metadata_cf (format_snapshot_metadata_key core.group_id core.replica_id)
        ≡ some (prost.metadata.encode c.snapshot_metadata)
    pub first :
        Mem.is_empty c.entries ≡ false
        → laws.view s log_cf (format_first_index_key core.group_id core.replica_id)
          ≡ some (to_be_bytes (Mem.first_index c))
    pub last :
        Mem.is_empty c.entries ≡ false
        → laws.view s log_cf (format_last_index_key core.group_id core.replica_id)
          ≡ some (to_be_bytes (Mem.last_index c))
    pub entry :
        (i : ℕ) (e : Entry)
        → entry_at c i ≡ some e
        → laws.view s log_cf (format_entry_key core.group_id i) ≡ some (prost.entry.encode e)
    pub bound : Mem.last_index c + 1 < 2 ^ 64

-- A call on the database does what a call in memory does: where that one returns a log, the result
-- is a success and the database holds that log; where it panics, the call panics.
module _ {S Context : Type 0} {rocks : RocksDb S} (laws : IsRocksDb rocks) (prost : Prost)
    (core : RockStoreCore) where
  abbrev pub Simulates :
      Outcome StorageError (MemStorageCore Context) → S × Outcome StorageError (Unit {0}) → Type 0
  Simulates (ok c') (s', result) = (result ≡ ok tt) × IsValid c' × Represents laws prost core s' c'
  Simulates (err e) (s', result) = result ≡ err e
  Simulates panic (s', result) = result ≡ panic

pub is_empty-length : (es : List Entry) → Mem.is_empty es ≡ false → 1 ≤ length es
is_empty-length [] h = cc
is_empty-length (e ∷ es) h = omega arith

pub is_empty-cases : (es : List Entry) → (es ≡ []) ⊎ (Mem.is_empty es ≡ false)
is_empty-cases [] = inl refl
is_empty-cases (e ∷ es) = inr refl

module _ {S Context : Type 0} {rocks : RocksDb S} (laws : IsRocksDb rocks) (prost : Prost)
    (codecs : IsProst prost) (core : RockStoreCore) (s : S) (c : MemStorageCore Context)
    (v : IsValid c) (r : Represents laws prost core s c) where
  pub get_snapshot_metadata_lem :
      get_snapshot_metadata rocks prost core s ≡ (s, ok c.snapshot_metadata)
  unfolding get_snapshot_metadata read_or
  get_snapshot_metadata_lem =
      let key = format_snapshot_metadata_key core.group_id core.replica_id in
      rw (laws.get_lem metadata_cf key s r.working, r.meta, codecs.metadata c.snapshot_metadata)
        refl

  pub first_below : Mem.is_empty c.entries ≡ false → Mem.first_index c < 2 ^ 64
  unfolding Mem.first_index
  first_below h = omega (arith, r.bound, last_index_lem c v, is_empty-length c.entries h)

  pub get_entry_meta_lem : get_entry_meta rocks prost core s ≡ (
    s,
    ok (record {
      first_index = Mem.first_index c;
      last_index = Mem.last_index c;
      empty = Mem.is_empty c.entries;
    }),
  )
  unfolding get_entry_meta entry_meta_of expect_found Mem.first_index Mem.last_index Mem.first_of
  get_entry_meta_lem = elim (is_empty-cases c.entries) [
    | inl h ↦
        let flag : Mem.is_empty c.entries ≡ true = rw h refl in
        rw
          (
            laws.multi_get_lem log_cf _ s r.working,
            r.flag,
            flag,
            parse_flag-flag_text true,
            get_snapshot_metadata_lem,
          )
          (rw (Mem.first_index, Mem.last_index, h) refl)
    | inr h ↦
        rw
          (
            laws.multi_get_lem log_cf _ s r.working,
            r.flag,
            h,
            parse_flag-flag_text false,
            r.first h,
            from_be_bytes-to_be_bytes (Mem.first_index c) (first_below h),
            r.last h,
            from_be_bytes-to_be_bytes (Mem.last_index c) (omega (arith, r.bound)),
          )
          refl
  ]
