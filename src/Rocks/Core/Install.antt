-- ===== src/Rocks/Core/Install.antt =====
-- oceanraft/src/storage/rocks.rs, `install_snapshot`: what it leaves of a log with entries.
use oceanraft.Common.{
  ℕ, ◌+◌, ◌≤◌, ◌≡◌, ◌≢◌, refl, ap, ◌∙◌, max, Bool, true, false, List, some, none, ltb, ◌==◌,
  Outcome, ok, panic, arith,
}
use oceanraft.Types.{HardState, Snapshot, SnapshotMetadata}
use oceanraft.Types.Errors.{StorageError}
use oceanraft.Storage.Mem.{MemStorageCore}
use oceanraft.Storage.Mem.Valid.{IsValid, last_index_lem}
use oceanraft.Rocks.Keys.{
  Bytes, format_hardstate_key, format_confstate_key, format_entry_key, format_snapshot_metadata_key,
  bytes_lt,
}
use oceanraft.Rocks.Keys.Order.{format_entry_key-bytes_lt, same_bytes_refl}
use oceanraft.Rocks.Keys.Apart.{
  empty_behind, first_behind, last_behind, meta_hardstate, hardstate_meta, confstate_meta,
}
use oceanraft.Rocks.Db.{
  metadata_cf, log_cf, Put, RocksDb, IsRocksDb, Prost, IsProst, put_value, delete_value,
}
use oceanraft.Rocks.Core.{
  RockStoreCore, read_or, get_hard_state, get_snapshot_metadata, set_snapshot_metadata,
  get_entry_meta, entry_meta_of, expect_found,
}
use oceanraft.Rocks.Core.Data.{from_be_bytes-to_be_bytes, parse_flag-flag_text}
use oceanraft.Rocks.Core.Log.{term}
use oceanraft.Rocks.Core.State.{install_snapshot, set_hardstate, set_confstate, clear_entries}
use oceanraft.Rocks.Core.Represents.{Represents, get_entry_meta_lem, first_below, is_empty-length}
use oceanraft.Storage.Mem as Mem

module _ {S Context : Type 0} {rocks : RocksDb S} (laws : IsRocksDb rocks) (prost : Prost)
    (codecs : IsProst prost) (core : RockStoreCore) (s : S) (c : MemStorageCore Context)
    (v : IsValid c) (r : Represents laws prost core s c) (filled : Mem.is_empty c.entries ≡ false)
    (snap : Snapshot) (hs : HardState)
    (stored : laws.view s metadata_cf (format_hardstate_key core.group_id core.replica_id)
      ≡ some (prost.hard_state.encode hs)) where
  abbrev hs' : HardState
  hs' = record hs { term = max snap.metadata.term hs.term; commit = snap.metadata.index }

  abbrev put_meta : Put
  put_meta = record {
    cf = metadata_cf;
    key = format_snapshot_metadata_key core.group_id core.replica_id;
    value = prost.metadata.encode snap.metadata;
  }

  abbrev put_hs : Put
  put_hs = record {
    cf = metadata_cf;
    key = format_hardstate_key core.group_id core.replica_id;
    value = prost.hard_state.encode hs';
  }

  abbrev put_cs : Put
  put_cs = record {
    cf = metadata_cf;
    key = format_confstate_key core.group_id core.replica_id;
    value = prost.conf_state.encode snap.metadata.conf_state;
  }

  abbrev start : Bytes
  start = format_entry_key core.group_id (Mem.first_index c)

  abbrev end : Bytes
  end = format_entry_key core.group_id (Mem.last_index c + 1)

  -- The states after each write of the call.
  abbrev s₁ : S
  s₁ = laws.after_put put_meta s

  abbrev s₂ : S
  s₂ = laws.after_put put_hs s₁

  abbrev s₃ : S
  s₃ = laws.after_delete log_cf start end s₂

  abbrev s₄ : S
  s₄ = laws.after_put put_cs s₃

  works₁ : laws.Working s₁
  works₁ = laws.put-Working put_meta s r.working

  works₂ : laws.Working s₂
  works₂ = laws.put-Working put_hs s₁ works₁

  works₃ : laws.Working s₃
  works₃ = laws.delete-Working log_cf start end s₂ works₂

  works₄ : laws.Working s₄
  works₄ = laws.put-Working put_cs s₃ works₃

  view-hs :
      laws.view s₁ metadata_cf (format_hardstate_key core.group_id core.replica_id)
      ≡ some (prost.hard_state.encode hs)
  unfolding put_value
  view-hs =
      laws.view_put put_meta s metadata_cf _
      ∙ rw (meta_hardstate core.group_id core.replica_id) stored

  view-meta :
      laws.view s₄ metadata_cf (format_snapshot_metadata_key core.group_id core.replica_id)
      ≡ some (prost.metadata.encode snap.metadata)
  unfolding put_value delete_value
  view-meta =
      let key = format_snapshot_metadata_key core.group_id core.replica_id in
      laws.view_put put_cs s₃ metadata_cf key
      ∙ rw (confstate_meta core.group_id core.replica_id) (
          laws.view_delete log_cf start end s₂ metadata_cf key
          ∙ laws.view_put put_hs s₁ metadata_cf key
          ∙ rw (hardstate_meta core.group_id core.replica_id)
              (laws.view_put put_meta s metadata_cf key ∙ rw (same_bytes_refl key) refl))

  -- The column family of the log is as before but for the range of the entries.
  view-log :
      (key : Bytes)
      → laws.view s₄ log_cf key ≡ delete_value log_cf start end log_cf key (laws.view s log_cf key)
  unfolding put_value
  view-log key =
      laws.view_put put_cs s₃ log_cf key
      ∙ laws.view_delete log_cf start end s₂ log_cf key
      ∙ ap (delete_value log_cf start end log_cf key)
          (laws.view_put put_hs s₁ log_cf key ∙ laws.view_put put_meta s log_cf key)

  view-behind :
      (key : Bytes)
      → ((i : ℕ) → bytes_lt key (format_entry_key core.group_id i) ≡ false)
      → laws.view s₄ log_cf key ≡ laws.view s log_cf key
  unfolding delete_value
  view-behind key behind =
      view-log key ∙ rw (behind (Mem.first_index c), behind (Mem.last_index c + 1)) refl

  meta₄ : get_entry_meta rocks prost core s₄ ≡ (
    s₄,
    ok (record { first_index = Mem.first_index c; last_index = Mem.last_index c; empty = false }),
  )
  unfolding get_entry_meta entry_meta_of expect_found
  meta₄ =
      let flag =
        view-behind _ (λ i. empty_behind core.group_id i core.group_id core.replica_id) ∙ r.flag in
      let first =
        view-behind _ (λ i. first_behind core.group_id i core.group_id core.replica_id)
        ∙ r.first filled in
      let last =
        view-behind _ (λ i. last_behind core.group_id i core.group_id core.replica_id)
        ∙ r.last filled in
      rw
        (
          laws.multi_get_lem log_cf _ s₄ works₄,
          flag,
          filled,
          parse_flag-flag_text false,
          first,
          from_be_bytes-to_be_bytes (Mem.first_index c)
              (first_below laws prost codecs core s c v r filled),
          last,
          from_be_bytes-to_be_bytes (Mem.last_index c) (omega (arith, r.bound)),
        )
        refl

  -- The range of the entries has its end behind its start.
  start-end : bytes_lt start end ≡ true
  unfolding Mem.first_index
  start-end =
      let more = is_empty-length c.entries filled in
      format_entry_key-bytes_lt core.group_id (Mem.first_index c) (Mem.last_index c + 1)
        (omega (arith, first_below laws prost codecs core s c v r filled)) (omega (arith, r.bound))
      ∙ ground (arith, last_index_lem c v, more)

  read-meta : get_snapshot_metadata rocks prost core s₄ ≡ (s₄, ok snap.metadata)
  unfolding get_snapshot_metadata read_or
  read-meta =
      let key = format_snapshot_metadata_key core.group_id core.replica_id in
      rw (laws.get_lem metadata_cf key s₄ works₄, view-meta, codecs.metadata snap.metadata) refl

  read-hs : get_hard_state rocks prost core s₁ ≡ (s₁, ok hs)
  unfolding get_hard_state read_or
  read-hs =
      let key = format_hardstate_key core.group_id core.replica_id in
      rw (laws.get_lem metadata_cf key s₁ works₁, view-hs, codecs.hard_state hs) refl

  term-first :
      Mem.first_index c ≢ snap.metadata.index
      → term rocks prost core (Mem.first_index c) s₄ ≡ (s₄, panic)
  unfolding term delete_value Mem.first_index
  term-first off =
      let f = Mem.first_index c in
      let small = first_below laws prost codecs core s c v r filled in
      let more = is_empty-length c.entries filled in
      let away : (f == snap.metadata.index) ≡ false = ground arith in
      let above : ltb f f ≡ false = ground arith in
      let within : ltb (Mem.last_index c) f ≡ false = ground (arith, last_index_lem c v, more) in
      let start-in =
        format_entry_key-bytes_lt core.group_id f f (omega (arith, small)) (omega (arith, small))
        ∙ above in
      let gone : laws.view s₄ log_cf start ≡ none =
        view-log start ∙ rw (start-in, start-end) refl in
      rw (read-meta, away)
        (rw (meta₄, above, within) (rw (laws.get_lem log_cf start s₄ works₄, gone) refl))

  -- On a log with entries, a snapshot from its first index on is installed, the hard state taken over
  -- and every entry deleted, and still the flag and both ends of the log stay as they were: the
  -- first index is not behind the snapshot, and reading the term there panics.
  pub install_snapshot_stale :
      (is_default : SnapshotMetadata → Bool)
      (install : (group_id replica_id : ℕ) → List ℕ → S → S × Outcome StorageError (Unit {0}))
      → ((t : S) → install core.group_id core.replica_id snap.payload t ≡ (t, ok tt))
      → is_default snap.metadata ≡ false
      → Mem.first_index c ≤ snap.metadata.index
      → (s' : S) × (install_snapshot rocks prost core is_default install snap s ≡ (s', ok tt))
        × (get_snapshot_metadata rocks prost core s' ≡ (s', ok snap.metadata))
        × (get_entry_meta rocks prost core s' ≡ (
          s',
          ok (record {
            first_index = Mem.first_index c;
            last_index = Mem.last_index c;
            empty = false;
          }),
        ))
        × (Mem.first_index c ≢ snap.metadata.index
            → term rocks prost core (Mem.first_index c) s' ≡ (s', panic))
  unfolding install_snapshot set_snapshot_metadata set_hardstate clear_entries set_confstate
  install_snapshot_stale is_default install installs other lo =
      let above : ltb snap.metadata.index (Mem.first_index c) ≡ false = ground arith in
      (
        s₄,
        rw
            (
              get_entry_meta_lem laws prost codecs core s c v r,
              above,
              other,
              laws.put_lem put_meta s r.working,
              installs s₁,
              read-hs,
            )
            (rw (laws.put_lem put_hs s₁ works₁) (
              rw
                (
                  filled,
                  laws.delete_range_lem log_cf start end s₂ works₂ start-end,
                  laws.put_lem put_cs s₃ works₃,
                )
                refl)),
        read-meta,
        meta₄,
        term-first,
      )
