-- ===== src/Rocks/Core/Rereads.antt =====
-- oceanraft/src/storage/rocks.rs: what `new` and the setters write is what the getters read.
use oceanraft.Common.{ℕ, ◌^◌, ◌<◌, ◌≡◌, refl, ◌∙◌, true, ok, arith}
use oceanraft.Types.{HardState}
use oceanraft.Storage.Mem.{MemStorageCore}
use oceanraft.Rocks.Keys.{
  format_hardstate_key, format_applied_key, format_empty_key, format_snapshot_metadata_key,
}
use oceanraft.Rocks.Keys.Order.{same_bytes_refl}
use oceanraft.Rocks.Db.{
  metadata_cf, log_cf, Put, RocksDb, IsRocksDb, Prost, IsProst, put_value, write_value,
}
use oceanraft.Rocks.Core.{
  RockStoreCore, new, new_batch, flag_text, get_hard_state, set_empty_flag, read_or, to_be_bytes,
}
use oceanraft.Rocks.Core.Data.{from_be_bytes-to_be_bytes}
use oceanraft.Rocks.Core.State.{set_hardstate, set_hardstate_commit, set_applied, get_applied}
use oceanraft.Rocks.Core.Represents.{Represents}
use oceanraft.Storage.Mem as Mem

module _ {S : Type 0} {rocks : RocksDb S} (laws : IsRocksDb rocks) (prost : Prost)
    (codecs : IsProst prost) (core : RockStoreCore) (s : S) (works : laws.Working s) where
  -- On a database that works, an applied index of 64 bits is read back as it was set.
  pub set_applied_reread :
      (index : ℕ)
      → index < 2 ^ 64
      → (s' : S) × (set_applied rocks prost core index s ≡ (s', ok tt))
        × laws.Working s'
        × (get_applied rocks prost core s' ≡ (s', ok index))
  unfolding set_applied get_applied put_value
  set_applied_reread index small =
      let key = format_applied_key core.group_id in
      let p : Put = record { cf = metadata_cf; key = key; value = to_be_bytes index } in
      let s' = laws.after_put p s in
      let works' = laws.put-Working p s works in
      (
        s',
        rw (laws.put_lem p s works) refl,
        works',
        rw
            (
              laws.get_lem metadata_cf key s' works',
              laws.view_put p s metadata_cf key,
              same_bytes_refl key,
              from_be_bytes-to_be_bytes index small,
            )
            refl,
      )

  -- A commit index that is set changes nothing else of the hard state that is read.
  pub set_hardstate_commit_reread :
      (hs : HardState) (commit : ℕ)
      → get_hard_state rocks prost core s ≡ (s, ok hs)
      → (s' : S) × (set_hardstate_commit rocks prost core commit s ≡ (s', ok tt))
        × laws.Working s'
        × (get_hard_state rocks prost core s' ≡ (s', ok (record hs { commit = commit })))
  unfolding set_hardstate_commit set_hardstate get_hard_state put_value read_or
  set_hardstate_commit_reread hs commit before =
      let key = format_hardstate_key core.group_id core.replica_id in
      let hs' : HardState = record hs { commit = commit } in
      let p : Put = record { cf = metadata_cf; key = key; value = prost.hard_state.encode hs' } in
      let s' = laws.after_put p s in
      let works' = laws.put-Working p s works in
      (
        s',
        rw (before, laws.put_lem p s works) refl,
        works',
        rw
            (
              laws.get_lem metadata_cf key s' works',
              laws.view_put p s metadata_cf key,
              same_bytes_refl key,
              codecs.hard_state hs',
            )
            refl,
      )

  abbrev flag_put : Put
  flag_put = record {
    cf = log_cf;
    key = format_empty_key core.group_id core.replica_id;
    value = flag_text true;
  }

  -- The database after the two writes of `new`.
  abbrev pub created : S
  created = laws.after_write (new_batch rocks prost core) (laws.after_put flag_put s)

  -- `new` over a database that works, also over one that holds a log already, succeeds and leaves it
  -- holding the empty log that a new memory holds.
  pub new-Represents :
      {Context : Type 0}
      → (new rocks prost core s ≡ (created, ok core))
        × Represents laws prost core created (Mem.new {Context = Context})
  unfolding new new_batch set_empty_flag put_value write_value Mem.new Mem.last_index Mem.first_of
  new-Represents =
      let key = format_empty_key core.group_id core.replica_id in
      let meta_key = format_snapshot_metadata_key core.group_id core.replica_id in
      let s₁ = laws.after_put flag_put s in
      let works₁ = laws.put-Working flag_put s works in
      let batch = new_batch rocks prost core in
      (
        rw (laws.put_lem flag_put s works, laws.write_lem batch s₁ works₁) refl,
        record {
          working = laws.write-Working batch s₁ works₁;
          flag =
              laws.view_write batch s₁ log_cf key
              ∙ laws.view_put flag_put s log_cf key
              ∙ rw (same_bytes_refl key) refl;
          meta = laws.view_write batch s₁ metadata_cf meta_key ∙ rw (same_bytes_refl meta_key) refl;
          first = λ h. absurd cc;
          last = λ h. absurd cc;
          entry = λ i e h. ground (arith, h);
          bound = omega arith;
        },
      )
