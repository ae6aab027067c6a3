-- ===== src/Rocks/Store/Again.antt =====
-- oceanraft/src/storage/rocks.rs, `RockStore`: what is written is found again.
use oceanraft.Common.{ℕ, ◌≡◌, refl, inl, inr, Bool, true, false, some, none, Option-cases, ok}
use oceanraft.Types.{ReplicaDesc, GroupMetadata}
use oceanraft.Rocks.Keys.{Bytes, format_replica_desc_key, format_empty_key}
use oceanraft.Rocks.Keys.Order.{same_bytes_refl}
use oceanraft.Rocks.Db.{metadata_cf, log_cf, Put, RocksDb, IsRocksDb, Prost, IsProst, put_value}
use oceanraft.Rocks.Core.{RockStoreCore, new, new_batch, set_empty_flag, flag_text}
use oceanraft.Rocks.Store.{group_store_key, get_decoded, create_group_store_if_missing}
use oceanraft.Rocks.Store.Api.{
  group_storage, get_replica_desc, set_replica_desc, remove_replica_desc,
}

module _ {S : Type 0} {rocks : RocksDb S} (laws : IsRocksDb rocks) (prost : Prost)
    (codecs : IsProst prost) (is_utf8 : Bytes → Bool) (node_id : ℕ) (s : S)
    (works : laws.Working s) where
  -- On a database that works, the replica that is set is the one that is read, until it is removed.
  pub replica_desc_reread :
      (group_id : ℕ) (rd : ReplicaDesc)
      → (s' : S) × (set_replica_desc rocks prost is_utf8 node_id group_id rd s ≡ (s', ok tt))
        × (get_replica_desc rocks prost is_utf8 node_id group_id rd.replica_id s'
            ≡ (s', ok (some rd)))
        × (t : S) × (remove_replica_desc rocks prost is_utf8 node_id group_id rd.replica_id s'
            ≡ (t, ok tt))
        × (get_replica_desc rocks prost is_utf8 node_id group_id rd.replica_id t ≡ (t, ok none))
  unfolding set_replica_desc get_replica_desc remove_replica_desc get_decoded put_value
  replica_desc_reread group_id rd =
      let key = format_replica_desc_key group_id rd.replica_id in
      let p : Put = record { cf = metadata_cf; key = key; value = prost.replica_desc.encode rd } in
      let s' = laws.after_put p s in
      let works' = laws.put-Working p s works in
      let t = laws.after_delete_key metadata_cf key s' in
      let works'' = laws.delete_key-Working metadata_cf key s' works' in
      (
        s',
        rw (laws.put_lem p s works) refl,
        rw
            (
              laws.get_lem metadata_cf key s' works',
              laws.view_put p s metadata_cf key,
              same_bytes_refl key,
              codecs.replica_desc rd,
            )
            refl,
        t,
        rw (laws.delete_lem metadata_cf key s' works') refl,
        rw
            (
              laws.get_lem metadata_cf key t works'',
              laws.view_delete_key metadata_cf key s' metadata_cf key,
              same_bytes_refl key,
            )
            refl,
      )

  -- On a database that works, the storage of a group is always given, and asking for it again gives
  -- the same and changes nothing.
  pub group_storage_again :
      (now later group_id replica_id : ℕ)
      → let core : RockStoreCore = record {
        node_id = node_id;
        group_id = group_id;
        replica_id = replica_id;
      } in
        (s' : S) × (group_storage rocks prost is_utf8 node_id now group_id replica_id s
          ≡ (s', ok core))
        × (group_storage rocks prost is_utf8 node_id later group_id replica_id s' ≡ (s', ok core))
  unfolding group_storage create_group_store_if_missing new set_empty_flag put_value
  group_storage_again now later group_id replica_id =
      let core : RockStoreCore = record {
        node_id = node_id;
        group_id = group_id;
        replica_id = replica_id;
      } in
      let key = group_store_key group_id replica_id in
      elim (Option-cases (laws.view s metadata_cf key)) [
        | inr (bytes, found) ↦
            let read = laws.get_lem metadata_cf key s works in
            (s, rw (read, found) refl, rw (read, found) refl)
        | inl missing ↦
            let flag : Put = record {
              cf = log_cf;
              key = format_empty_key group_id replica_id;
              value = flag_text true;
            } in
            let s₁ = laws.after_put flag s in
            let works₁ = laws.put-Working flag s works in
            let batch = new_batch rocks prost core in
            let s₂ = laws.after_write batch s₁ in
            let works₂ = laws.write-Working batch s₁ works₁ in
            let meta : GroupMetadata = record {
              group_id = group_id;
              replica_id = replica_id;
              node_id = node_id;
              leader_id = 0;
              create_timestamp = now;
              deleted = false;
            } in
            let p : Put = record {
              cf = metadata_cf;
              key = key;
              value = prost.group_metadata.encode meta;
            } in
            let s₃ = laws.after_put p s₂ in
            let works₃ = laws.put-Working p s₂ works₂ in
            (
              s₃,
              rw
                  (
                    laws.get_lem metadata_cf key s works,
                    missing,
                    laws.put_lem flag s works,
                    laws.write_lem batch s₁ works₁,
                    laws.put_lem p s₂ works₂,
                  )
                  refl,
              rw
                  (
                    laws.get_lem metadata_cf key s₃ works₃,
                    laws.view_put p s₂ metadata_cf key,
                    same_bytes_refl key,
                  )
                  refl,
            )
      ]
