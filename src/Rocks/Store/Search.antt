-- ===== src/Rocks/Store/Search.antt =====
-- oceanraft/src/storage/rocks.rs, `RockStore`: what is found of the replicas that are stored.
use oceanraft.Common.{
  ℕ, ◌^◌, ◌<◌, ◌≡◌, refl, ap, inl, inr, Bool, false, List, [], ◌∷◌, ◌++◌, map, none, ◌==◌, length,
  All, Bool-cases, Outcome, ok, arith,
}
use oceanraft.Types.{ReplicaDesc}
use oceanraft.Rocks.Errors.{RocksdbErrorKind}
use oceanraft.Rocks.Keys.{
  Bytes, underscore, digits, pad_left, format_replica_desc_key, format_group_replica_desc_seek_key,
}
use oceanraft.Rocks.Keys.Digits.{
  IsDigit, length-pad_left-digits, pad_left-digits-IsDigit, length-digits,
}
use oceanraft.Rocks.Db.{metadata_cf, RocksDb, Prost, Codec}
use oceanraft.Rocks.Store.{starts_with, search, search_replica_desc_on_node}

-- A longer row of digits does not begin with a shorter text that ends in an underscore.
longer :
    (ps ds a : Bytes)
    → All IsDigit ps
    → length ds < length ps
    → starts_with (ps ++ underscore ++ a) (ds ++ underscore) ≡ false
longer [] ds a h l = absurd (omega arith)
longer (p ∷ ps) [] a h l = let off : (p == 95) ≡ false = ground (arith, h.0) in rw off refl
longer (p ∷ ps) (d ∷ ds) a h l = ground (arith, longer ps ds a h.1 (omega arith))

-- No key of a replica, of whatever group, begins with the text that a search in a group seeks.
seek-apart :
    (group_id g r : ℕ)
    → group_id < 10 ^ 19
    → starts_with (format_replica_desc_key g r) (format_group_replica_desc_seek_key group_id)
      ≡ false
unfolding format_replica_desc_key format_group_replica_desc_seek_key
seek-apart group_id g r small =
    longer (pad_left 20 (digits g)) (digits group_id) (pad_left 20 (digits r))
      (pad_left-digits-IsDigit g)
      (omega (arith, length-pad_left-digits g, length-digits group_id small))

-- What an iterator yields under the key of a replica.
abbrev pub desc_item :
    Codec ReplicaDesc → ℕ × ReplicaDesc → Outcome RocksdbErrorKind (Bytes × Bytes)
desc_item codec (g, d) = ok (format_replica_desc_key g d.replica_id, codec.encode d)

module _ {S : Type 0} (rocks : RocksDb S) (prost : Prost) (is_utf8 : Bytes → Bool)
    (node_id : ℕ) where
  -- Whatever replicas the iterator yields, of the group and of others, the search for the replica
  -- of a group on a node finds none, if the group's id has fewer than twenty digits.
  pub search_replica_desc_on_node_misses :
      (group_id target : ℕ) (stored : List (ℕ × ReplicaDesc)) (s s' : S)
      → group_id < 10 ^ 19
      → rocks.iterate metadata_cf (format_group_replica_desc_seek_key group_id) s
        ≡ (s', map (desc_item prost.replica_desc) stored)
      → search_replica_desc_on_node rocks prost is_utf8 node_id group_id target s ≡ (s', ok none)
  unfolding search_replica_desc_on_node search
  search_replica_desc_on_node_misses group_id target stored s s' small yields =
      rw yields (ap (λ found. (s', found)) (nothing stored))
    where
      nothing :
          (stored : List (ℕ × ReplicaDesc))
          → search prost.replica_desc is_utf8
              (format_group_replica_desc_seek_key group_id)
              target
              (map (desc_item prost.replica_desc) stored)
            ≡ ok none
      nothing [] = refl
      nothing ((g, d) ∷ stored) =
          let apart = seek-apart group_id g d.replica_id small in
          elim (Bool-cases (is_utf8 (format_replica_desc_key g d.replica_id))) [
            | inl t ↦ rw (search, t, apart) refl
            | inr f ↦ rw (search, f) refl
          ]
