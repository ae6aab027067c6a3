-- ===== src/Replica/Tests.antt =====
-- Runs of oceanraft/src/replica_cache.rs over the memory storage.
use oceanraft.Common.{
  ℕ, ◌≡◌, refl, Bool, true, false, ◌&&◌, [], ◌∷◌, some, ◌==◌, if◌then◌else◌, ◌>>=◌, ok,
}
use oceanraft.Types.{ReplicaDesc}
use oceanraft.Replica.Memory.{MultiRaftMemoryStorage, memory, get_replica_desc, set_replica_desc}
use oceanraft.Replica.Directory.{or_else, memory-IsStorage, set_replica_desc_lem}
use oceanraft.Replica.Cache.{ReplicaCache, replica_desc, cache_replica_desc, remove_replica_desc}
use oceanraft.Replica.Again.{
  replica_desc_again, cache_replica_desc_unsynced, remove_replica_desc_uncached,
}

abbrev desc : ℕ → ReplicaDesc
desc r = record { node_id = r; group_id = 7; replica_id = r }

abbrev Memory : Type 0
Memory = MultiRaftMemoryStorage Bool

abbrev storage : Memory
storage = record {
  node_id = 1;
  trigger_storage_temp_unavailable = false;
  group_storages = [];
  group_metadatas = [];
  replicas = (7, desc 2 ∷ []) ∷ [];
}

abbrev down : Memory
down = record storage { trigger_storage_temp_unavailable = true }

abbrev cache : ReplicaCache Memory
cache = record { storage = storage; cache = [] }

set_replica_desc_lem_example :
    (s' : Memory) × (set_replica_desc 7 (desc 3) storage ≡ ok s')
    × ((g' r : ℕ)
        → get_replica_desc g' r s' ≡ (
            if 7 == g' && 3 == r
            then (get_replica_desc g' r storage >>= λ found. ok (or_else found (desc 3)))
            else get_replica_desc g' r storage))
set_replica_desc_lem_example = set_replica_desc_lem 7 (desc 3) storage refl

-- The second time the storage is down.
replica_desc_again_example :
    let c' : ReplicaCache Memory = record (replica_desc memory 7 2 cache).1 { storage = down } in
    ((desc 2).replica_id ≡ 2) × (replica_desc memory 7 2 c' ≡ (ok (some (desc 2)), c'))
unfolding replica_desc get_replica_desc
replica_desc_again_example = replica_desc_again memory memory-IsStorage 7 2 (desc 2) cache down refl

cache_replica_desc_unsynced_example :
    let c₁ = (cache_replica_desc memory 7 (desc 3) false cache).1 in
    let c₂ = (cache_replica_desc memory 7 (desc 3) true c₁).1 in (c₂ ≡ c₁) × (c₂.storage ≡ storage)
cache_replica_desc_unsynced_example = cache_replica_desc_unsynced memory 7 (desc 3) cache refl

remove_replica_desc_uncached_example :
    let c₁ = (remove_replica_desc memory 7 (desc 2) true cache).1 in
    (c₁ ≡ cache) × ((replica_desc memory 7 2 c₁).0 ≡ ok (some (desc 2)))
unfolding get_replica_desc
remove_replica_desc_uncached_example =
    remove_replica_desc_uncached memory 7 (desc 2) cache refl refl
