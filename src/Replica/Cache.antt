-- ===== src/Replica/Cache.antt =====
-- oceanraft/src/replica_cache.rs, `ReplicaCache`, over any storage of replicas.
use oceanraft.Common.{
  ℕ, Bool, List, [], ◌∷◌, ◌++◌, Option, none, some, ◌==◌, if◌then◌else◌, find, erase_first, Map,
  lookup, insert, Outcome, ok, err, panic,
}
use oceanraft.Types.{ReplicaDesc, same_desc}
use oceanraft.Types.Errors.{StorageError}
use oceanraft.Replica.Store.{MultiRaftStorage}

pub record ReplicaCache (S : Type 0) : Type 0 where
  pub storage : S
  pub cache : Map (List ReplicaDesc)

-- A call's result and the state after it, also after an error.
abbrev pub Call : Type 0 → Type 0 → Type 0
Call S A = Outcome StorageError A × ReplicaCache S

unfoldable pub find_in_cache : List ReplicaDesc → (ReplicaDesc → Bool) → Option ReplicaDesc
find_in_cache rds predicate = find predicate rds

module _ {S : Type 0} where
  unfoldable pub new : S → ReplicaCache S
  new storage = record { storage = storage; cache = [] }

  abbrev pub put : ℕ → List ReplicaDesc → ReplicaCache S → ReplicaCache S
  put group_id rds c = record c { cache = insert group_id rds c.cache }

  -- What is read from the storage goes behind what is cached for the group.
  unfoldable pub fill :
      ℕ
      → List ReplicaDesc
      → Outcome StorageError (Option ReplicaDesc)
      → ReplicaCache S
      → Call S (Option ReplicaDesc)
  fill group_id rds read c = elim read [
    | panic ↦ (panic, c)
    | err e ↦ (err e, c)
    | ok none ↦ (ok none, put group_id rds c)
    | ok (some rd) ↦ (ok (some rd), put group_id (rds ++ rd ∷ []) c)
  ]

  module _ (st : MultiRaftStorage S) where
    unfoldable pub replica_desc : ℕ → ℕ → ReplicaCache S → Call S (Option ReplicaDesc)
    unfolding fill find_in_cache
    replica_desc group_id replica_id c = elim (lookup group_id c.cache) [
      | none ↦ fill group_id [] (st.get_replica_desc group_id replica_id c.storage) c
      | some rds ↦ elim (find_in_cache rds (λ replica. replica.replica_id == replica_id)) [
        | some found ↦ (ok (some found), c)
        | none ↦ fill group_id rds (st.get_replica_desc group_id replica_id c.storage) c
      ]
    ]

    unfoldable pub replica_for_node : ℕ → ℕ → ReplicaCache S → Call S (Option ReplicaDesc)
    unfolding fill find_in_cache
    replica_for_node group_id node_id c = elim (lookup group_id c.cache) [
      | none ↦ fill group_id [] (st.replica_for_node group_id node_id c.storage) c
      | some rds ↦ elim (find_in_cache rds (λ replica. replica.node_id == node_id)) [
        | some found ↦ (ok (some found), c)
        | none ↦ fill group_id rds (st.replica_for_node group_id node_id c.storage) c
      ]
    ]

    -- The write to the storage comes first: if it fails, the cache stays as it is.
    unfoldable pub write_through :
        Bool → ℕ → ReplicaDesc → List ReplicaDesc → ReplicaCache S → Call S (Unit {0})
    write_through sync group_id desc rds c =
        if sync
        then (elim (st.set_replica_desc group_id desc c.storage) [
          | panic ↦ (panic, c)
          | err e ↦ (err e, c)
          | ok s ↦ (ok tt, put group_id (rds ++ desc ∷ []) (record c { storage = s }))
        ])
        else (ok tt, put group_id (rds ++ desc ∷ []) c)

    unfoldable pub cache_replica_desc : ℕ → ReplicaDesc → Bool → ReplicaCache S → Call S (Unit {0})
    unfolding write_through
    cache_replica_desc group_id desc sync c = elim (lookup group_id c.cache) [
      | none ↦ write_through sync group_id desc [] c
      | some rds ↦ elim (find (λ replica. same_desc replica desc) rds) [
        | some _ ↦ (ok tt, c)
        | none ↦ write_through sync group_id desc rds c
      ]
    ]

    -- The cache forgets the replica before the storage is asked to.
    unfoldable pub remove_replica_desc : ℕ → ReplicaDesc → Bool → ReplicaCache S → Call S (Unit {0})
    remove_replica_desc group_id desc sync c = elim (lookup group_id c.cache) [
      | none ↦ (ok tt, c)
      | some rds ↦
          let c' : ReplicaCache S =
            put group_id (erase_first (λ replica. same_desc replica desc) rds) c in
          if sync
          then (elim (st.remove_replica_desc group_id desc.replica_id c'.storage) [
            | panic ↦ (panic, c')
            | err e ↦ (err e, c')
            | ok s ↦ (ok tt, record c' { storage = s })
          ])
          else (ok tt, c')
    ]
