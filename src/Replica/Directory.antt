-- ===== src/Replica/Directory.antt =====
-- The replicas that the memory storage keeps: what it finds after a write.
use oceanraft.Common.{
  ℕ, ◌≡◌, inl, inr, false, ◌&&◌, List, [], ◌∷◌, ◌++◌, Option, none, some, ◌==◌, if◌then◌else◌, find,
  find_sound, lookup, insert, lookup-insert, Bool-cases, Option-cases, ◌>>=◌, ok, arith,
}
use oceanraft.Types.{ReplicaDesc, same_desc, eq_of_same_desc}
use oceanraft.Replica.Store.{IsStorage}
use oceanraft.Replica.Memory.{
  MultiRaftMemoryStorage, replicas_of, get_replica_desc, replica_for_node, set_replica_desc, memory,
}

-- The first one, if there is one, or else the second.
abbrev pub or_else : Option ReplicaDesc → ReplicaDesc → Option ReplicaDesc
or_else none d = some d
or_else (some d') d = some d'

find-snoc :
    (r : ℕ) (rs : List ReplicaDesc) (d : ReplicaDesc)
    → find (λ x. x.replica_id == r) (rs ++ d ∷ []) ≡ (
        if d.replica_id == r
        then or_else (find (λ x. x.replica_id == r) rs) d
        else find (λ x. x.replica_id == r) rs)
find-snoc r [] d = ground arith
find-snoc r (x ∷ rs) d = ground (arith, find-snoc r rs d)

-- A replica that is there is found by its id.
find-same :
    (r : ℕ) (rs : List ReplicaDesc) (d x : ReplicaDesc)
    → find (λ y. same_desc y d) rs ≡ some x
    → find (λ y. y.replica_id == r) rs ≡ (
        if d.replica_id == r
        then or_else (find (λ y. y.replica_id == r) rs) d
        else find (λ y. y.replica_id == r) rs)
find-same r [] d x h = cc
find-same r (y ∷ rs) d x h = elim (Bool-cases (same_desc y d)) [
  | inl same ↦ let e : y ≡ d = eq_of_same_desc y d same in rw e (ground arith)
  | inr other ↦ ground (arith, find-same r rs d x)
]

module _ {Context : Type 0} where
  -- The memory storage keeps the promise of the interface.
  pub memory-IsStorage : IsStorage (memory {Context = Context})
  unfolding get_replica_desc replica_for_node
  memory-IsStorage = record {
    get_sound = λ g r s d h.
        ground (arith, find_sound (λ x. x.replica_id == r) (replicas_of g s.replicas) d);
    node_sound =
        λ g n s d h. ground (arith, find_sound (λ x. x.node_id == n) (replicas_of g s.replicas) d);
  }

  -- Storing a replica while the storage is available succeeds. Afterwards the replica is found
  -- under its group and id, unless another one is already there under that id, which then stays
  -- the one that is found; every other group and id reads as before.
  pub set_replica_desc_lem :
      (g : ℕ) (d : ReplicaDesc) (s : MultiRaftMemoryStorage Context)
      → s.trigger_storage_temp_unavailable ≡ false
      → (s' : MultiRaftMemoryStorage Context) × (set_replica_desc g d s ≡ ok s')
        × ((g' r : ℕ)
            → get_replica_desc g' r s' ≡ (
                if g == g' && d.replica_id == r
                then (get_replica_desc g' r s >>= λ found. ok (or_else found d))
                else get_replica_desc g' r s))
  unfolding set_replica_desc get_replica_desc
  set_replica_desc_lem g d s up = elim (Option-cases (lookup g s.replicas)) [
    | inl fresh ↦ (
      record s { replicas = insert g (d ∷ []) s.replicas },
      ground arith,
      λ g' r. ground (arith, lookup-insert g g' (d ∷ []) s.replicas),
    )
    | inr (rs, known) ↦ elim (Option-cases (find (λ x. same_desc x d) rs)) [
      | inl new ↦ (
        record s { replicas = insert g (rs ++ d ∷ []) s.replicas },
        ground arith,
        λ g' r. ground (arith, lookup-insert g g' (rs ++ d ∷ []) s.replicas, find-snoc r rs d),
      )
      | inr (x, same) ↦ (s, ground arith, λ g' r. ground (arith, find-same r rs d x same))
    ]
  ]
