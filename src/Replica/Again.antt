-- ===== src/Replica/Again.antt =====
-- What the cache of oceanraft/src/replica_cache.rs answers once it has answered, and what it writes.
use oceanraft.Common.{
  ℕ, ◌≡◌, refl, inl, inr, Bool, true, false, List, [], ◌∷◌, ◌++◌, Option, none, some, ◌==◌, find,
  find_sound, ◌⊎◌, lookup, lookup-insert, Option-cases, Outcome-cases, Outcome, ok, err, panic,
  arith,
}
use oceanraft.Types.{ReplicaDesc, same_desc}
use oceanraft.Types.Errors.{StorageError}
use oceanraft.Replica.Store.{MultiRaftStorage, IsStorage}
use oceanraft.Replica.Cache.{
  ReplicaCache, put, fill, find_in_cache, write_through, replica_desc, cache_replica_desc,
  remove_replica_desc,
}

-- What is cached for a group.
abbrev pub cached : {S : Type 0} → ℕ → ReplicaCache S → List ReplicaDesc
cached group_id c = elim (lookup group_id c.cache) [ none ↦ [] | some rds ↦ rds ]

find-snoc :
    (p : ReplicaDesc → Bool) (rs : List ReplicaDesc) (d : ReplicaDesc)
    → find p rs ≡ none
    → p d ≡ true
    → find p (rs ++ d ∷ []) ≡ some d
find-snoc p [] d h pd = rw pd refl
find-snoc p (x ∷ rs) d h pd = ground (arith, find-snoc p rs d)

module _ {S : Type 0} (st : MultiRaftStorage S) (laws : IsStorage st) where
  answered :
      (g r : ℕ) (d : ReplicaDesc) (c : ReplicaCache S) (rds : List ReplicaDesc)
      → lookup g c.cache ≡ some rds
      → find (λ x. x.replica_id == r) rds ≡ some d
      → replica_desc st g r c ≡ (ok (some d), c)
  unfolding replica_desc find_in_cache
  answered g r d c rds e f = rw (e, f, replica_desc) refl

  missed :
      (g r : ℕ) (c : ReplicaCache S) (rds : List ReplicaDesc)
      → lookup g c.cache ≡ some rds
      → find (λ x. x.replica_id == r) rds ≡ none
      → replica_desc st g r c ≡ fill g rds (st.get_replica_desc g r c.storage) c
  unfolding replica_desc find_in_cache
  missed g r c rds e f = rw (e, f, replica_desc) refl

  unknown :
      (g r : ℕ) (c : ReplicaCache S)
      → lookup g c.cache ≡ none
      → replica_desc st g r c ≡ fill g [] (st.get_replica_desc g r c.storage) c
  unfolding replica_desc
  unknown g r c e = rw (e, replica_desc) refl

  filled :
      (g r : ℕ) (d : ReplicaDesc) (c : ReplicaCache S) (rds : List ReplicaDesc) (s : S)
      → find (λ x. x.replica_id == r) rds ≡ none
      → d.replica_id ≡ r
      → let c' : ReplicaCache S = record (put g (rds ++ d ∷ []) c) { storage = s } in
        replica_desc st g r c' ≡ (ok (some d), c')
  filled g r d c rds s none_yet own =
      answered g r d _ (rds ++ d ∷ []) (ground (arith, lookup-insert g g (rds ++ d ∷ []) c.cache))
        (find-snoc (λ x. x.replica_id == r) rds d none_yet (ground arith))

  fill-again :
      (g r : ℕ) (d : ReplicaDesc) (c : ReplicaCache S) (rds : List ReplicaDesc) (s : S)
      (read : Outcome StorageError (Option ReplicaDesc))
      → read ≡ st.get_replica_desc g r c.storage
      → find (λ x. x.replica_id == r) rds ≡ none
      → (fill g rds read c).0 ≡ ok (some d)
      → let c' : ReplicaCache S = record (fill g rds read c).1 { storage = s } in
        (d.replica_id ≡ r) × (replica_desc st g r c' ≡ (ok (some d), c'))
  unfolding fill
  fill-again g r d c rds s panic e f h = absurd cc
  fill-again g r d c rds s (err x) e f h = absurd cc
  fill-again g r d c rds s (ok none) e f h = absurd cc
  fill-again g r d c rds s (ok (some x)) e f h =
      let same : x ≡ d = cc in
      let own : d.replica_id ≡ r = laws.get_sound g r c.storage d cc in
      (own, rw same (filled g r d c rds s f own))

  -- When the cache has answered a question with a replica, it has the id that was asked for, and
  -- the same question asked next has the same answer, whatever the storage has become by then: the
  -- storage is not asked again, and nothing changes.
  pub replica_desc_again :
      (g r : ℕ) (d : ReplicaDesc) (c : ReplicaCache S) (s : S)
      → (replica_desc st g r c).0 ≡ ok (some d)
      → let c' : ReplicaCache S = record (replica_desc st g r c).1 { storage = s } in
        (d.replica_id ≡ r) × (replica_desc st g r c' ≡ (ok (some d), c'))
  replica_desc_again g r d c s h = elim (Option-cases (lookup g c.cache)) [
    | inl new ↦
        let e = unknown g r c new in
        rw e (fill-again g r d c [] s (st.get_replica_desc g r c.storage) refl refl (rw e at h))
    | inr (rds, known) ↦ elim (Option-cases (find (λ x. x.replica_id == r) rds)) [
      | inl missing ↦
          let e = missed g r c rds known missing in
          rw e
            (fill-again g r d c rds s (st.get_replica_desc g r c.storage) refl missing (rw e at h))
      | inr (x, found) ↦
          let e = answered g r x c rds known found in
          let same : x ≡ d = cc (rw e at h) in
          (
            ground (arith, find_sound (λ x. x.replica_id == r) rds x found),
            rw e (rw same at (answered g r x (record c { storage = s }) rds known found)),
          )
    ]
  ]

module _ {S : Type 0} (st : MultiRaftStorage S) where
  -- A replica that is cached as one to be stored as well is in the storage, if the cache did not
  -- know it before: the call is the storage's own write, and fails just as it does, with nothing
  -- cached.
  pub cache_replica_desc_lem :
      (g : ℕ) (d : ReplicaDesc) (c : ReplicaCache S)
      → find (λ x. same_desc x d) (cached g c) ≡ none
      → let (result, c') = cache_replica_desc st g d true c in
        ((s : S) × (st.set_replica_desc g d c.storage ≡ ok s)
          × (result ≡ ok tt)
          × (c'.storage ≡ s)
          × (cached g c' ≡ cached g c ++ d ∷ []))
        ⊎ ((e : StorageError) × (st.set_replica_desc g d c.storage ≡ err e)
            × (result ≡ err e)
            × (c' ≡ c))
        ⊎ ((st.set_replica_desc g d c.storage ≡ panic) × (result ≡ panic) × (c' ≡ c))
  unfolding cache_replica_desc write_through
  cache_replica_desc_lem g d c fresh = elim (Outcome-cases (st.set_replica_desc g d c.storage)) [
    | inl (s, stored) ↦ inl (
      s,
      stored,
      ground arith,
      ground arith,
      ground (arith, lookup-insert g g (cached g c ++ d ∷ []) c.cache),
    )
    | inr (inl (e, failed)) ↦ inr (inl (e, failed, ground arith, ground arith))
    | inr (inr broken) ↦ inr (inr (broken, ground arith, ground arith))
  ]

  -- The bug of a replica that is cached first and stored later: when it was cached without being
  -- stored, caching it again as one to be stored writes nothing.
  pub cache_replica_desc_unsynced :
      (g : ℕ) (d : ReplicaDesc) (c : ReplicaCache S)
      → find (λ x. same_desc x d) (cached g c) ≡ none
      → let c₁ = (cache_replica_desc st g d false c).1 in
        let c₂ = (cache_replica_desc st g d true c₁).1 in (c₂ ≡ c₁) × (c₂.storage ≡ c.storage)
  unfolding cache_replica_desc write_through
  cache_replica_desc_unsynced g d c fresh =
      let c₁ : ReplicaCache S = put g (cached g c ++ d ∷ []) c in
      let first : (cache_replica_desc st g d false c).1 ≡ c₁ = ground arith in
      let there : find (λ x. same_desc x d) (cached g c ++ d ∷ []) ≡ some d =
        find-snoc (λ x. same_desc x d) (cached g c) d fresh (ground arith) in
      let known : lookup g c₁.cache ≡ some (cached g c ++ d ∷ []) =
        ground (arith, lookup-insert g g (cached g c ++ d ∷ []) c.cache) in
      let second : cache_replica_desc st g d true c₁ ≡ (ok tt, c₁) =
        rw (known, there, cache_replica_desc) refl in
      rw (first, second) (refl, refl)

  -- The bug of a removal that looks at the cache first: a replica of a group that the cache does
  -- not know is not removed from the storage, so that the next question finds it there again.
  pub remove_replica_desc_uncached :
      (g : ℕ) (d : ReplicaDesc) (c : ReplicaCache S)
      → lookup g c.cache ≡ none
      → st.get_replica_desc g d.replica_id c.storage ≡ ok (some d)
      → let c₁ = (remove_replica_desc st g d true c).1 in
        (c₁ ≡ c) × ((replica_desc st g d.replica_id c₁).0 ≡ ok (some d))
  unfolding remove_replica_desc replica_desc fill
  remove_replica_desc_uncached g d c new held = (ground arith, ground arith)
