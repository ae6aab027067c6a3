-- ===== src/Node/Led.antt =====
-- oceanraft/src/group.rs, `handle_soft_state_change`: what a report of a leader leaves.
use oceanraft.Common.{
  ℕ, ◌≡◌, ◌≢◌, ◌⊎◌, refl, sym, ap, subst, inl, inr, List, [], ◌∷◌, ◌++◌, Option, none, some, ◌==◌,
  lookup, Option-cases, Bool-cases, Outcome-cases, Outcome, ok, err, panic, arith,
}
use oceanraft.Types.{ReplicaDesc, GroupMetadata}
use oceanraft.Types.Errors.{StorageError}
use oceanraft.Group.State.{
  StateRole, follower, pre_candidate, candidate, leader, GroupState, role_number, role_of, get_role,
  set_leader_id, set_role,
}
use oceanraft.Replica.Store.{MultiRaftStorage, IsStorage}
use oceanraft.Replica.Cache.{ReplicaCache, fill, find_in_cache, replica_desc}
use oceanraft.Replica.Again.{replica_desc_again}
use oceanraft.Node.State.{leader_election}
use oceanraft.Node.Lifecycle.{Starts}
use oceanraft.Node.Leader.{
  SoftState, Observer, leader_desc, save_leader, take_leader, handle_leader_change,
  handle_soft_state_change,
}

module _ {S : Type 0} (st : MultiRaftStorage S) where
  fill-storage :
      (g : ℕ) (rds : List ReplicaDesc) (found : Outcome StorageError (Option ReplicaDesc))
      (c : ReplicaCache S)
      → (fill g rds found c).1.storage ≡ c.storage
  unfolding fill
  fill-storage g rds (ok none) c = refl
  fill-storage g rds (ok (some d)) c = refl
  fill-storage g rds (err e) c = refl
  fill-storage g rds panic c = refl

  -- A question does not write the storage.
  pub replica_desc-storage :
      (g r : ℕ) (c : ReplicaCache S) → (replica_desc st g r c).1.storage ≡ c.storage
  unfolding replica_desc
  replica_desc-storage g r c = elim (Option-cases (lookup g c.cache)) [
    | inl new ↦ rw (replica_desc, new) (fill-storage g [] (st.get_replica_desc g r c.storage) c)
    | inr (rds, known) ↦ elim (Option-cases (find_in_cache rds (λ x. x.replica_id == r))) [
      | inl missing ↦
          rw (replica_desc, known, missing)
            (fill-storage g rds (st.get_replica_desc g r c.storage) c)
      | inr (x, found) ↦ rw (replica_desc, known, found) refl
    ]
  ]

-- The stored metadata of a replica name the leader.
abbrev pub IsSaved :
    {L S N : Type 0} → Starts L S N → (group_id replica_id leader_id : ℕ) → S → Type 0
IsSaved starts group_id replica_id leader_id s =
    (meta : GroupMetadata) × (starts.get_group_metadata group_id replica_id s ≡ ok (some meta))
    × (meta.leader_id ≡ leader_id)

module _ {L S N : Type 0} (starts : Starts L S N)
    (store : (meta : GroupMetadata) (s : S)
      → (s' : S) × (starts.set_group_metadata meta s ≡ ok s')
        × (starts.get_group_metadata meta.group_id meta.replica_id s' ≡ ok (some meta))) where
  save_leader_lem :
      (g r leader_id : ℕ) (s : S) (meta : GroupMetadata)
      → starts.get_group_metadata g r s ≡ ok (some meta)
      → meta.group_id ≡ g
      → meta.replica_id ≡ r
      → (s' : S) × (save_leader starts g r leader_id s ≡ ok s') × IsSaved starts g r leader_id s'
  unfolding save_leader
  save_leader_lem g r leader_id s meta read own_group own_replica =
      elim (Bool-cases (meta.leader_id == leader_id)) [
        | inl same ↦ (s, rw (save_leader, read, same) refl, (meta, read, ground (arith, same)))
        | inr other ↦
            let meta' : GroupMetadata = record meta { leader_id = leader_id } in
            let (s', set, got) = store meta' s in
            let right_group =
              subst (λ k. starts.get_group_metadata k meta.replica_id s' ≡ ok (some meta'))
                own_group got in
            let right =
              subst (λ k. starts.get_group_metadata g k s' ≡ ok (some meta')) own_replica
                right_group in
            (s', rw (save_leader, read, other, set) refl, (meta', right, refl))
      ]

stored_role : (r : StateRole) (shared : GroupState) → get_role (set_role r shared) ≡ ok r
unfolding get_role set_role role_of role_number
stored_role follower shared = refl
stored_role pre_candidate shared = refl
stored_role candidate shared = refl
stored_role leader shared = refl

module _ {S N : Type 0} where
  -- The group follows the leader that raft reports, and tells so.
  abbrev pub Follows : SoftState → Observer S N → Observer S N → Type 0
  Follows ss w w' =
      (w'.group.leader.replica_id ≡ ss.leader_id)
      × (get_role w'.group.shared_state ≡ ok ss.raft_state)
      × (w'.group.shared_state ≡ record w.group.shared_state {
        leader_id = ss.leader_id;
        role = w'.group.shared_state.role;
      })
      × (w'.events ≡ w.events ++ leader_election w.group.group_id ss.leader_id ss.leader_id ∷ [])

  take_leader-Follows :
      (ss : SoftState) (d : ReplicaDesc) (s : S) (w : Observer S N)
      → d.replica_id ≡ ss.leader_id
      → Follows ss w (take_leader ss d s w)
  unfolding take_leader set_role set_leader_id
  take_leader-Follows ss d s w own = (
    own,
    stored_role ss.raft_state (set_leader_id ss.leader_id w.group.shared_state),
    refl,
    ap (λ k. w.events ++ leader_election w.group.group_id k ss.leader_id ∷ []) own,
  )

module _ {L S N : Type 0} (st : MultiRaftStorage S) (starts : Starts L S N) where
  -- The report names a leader that the group does not have.
  abbrev pub IsNews : SoftState → Observer S N → Type 0
  IsNews ss w = (ss.leader_id ≢ 0) × (ss.leader_id ≢ w.group.leader.replica_id)

  abbrev pub Taken : SoftState → Observer S N → Observer S N → Type 0
  Taken ss w w' =
      ((e : StorageError) × ((replica_desc st w.group.group_id ss.leader_id w.replica_cache).0
          ≡ err e)
        × (w'.group ≡ w.group)
        × (w'.events ≡ w.events))
      ⊎ (Follows ss w w'
          × IsSaved starts w.group.group_id w.group.replica_id ss.leader_id
              w'.replica_cache.storage)

  -- What a report leaves: nothing new, a leader that cannot be looked up, or a new leader.
  abbrev pub Reported : SoftState → Observer S N → Observer S N → Type 0
  Reported ss w w' =
      (((ss.leader_id ≡ 0) ⊎ (ss.leader_id ≡ w.group.leader.replica_id)) × (w' ≡ w))
      ⊎ (IsNews ss w × Taken ss w w')

  module _ (laws : IsStorage st)
      (store : (meta : GroupMetadata) (s : S)
        → (s' : S) × (starts.set_group_metadata meta s ≡ ok s')
          × (starts.get_group_metadata meta.group_id meta.replica_id s' ≡ ok (some meta))) where
    leader_desc_lem :
        (g r : ℕ) (c : ReplicaCache S) (found : Option ReplicaDesc)
        → (replica_desc st g r c).0 ≡ ok found
        → (leader_desc g r found).replica_id ≡ r
    unfolding leader_desc
    leader_desc_lem g r c none h = refl
    leader_desc_lem g r c (some d) h = (replica_desc_again st laws g r d c c.storage h).0

    handle_leader_change_lem :
        (ss : SoftState) (w : Observer S N) (meta : GroupMetadata)
        → starts.get_group_metadata w.group.group_id w.group.replica_id w.replica_cache.storage
          ≡ ok (some meta)
        → meta.group_id ≡ w.group.group_id
        → meta.replica_id ≡ w.group.replica_id
        → (replica_desc st w.group.group_id ss.leader_id w.replica_cache).0 ≢ panic
        → (w' : Observer S N) × (handle_leader_change st starts ss w ≡ ok w') × Taken ss w w'
    unfolding handle_leader_change
    handle_leader_change_lem ss w meta read own_group own_replica alive =
        let g = w.group.group_id in
        let asked = replica_desc st g ss.leader_id w.replica_cache in
        let quiet = replica_desc-storage st g ss.leader_id w.replica_cache in
        elim (Outcome-cases asked.0) [
          | inl (found, answer) ↦
              let read' =
                subst (λ s. starts.get_group_metadata g w.group.replica_id s ≡ ok (some meta))
                  (sym quiet) read in
              let (s', saved, stored) =
                save_leader_lem starts store g w.group.replica_id ss.leader_id asked.1.storage meta
                  read' own_group own_replica in
              let d = leader_desc g ss.leader_id found in
              let w' : Observer S N = record w { replica_cache = asked.1 } in
              (
                take_leader ss d s' w',
                rw (handle_leader_change, answer, saved) refl,
                inr (
                  take_leader-Follows ss d s' w'
                      (leader_desc_lem g ss.leader_id w.replica_cache found answer),
                  stored,
                ),
              )
          | inr (inl (e, failed)) ↦ (
            record w { replica_cache = asked.1 },
            rw (handle_leader_change, failed) refl,
            inl (e, failed, refl, refl),
          )
          | inr (inr died) ↦ absurd (alive died)
        ]

    -- Where the metadata of the replica are there and the storage keeps what it is given, a report
    -- of raft ends without a panic. It changes nothing and names no leader or the one that the group
    -- has; or it names another one, and then either the leader cannot be looked up, and group and
    -- events stay, or the group has the leader, with the leader and the role of the state that is
    -- shared and with the metadata, and announces it under the leader's own replica id.
    pub handle_soft_state_change-Reported :
        (ss : SoftState) (w : Observer S N) (meta : GroupMetadata)
        → starts.get_group_metadata w.group.group_id w.group.replica_id w.replica_cache.storage
          ≡ ok (some meta)
        → meta.group_id ≡ w.group.group_id
        → meta.replica_id ≡ w.group.replica_id
        → (replica_desc st w.group.group_id ss.leader_id w.replica_cache).0 ≢ panic
        → (w' : Observer S N) × (handle_soft_state_change st starts ss w ≡ ok w') × Reported ss w w'
    unfolding handle_soft_state_change
    handle_soft_state_change-Reported ss w meta read own_group own_replica alive =
        elim (Bool-cases (ss.leader_id == 0)) [
          | inl nobody ↦ (
            w,
            rw (handle_soft_state_change, nobody) refl,
            inl (inl (ground (arith, nobody)), refl),
          )
          | inr somebody ↦ elim (Bool-cases (ss.leader_id == w.group.leader.replica_id)) [
            | inl same ↦ (
              w,
              rw (handle_soft_state_change, somebody, same) refl,
              inl (inr (ground (arith, same)), refl),
            )
            | inr other ↦
                let (w', run, left) =
                  handle_leader_change_lem ss w meta read own_group own_replica alive in
                (
                  w',
                  rw (handle_soft_state_change, somebody, other) run,
                  inr (((λ e. ground (arith, somebody, e)), (λ e. ground (arith, other, e))), left),
                )
          ]
        ]
