-- ===== src/Node/Quiet.antt =====
-- oceanraft/src/node.rs, `create_raft_group`: the steps that touch no group.
use oceanraft.Common.{
  ℕ, ◌≡◌, refl, ap, ◌∙◌, inl, inr, true, List, [], ◌∷◌, Option, none, some, ◌==◌, Bool-cases,
  Outcome, ok, err, panic,
}
use oceanraft.Common.Action.{and_then, ◌>>=◌, lift}
use oceanraft.Types.{ReplicaDesc, GroupMetadata}
use oceanraft.Types.Errors.{Error, StorageError}
use oceanraft.Types.Message.{MultiRaftMessage}
use oceanraft.Group.Raft.{RaftGroup}
use oceanraft.Group.Track.{add_track_node}
use oceanraft.Node.Manager.{NodeManager, add_group}
use oceanraft.Node.State.{
  NodeWorker, Call, on_cache, on_storage, written, write_storage, managed, join,
}
use oceanraft.Node.Lifecycle.{
  Starts, note_leader, group_metadata, adopt_leader, know_replica, track_replicas, node_of,
  track_voter, track_voters, open_group, start_raft,
}
use oceanraft.Replica.Store.{MultiRaftStorage}
use oceanraft.Replica.Cache.{ReplicaCache, cache_replica_desc, replica_desc}
use oceanraft.Node.Membership.{desc_of}

abbrev pub Any : {A : Type 0} → A → Type 0
Any a = Unit {0}

-- A group that differs in the tracked nodes only.
abbrev pub Tracks : {N : Type 0} → RaftGroup N → RaftGroup N → Type 0
Tracks g g' = g' ≡ record g { node_ids = g'.node_ids }

module _ {S N : Type 0} where
  -- The groups, their shared states and the events are as before.
  abbrev pub Same : NodeWorker S N → NodeWorker S N → Type 0
  Same n n' =
      (n'.worker.groups ≡ n.worker.groups)
      × (n'.shared_states ≡ n.shared_states)
      × (n'.cache ≡ n.cache)

  pub Same-trans : (n n' n'' : NodeWorker S N) → Same n n' → Same n' n'' → Same n n''
  Same-trans n n' n'' h h' = (h'.0 ∙ h.0, h'.1 ∙ h.1, h'.2 ∙ h.2)

  -- A step that touches no group, whose value has a property.
  abbrev pub After :
      {A : Type 0} → NodeWorker S N → NodeWorker S N × Outcome Error A → (A → Type 0) → Type 0
  After n (n', ok a) P = Same n n' × P a
  After n (n', err e) P = Same n n'
  After n (n', panic) P = Same n n'

  pub After-trans :
      {A : Type 0} (n n' : NodeWorker S N) (x : NodeWorker S N × Outcome Error A) (P : A → Type 0)
      → Same n n'
      → After n' x P
      → After n x P
  After-trans n n' (n'', ok a) P h k = (Same-trans n n' n'' h k.0, k.1)
  After-trans n n' (n'', err e) P h k = Same-trans n n' n'' h k
  After-trans n n' (n'', panic) P h k = Same-trans n n' n'' h k

  pub and_then-After :
      {A B : Type 0} (n : NodeWorker S N) (x : NodeWorker S N × Outcome Error A)
      (f : A → Call S N B) (P : A → Type 0) (Q : B → Type 0)
      → After n x P
      → ((a : A) (n' : NodeWorker S N) → P a → After n' (f a n') Q)
      → After n (and_then x f) Q
  and_then-After n (n', ok a) f P Q h k = After-trans n n' (f a n') Q h.0 (k a n' h.1)
  and_then-After n (n', err e) f P Q h k = h
  and_then-After n (n', panic) f P Q h k = h

  pub After-map :
      {A : Type 0} (n : NodeWorker S N) (x : NodeWorker S N × Outcome Error A) (P Q : A → Type 0)
      → ((a : A) → P a → Q a)
      → After n x P
      → After n x Q
  After-map n (n', ok a) P Q k h = (h.0, k a h.1)
  After-map n (n', err e) P Q k h = h
  After-map n (n', panic) P Q k h = h

  pub lift-After : {A : Type 0} (n : NodeWorker S N) (o : Outcome Error A) → After n (lift o n) Any
  lift-After n (ok a) = ((refl, refl, refl), tt)
  lift-After n (err e) = (refl, refl, refl)
  lift-After n panic = (refl, refl, refl)

  pub on_cache-After :
      {A : Type 0} (n : NodeWorker S N)
      (f : ReplicaCache S → Outcome StorageError A × ReplicaCache S)
      → After n (on_cache f n) Any
  on_cache-After {A = A} n f = go (f n.worker.replica_cache)
    where
      go : (x : Outcome StorageError A × ReplicaCache S) → After n (on_cache (λ c. x) n) Any
      go (ok a, c) = ((refl, refl, refl), tt)
      go (err e, c) = (refl, refl, refl)
      go (panic, c) = (refl, refl, refl)

  pub write_storage-After :
      (n : NodeWorker S N) (f : S → Outcome StorageError S) → After n (write_storage f n) Any
  write_storage-After n f =
      on_cache-After n (λ c.
        let (result, s) = written c.storage (f c.storage) in (result, record c { storage = s }))

  pub open_storage-After :
      {A : Type 0} (n : NodeWorker S N) (f : S → Outcome StorageError A × S)
      → After n (on_storage f n) Any
  open_storage-After n f =
      on_cache-After n (λ c. let (result, s) = f c.storage in (result, record c { storage = s }))

  pub join-After :
      (n : NodeWorker S N) (node_id group_id : ℕ) → After n (join node_id group_id n) Any
  join-After n node_id group_id = go (add_group node_id group_id n.worker.node_manager)
    where
      go : (m : Outcome Error NodeManager) → After n (managed n m) Any
      go (ok m) = ((refl, refl, refl), tt)
      go (err e) = (refl, refl, refl)
      go panic = (refl, refl, refl)

module _ {L S N : Type 0} (st : MultiRaftStorage S) (starts : Starts L S N) where
  abbrev pub Quiet : {A : Type 0} → Call S N A → (A → Type 0) → Type 0
  Quiet m P = (n : NodeWorker S N) → After n (m n) P

  bind-Quiet :
      {A B : Type 0} (m : Call S N A) (f : A → Call S N B) (P : A → Type 0) (Q : B → Type 0)
      → Quiet m P
      → ((a : A) → P a → Quiet (f a) Q)
      → Quiet (m >>= f) Q
  bind-Quiet m f P Q h k n = and_then-After n (m n) f P Q (h n) (λ a n' p. k a p n')

  note_leader-Quiet :
      (meta : GroupMetadata) (leader_id : ℕ) → Quiet (note_leader st starts meta leader_id) Any
  unfolding note_leader
  note_leader-Quiet meta leader_id n = elim (Bool-cases (meta.leader_id == leader_id)) [
    | inl t ↦ rw t ((refl, refl, refl), tt)
    | inr f ↦
        rw f (
          write_storage-After n (starts.set_group_metadata (record meta { leader_id = leader_id })))
  ]

  pub adopt_leader-Quiet :
      (group_id replica_id : ℕ) (init_msg : Option MultiRaftMessage)
      → Quiet (adopt_leader st starts group_id replica_id init_msg) Any
  unfolding adopt_leader group_metadata
  adopt_leader-Quiet group_id replica_id none = λ n. ((refl, refl, refl), tt)
  adopt_leader-Quiet group_id replica_id (some msg) =
      let answer : Call S N ReplicaDesc =
        lift (ok (desc_of msg.group_id msg.from_node msg.msg.from)) in
      let joined : Call S N ReplicaDesc = join msg.from_node msg.group_id >>= λ _. answer in
      bind-Quiet (group_metadata st starts group_id replica_id)
        (λ meta. note_leader st starts meta msg.msg.from >>= λ _. joined) Any Any
        (λ n. lift-After n _)
        (λ meta p.
          bind-Quiet (note_leader st starts meta msg.msg.from) (λ _. joined) Any Any
            (note_leader-Quiet meta msg.msg.from)
            (λ a q.
              bind-Quiet (join msg.from_node msg.group_id) (λ _. answer) Any Any
                (λ n. join-After n msg.from_node msg.group_id)
                (λ b q' n. ((refl, refl, refl), tt))))

  know_replica-Quiet :
      (group_id : ℕ) (rd : ReplicaDesc) → Quiet (know_replica st starts group_id rd) Any
  unfolding know_replica
  know_replica-Quiet group_id rd =
      bind-Quiet (on_cache (cache_replica_desc st group_id rd true)) (λ _. join rd.node_id group_id)
        Any Any (λ n. on_cache-After n (cache_replica_desc st group_id rd true))
        (λ a p n. join-After n rd.node_id group_id)

  pub track_replicas-Quiet :
      (group_id : ℕ) (rds : List ReplicaDesc) (g : RaftGroup N)
      → Quiet (track_replicas st starts group_id rds g) (Tracks g)
  unfolding track_replicas add_track_node
  track_replicas-Quiet group_id [] g = λ n. ((refl, refl, refl), refl)
  track_replicas-Quiet group_id (rd ∷ rds) g =
      bind-Quiet (know_replica st starts group_id rd)
        (λ _. track_replicas st starts group_id rds (add_track_node rd.node_id g)) Any (Tracks g)
        (know_replica-Quiet group_id rd)
        (λ a p. track_replicas-Quiet group_id rds (add_track_node rd.node_id g))

  track_voter-Quiet :
      (group_id : ℕ) (known : Option ℕ) (g : RaftGroup N)
      → Quiet (track_voter st starts group_id known g) (Tracks g)
  unfolding track_voter add_track_node
  track_voter-Quiet group_id none g = λ n. ((refl, refl, refl), refl)
  track_voter-Quiet group_id (some node_id) g =
      bind-Quiet (join node_id group_id) (λ _. lift (ok (add_track_node node_id g))) Any (Tracks g)
        (λ n. join-After n node_id group_id) (λ a p n. ((refl, refl, refl), refl))

  pub track_voters-Quiet :
      (group_id : ℕ) (voters : List ℕ) (g : RaftGroup N)
      → Quiet (track_voters st starts group_id voters g) (Tracks g)
  unfolding track_voters
  track_voters-Quiet group_id [] g = λ n. ((refl, refl, refl), refl)
  track_voters-Quiet group_id (voter_id ∷ voters) g =
      let next : Option ReplicaDesc → Call S N (RaftGroup N) = λ found.
        track_voter st starts group_id (node_of st starts found) g
        >>= track_voters st starts group_id voters in
      bind-Quiet (on_cache (replica_desc st group_id voter_id)) next Any (Tracks g)
        (λ n. on_cache-After n (replica_desc st group_id voter_id))
        (λ found p.
          bind-Quiet (track_voter st starts group_id (node_of st starts found) g)
            (track_voters st starts group_id voters) (Tracks g) (Tracks g)
            (track_voter-Quiet group_id (node_of st starts found) g)
            (λ g' t n.
              After-map n (track_voters st starts group_id voters g' n) (Tracks g') (Tracks g)
                (λ g'' k. k ∙ ap (λ (x : RaftGroup N). record x { node_ids = g''.node_ids }) t)
                (track_voters-Quiet group_id voters g' n)))

  pub open_group-Quiet :
      (group_id replica_id : ℕ) (applied_hint : Option ℕ)
      → Quiet (open_group st starts group_id replica_id applied_hint) Any
  unfolding open_group
  open_group-Quiet group_id replica_id applied_hint =
      bind-Quiet (on_storage (starts.group_storage group_id replica_id))
        (λ log. lift (start_raft st starts replica_id applied_hint log)) Any Any
        (λ n. open_storage-After n (starts.group_storage group_id replica_id))
        (λ log p n. lift-After n (start_raft st starts replica_id applied_hint log))
