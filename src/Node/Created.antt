-- ===== src/Node/Created.antt =====
-- oceanraft/src/node.rs, `create_raft_group`: what a creation leaves, also where it fails.
use oceanraft.Common.{
  ℕ, ◌≡◌, refl, sym, ap, subst, ◌∙◌, inl, inr, Bool, true, false, List, [], ◌∷◌, ◌++◌, Option, ◌==◌,
  if◌then◌else◌, lookup, insert, contains_key, Option-cases, Outcome, ok, err, panic,
}
use oceanraft.Common.Action.{and_then, ◌>>=◌}
use oceanraft.Types.{ReplicaDesc}
use oceanraft.Types.Errors.{Error, RaftGroupError}
use oceanraft.Types.Message.{MultiRaftMessage}
use oceanraft.Storage.Mem.{RaftState}
use oceanraft.Group.Raft.{RaftGroup}
use oceanraft.Node.State.{group_create, NodeWorker, Call, push}
use oceanraft.Node.Lifecycle.{
  Starts, adopt_leader, track_replicas, track_voters, register, new_group, start_group, open_group,
  enter_group, create_raft_group,
}
use oceanraft.Replica.Store.{MultiRaftStorage}
use oceanraft.Group.State.{of_parts}
use oceanraft.Proposal.Queue as Queue
use oceanraft.Node.Quiet.{
  Any, Tracks, Same, Same-trans, After, track_replicas-Quiet, track_voters-Quiet,
  adopt_leader-Quiet, open_group-Quiet,
}

module _ {L S N : Type 0} (st : MultiRaftStorage S) (starts : Starts L S N) where
  -- What a creation of a group leaves: the new group, its shared state and an event, or nothing of
  -- them.
  abbrev pub Created :
      (group_id replica_id : ℕ)
      → NodeWorker S N
      → NodeWorker S N × Outcome Error (Unit {0})
      → Type 0
  Created group_id replica_id n (n', ok _) =
      (g : RaftGroup N) × (n'.worker.groups ≡ insert group_id g n.worker.groups)
      × (g.group_id ≡ group_id)
      × (g.replica_id ≡ replica_id)
      × (g.deleted ≡ false)
      × (g.proposals.queue ≡ [])
      × (g.shared_state.commit_index ≡ g.commit_index)
      × (n'.shared_states ≡ insert group_id g.shared_state n.shared_states)
      × (n'.cache ≡ n.cache ++ group_create group_id replica_id ∷ [])
  Created group_id replica_id n (n', err e) = Same n n'
  Created group_id replica_id n (n', panic) = Unit

  Created-trans :
      (group_id replica_id : ℕ) (n n' : NodeWorker S N)
      (x : NodeWorker S N × Outcome Error (Unit {0}))
      → Same n n'
      → Created group_id replica_id n' x
      → Created group_id replica_id n x
  Created-trans group_id replica_id n n' (n'', ok a) h k = (
    k.0,
    k.1 ∙ ap (insert group_id k.0) h.0,
    k.2,
    k.3,
    k.4,
    k.5,
    k.6,
    k.7 ∙ ap (insert group_id k.0.shared_state) h.1,
    k.8 ∙ ap (λ c. c ++ group_create group_id replica_id ∷ []) h.2,
  )
  Created-trans group_id replica_id n n' (n'', err e) h k = Same-trans n n' n'' h k
  Created-trans group_id replica_id n n' (n'', panic) h k = tt

  if-Created :
      (group_id replica_id : ℕ) (n : NodeWorker S N) (b : Bool)
      (x y : NodeWorker S N × Outcome Error (Unit {0}))
      → Created group_id replica_id n x
      → Created group_id replica_id n y
      → Created group_id replica_id n (if b then x else y)
  if-Created group_id replica_id n true x y h k = h
  if-Created group_id replica_id n false x y h k = k

  and_then-Created :
      {A : Type 0} (group_id replica_id : ℕ) (n : NodeWorker S N)
      (x : NodeWorker S N × Outcome Error A) (f : A → Call S N (Unit {0})) (P : A → Type 0)
      → After n x P
      → ((a : A) (n' : NodeWorker S N) → P a → Created group_id replica_id n' (f a n'))
      → Created group_id replica_id n (and_then x f)
  and_then-Created group_id replica_id n (n', ok a) f P h k =
      Created-trans group_id replica_id n n' (f a n') h.0 (k a n' h.1)
  and_then-Created group_id replica_id n (n', err e) f P h k = h
  and_then-Created group_id replica_id n (n', panic) f P h k = tt

  abbrev Fresh : (group_id replica_id : ℕ) → RaftGroup N → Type 0
  Fresh group_id replica_id g =
      (g.group_id ≡ group_id)
      × (g.replica_id ≡ replica_id)
      × (g.deleted ≡ false)
      × (g.proposals.queue ≡ [])
      × (g.shared_state.commit_index ≡ g.commit_index)

  register-Created :
      (group_id replica_id : ℕ) (g : RaftGroup N) (n : NodeWorker S N)
      → Fresh group_id replica_id g
      → Created group_id replica_id n (register st starts g n)
  unfolding register push
  register-Created group_id replica_id g n h =
      elim (Option-cases (lookup g.group_id n.shared_states)) [
        | inl missing ↦
            let entered : NodeWorker S N = record {
              worker = record n.worker { groups = insert g.group_id g n.worker.groups };
              shared_states = insert g.group_id g.shared_state n.shared_states;
              cache = n.cache ++ group_create g.group_id g.replica_id ∷ [];
            } in
            let done : register st starts g n ≡ (entered, ok tt) = rw (register, missing) refl in
            subst (Created group_id replica_id n) (sym done) (
              g,
              ap (λ k. insert k g n.worker.groups) h.0,
              h.0,
              h.1,
              h.2,
              h.3,
              h.4,
              ap (λ k. insert k g.shared_state n.shared_states) h.0,
              rw (h.0, h.1) refl,
            )
        | inr (old, found) ↦
            let entered : NodeWorker S N = record {
              worker = record n.worker { groups = insert g.group_id g n.worker.groups };
              shared_states = insert g.group_id g.shared_state n.shared_states;
              cache = n.cache ++ group_create g.group_id g.replica_id ∷ [];
            } in
            let done : register st starts g n ≡ (entered, panic) = rw (register, found) refl in
            subst (Created group_id replica_id n) (sym done) tt
      ]

  -- The tracked nodes make no difference.
  Fresh-Tracks :
      (group_id replica_id : ℕ) (g g' : RaftGroup N)
      → Fresh group_id replica_id g
      → Tracks g g'
      → Fresh group_id replica_id g'
  Fresh-Tracks group_id replica_id g g' h t = subst (Fresh group_id replica_id) (sym t) h

  enter_group-Created :
      (group_id replica_id : ℕ) (rds : List ReplicaDesc) (voters : List ℕ) (g : RaftGroup N)
      (n : NodeWorker S N)
      → Fresh group_id replica_id g
      → Created group_id replica_id n (enter_group st starts rds voters g n)
  unfolding enter_group
  enter_group-Created group_id replica_id rds voters g n h =
      let next : RaftGroup N → Call S N (Unit {0}) =
        λ g₁. track_voters st starts g.group_id voters g₁ >>= register st starts in
      and_then-Created group_id replica_id n (track_replicas st starts g.group_id rds g n) next
        (Tracks g) (track_replicas-Quiet st starts g.group_id rds g n)
        (λ g₁ n₁ t.
          and_then-Created group_id replica_id n₁ (track_voters st starts g.group_id voters g₁ n₁)
            (register st starts) (Tracks g₁) (track_voters-Quiet st starts g.group_id voters g₁ n₁)
            (λ g₂ n₂ t'. register-Created group_id replica_id g₂ n₂ (
              Fresh-Tracks group_id replica_id g₁ g₂ (Fresh-Tracks group_id replica_id g g₁ h t)
                t')))

  start_group-Created :
      (node_id group_id replica_id : ℕ) (rds : List ReplicaDesc) (applied_hint : Option ℕ)
      (init_msg : Option MultiRaftMessage) (n : NodeWorker S N)
      → Created group_id replica_id n
          (start_group st starts node_id group_id replica_id rds applied_hint init_msg n)
  unfolding start_group new_group Queue.new of_parts
  start_group-Created node_id group_id replica_id rds applied_hint init_msg n =
      let enter : RaftState × N → ReplicaDesc → Call S N (Unit {0}) = λ opened leader.
        enter_group st starts rds opened.0.conf_state.voters
          (new_group st starts node_id group_id replica_id opened.1 leader opened.0) in
      and_then-Created group_id replica_id n
        (open_group st starts group_id replica_id applied_hint n)
        (λ opened. adopt_leader st starts group_id replica_id init_msg >>= enter opened) Any
        (open_group-Quiet st starts group_id replica_id applied_hint n)
        (λ opened n₁ p.
          and_then-Created group_id replica_id n₁
            (adopt_leader st starts group_id replica_id init_msg n₁) (enter opened) Any
            (adopt_leader-Quiet st starts group_id replica_id init_msg n₁)
            (λ leader n₂ q.
              enter_group-Created group_id replica_id rds opened.0.conf_state.voters
                (new_group st starts node_id group_id replica_id opened.1 leader opened.0) n₂
                (refl, refl, refl, refl, refl)))

  -- A creation that succeeds enters just the one group, without proposals and not deleted, with its
  -- shared state, and announces it; one that fails leaves groups, shared states and events as they
  -- were, whatever else it has written.
  pub create_raft_group-Created :
      (group_id replica_id : ℕ) (rds : List ReplicaDesc) (applied_hint : Option ℕ)
      (init_msg : Option MultiRaftMessage) (n : NodeWorker S N)
      → Created group_id replica_id n
          (create_raft_group st starts group_id replica_id rds applied_hint init_msg n)
  unfolding create_raft_group
  create_raft_group-Created group_id replica_id rds applied_hint init_msg n =
      let started =
        start_group st starts n.worker.node_id group_id replica_id rds applied_hint init_msg n in
      let refused : Error → NodeWorker S N × Outcome Error (Unit {0}) = λ e. (n, err e) in
      let no_group = refused (Error.bad_parameter "group id must be more than 0") in
      let no_replica = refused (Error.bad_parameter "replica id must be more than 0") in
      let exists = refused (Error.raft_group (RaftGroupError.exists n.worker.node_id group_id)) in
      let with_replica = if replica_id == 0 then no_replica else started in
      let with_group = if group_id == 0 then no_group else with_replica in
      if-Created group_id replica_id n (contains_key group_id n.worker.groups) exists with_group
        (refl, refl, refl)
        (if-Created group_id replica_id n (group_id == 0) no_group with_replica (refl, refl, refl)
          (if-Created group_id replica_id n (replica_id == 0) no_replica started (refl, refl, refl)
            (start_group-Created n.worker.node_id group_id replica_id rds applied_hint init_msg n)))
