-- ===== src/Node/Fanned.antt =====
-- Which groups a heartbeat reaches.
use oceanraft.Common.{
  ℕ, ◌≡◌, ◌≢◌, ◌⊎◌, refl, inl, inr, true, false, not, ◌||◌, [], ◌∷◌, Option, none, some, ◌==◌,
  if◌then◌else◌, Map, lookup, insert, lookup-insert, Bool-cases, Option-cases, Outcome-cases,
  Outcome, ok, err, panic, ◌>>=◌, arith,
}
use oceanraft.Types.{ReplicaDesc, default_metadata}
use oceanraft.Types.Errors.{Error, RaftError}
use oceanraft.Types.Message.{Message, MultiRaftMessage, msg_heartbeat, msg_heartbeat_response}
use oceanraft.Node.Manager.{get_node}
use oceanraft.Node.Heartbeats.{plain}
use oceanraft.Node.Membership.{Worker}
use oceanraft.Replica.Store.{MultiRaftStorage}
use oceanraft.Replica.Cache.{ReplicaCache, Call, replica_for_node}
use oceanraft.Group.Raft.{RawNode, RaftGroup}
use oceanraft.Group.Propose.{is_leader}
use oceanraft.Group.Propose as Propose
use oceanraft.Group.State.{StateRole, candidate, pre_candidate, follower, leader}
use oceanraft.Node.Fanout.{
  campaigns, step_group, step_msg, with_replica, fanout_step, fanout_one, fanout_all,
  fanout_heartbeat,
}

module _ {S N : Type 0} (raw : RawNode N) (st : MultiRaftStorage S) (gid : ℕ)
    (g : RaftGroup N) where
  -- The node still has the group, as it was.
  abbrev pub Has : Worker S N → Type 0
  Has w = lookup gid w.groups ≡ some g

  -- So it has after a call, unless the call panics.
  abbrev pub Keeps : Outcome Error (Worker S N) → Type 0
  Keeps (ok w) = Has w
  Keeps (err e) = Unit
  Keeps panic = Unit

  step_group-Keeps :
      (h : ℕ) (msg : Message) (g' : RaftGroup N) (w : Worker S N)
      → h ≢ gid
      → Has w
      → Keeps (step_group raw st h msg g' w)
  unfolding step_group
  step_group-Keeps h msg g' w other has = settled (raw.step msg g'.raft_group).0
    where
      kept :
          lookup gid (insert h (record g' { raft_group = (raw.step msg g'.raft_group).1 }) w.groups)
          ≡ some g
      kept = ground (
        arith,
        lookup-insert h gid (record g' { raft_group = (raw.step msg g'.raft_group).1 }) w.groups,
      )

      settled :
          (o : Outcome RaftError (Unit {0}))
          → Keeps (elim o [
            | panic ↦ panic
            | err e ↦ ok (record w {
              groups =
                  insert h (record g' { raft_group = (raw.step msg g'.raft_group).1 }) w.groups;
            })
            | ok _ ↦ ok (record w {
              groups =
                  insert h (record g' { raft_group = (raw.step msg g'.raft_group).1 }) w.groups;
            })
          ])
      settled panic = tt
      settled (err e) = kept
      settled (ok x) = kept

  with_replica-Keeps :
      (found : Call S (Option ReplicaDesc))
      (next : ReplicaDesc → Worker S N → Outcome Error (Worker S N)) (w : Worker S N)
      → Has w
      → ((d : ReplicaDesc) (w' : Worker S N) → Has w' → Keeps (next d w'))
      → Keeps (with_replica raw st found next w)
  unfolding with_replica
  with_replica-Keeps (panic, cache) next w has k = tt
  with_replica-Keeps (err e, cache) next w has k = has
  with_replica-Keeps (ok none, cache) next w has k = has
  with_replica-Keeps (ok (some d), cache) next w has k =
      k d (record w { replica_cache = cache }) has

  module _ (from to : ℕ) (off : (g.leader.node_id ≢ from) ⊎ (is_leader raw g ≡ true)) where
    fanout_step-Keeps :
        (h : ℕ) (g' : RaftGroup N) (w : Worker S N)
        → h ≢ gid
        → Has w
        → Keeps (fanout_step raw st from to h g' w)
    unfolding fanout_step
    fanout_step-Keeps h g' w other has =
        with_replica-Keeps (replica_for_node st h from w.replica_cache)
          (λ fr w₁.
            with_replica raw st (replica_for_node st h to w₁.replica_cache)
              (λ tr w₂. step_group raw st h (step_msg raw st fr.replica_id tr.replica_id g') g' w₂)
              w₁)
          w has
          λ fr w₁ has₁.
            with_replica-Keeps (replica_for_node st h to w₁.replica_cache)
              (λ tr w₂. step_group raw st h (step_msg raw st fr.replica_id tr.replica_id g') g' w₂)
              w₁ has₁
              λ tr w₂ has₂.
                step_group-Keeps h (step_msg raw st fr.replica_id tr.replica_id g') g' w₂ other has₂

    abbrev active : ℕ → Worker S N → Worker S N
    active h w = record w { active_groups = insert h tt w.active_groups }

    fanout_one-some :
        (h : ℕ) (g' : RaftGroup N) (w : Worker S N)
        → lookup h w.groups ≡ some g'
        → fanout_one raw st from to h w ≡ (
            if not (g'.leader.node_id == from) || from == w.node_id
            then ok (active h w)
            else if is_leader raw g'
            then ok (active h w)
            else fanout_step raw st from to h g' (active h w))
    unfolding fanout_one
    fanout_one-some h g' w known = rw (fanout_one, known) refl

    fanout_one-none :
        (h : ℕ) (w : Worker S N) → lookup h w.groups ≡ none → fanout_one raw st from to h w ≡ ok w
    unfolding fanout_one
    fanout_one-none h w unknown = rw (fanout_one, unknown) refl

    own_group-Keeps : (w : Worker S N) → Has w → Keeps (fanout_one raw st from to gid w)
    own_group-Keeps w has = rw (fanout_one-some gid g w has) (elim off [
      | inl away ↦
          let skip : (not (g.leader.node_id == from) || from == w.node_id) ≡ true = ground arith in
          rw skip has
      | inr leads ↦ elim (Bool-cases (not (g.leader.node_id == from) || from == w.node_id)) [
        | inl skip ↦ rw skip has
        | inr near ↦ rw (near, leads) has
      ]
    ])

    fanout_one-Keeps : (h : ℕ) (w : Worker S N) → Has w → Keeps (fanout_one raw st from to h w)
    fanout_one-Keeps h w has = elim (Bool-cases (h == gid)) [
      | inl same ↦ let e : h ≡ gid = ground arith in rw e (own_group-Keeps w has)
      | inr other ↦ elim (Option-cases (lookup h w.groups)) [
        | inl unknown ↦ rw (fanout_one-none h w unknown) has
        | inr (g', known) ↦
            rw (fanout_one-some h g' w known)
              (elim (Bool-cases (not (g'.leader.node_id == from) || from == w.node_id)) [
                | inl skip ↦ rw skip has
                | inr near ↦ elim (Bool-cases (is_leader raw g')) [
                  | inl leads ↦ rw (near, leads) has
                  | inr follows ↦
                      rw (near, follows) (fanout_step-Keeps h g' (active h w) (ground arith) has)
                ]
              ])
      ]
    ]

    bind-Keeps :
        (o : Outcome Error (Worker S N)) (f : Worker S N → Outcome Error (Worker S N))
        → Keeps o
        → ((w : Worker S N) → Has w → Keeps (f w))
        → Keeps (o >>= f)
    bind-Keeps (ok w) f k next = next w k
    bind-Keeps (err e) f k next = tt
    bind-Keeps panic f k next = tt

    fanout_all-Keeps :
        (hs : Map (Unit {0})) (w : Worker S N) → Has w → Keeps (fanout_all raw st from to hs w)
    unfolding fanout_all
    fanout_all-Keeps [] w has = has
    fanout_all-Keeps ((h, x) ∷ hs) w has =
        bind-Keeps (fanout_one raw st from to h w) (fanout_all raw st from to hs)
          (fanout_one-Keeps h w has) (λ w₁ has₁. fanout_all-Keeps hs w₁ has₁)

  -- The node that a heartbeat leaves still has the group as it was, also where the response is not
  -- sent.
  abbrev pub Handled :
      Outcome Error (MultiRaftMessage × Outcome Error (Unit {0}) × Worker S N) → Type 0
  Handled (ok (response, sent, w)) = Has w
  Handled (err e) = Unit
  Handled panic = Unit

  -- A heartbeat from a node leaves every group alone whose known leader is not on that node, and
  -- every group that this node leads itself, also where the transport fails to send the response.
  pub fanout_heartbeat-Handled :
      (send : MultiRaftMessage → Outcome Error (Unit {0})) (msg : MultiRaftMessage) (w : Worker S N)
      → (g.leader.node_id ≢ msg.from_node) ⊎ (is_leader raw g ≡ true)
      → Has w
      → Handled (fanout_heartbeat raw st send msg w)
  unfolding fanout_heartbeat
  fanout_heartbeat-Handled send msg w off has =
      elim (Option-cases (get_node msg.from_node w.node_manager)) [
        | inl unknown ↦ rw (fanout_heartbeat, unknown) has
        | inr (node, known) ↦
            rw (fanout_heartbeat, known)
              (handled
                (record {
                  group_id = 0;
                  from_node = w.node_id;
                  to_node = msg.from_node;
                  replicas = [];
                  msg = plain msg_heartbeat_response;
                })
                _ (fanout_all-Keeps msg.from_node msg.to_node off node.group_map w has))
      ]
    where
      handled :
          (response : MultiRaftMessage) (o : Outcome Error (Worker S N))
          → Keeps o
          → Handled (o >>= λ w'. ok (response, send response, w'))
      handled r (ok w') k = k
      handled r (err e) k = tt
      handled r panic k = tt

  fanout_one-eq :
      (from to : ℕ) (w : Worker S N)
      → Has w
      → fanout_one raw st from to gid w ≡ (
          let w₁ : Worker S N = record w { active_groups = insert gid tt w.active_groups } in
          if not (g.leader.node_id == from) || from == w.node_id
          then ok w₁
          else if is_leader raw g
          then ok w₁
          else fanout_step raw st from to gid g w₁)
  unfolding fanout_one
  fanout_one-eq from to w has = rw (fanout_one, has) refl

  step_group_ok :
      (msg : Message) (w : Worker S N)
      → (raw.step msg g.raft_group).0 ≢ panic
      → step_group raw st gid msg g w
        ≡ ok (record w {
          groups = insert gid (record g { raft_group = (raw.step msg g.raft_group).1 }) w.groups;
        })
  unfolding step_group
  step_group_ok msg w calm = elim (Outcome-cases (raw.step msg g.raft_group).0) [
    | inl (a, e) ↦ rw (step_group, e) refl
    | inr (inl (x, e)) ↦ rw (step_group, e) refl
    | inr (inr e) ↦ absurd (calm e)
  ]

  fanout_step_ok :
      (from to : ℕ) (fr tr : ReplicaDesc) (c₁ c₂ : ReplicaCache S) (w : Worker S N)
      → replica_for_node st gid from w.replica_cache ≡ (ok (some fr), c₁)
      → replica_for_node st gid to c₁ ≡ (ok (some tr), c₂)
      → fanout_step raw st from to gid g w
        ≡ step_group raw st gid
            (step_msg raw st fr.replica_id tr.replica_id g)
            g
            (record w { replica_cache = c₂ })
  unfolding fanout_step with_replica
  fanout_step_ok from to fr tr c₁ c₂ w f₁ f₂ = rw (fanout_step, f₁, with_replica, f₂) refl

  -- A heartbeat of raft from one replica to another, with this term, and nothing else in it.
  abbrev pub heartbeat_of : (from_replica to_replica term : ℕ) → Message
  heartbeat_of from_replica to_replica term = record {
    msg_type = msg_heartbeat;
    to = to_replica;
    from = from_replica;
    term = term;
    log_term = 0;
    index = 0;
    entries = [];
    commit = 0;
    commit_term = 0;
    snapshot = record { payload = []; metadata = default_metadata };
    request_snapshot = 0;
    reject = false;
    reject_hint = 0;
    context = [];
    deprecated_priority = 0;
    priority = 0;
  }

  -- The group campaigns, or campaigns for a vote before the vote.
  abbrev pub Campaigns : Type 0
  Campaigns = (raw.state g.raft_group ≡ candidate) ⊎ (raw.state g.raft_group ≡ pre_candidate)

  -- The term of a campaigning group, and else none.
  abbrev pub TermFor : ℕ → Type 0
  TermFor term = (Campaigns × (term ≡ raw.term g.raft_group)) ⊎ (¬ Campaigns × (term ≡ 0))

  term_for : TermFor (if campaigns (raw.state g.raft_group) then raw.term g.raft_group else 0)
  term_for = of_state (raw.state g.raft_group) refl
    where
      of_state :
          (r : StateRole)
          → raw.state g.raft_group ≡ r
          → TermFor (if campaigns (raw.state g.raft_group) then raw.term g.raft_group else 0)
      of_state candidate e = inl (inl e, rw e refl)
      of_state pre_candidate e = inl (inr e, rw e refl)
      of_state follower e = inr (elim [ inl h ↦ absurd cc | inr h ↦ absurd cc ], rw e refl)
      of_state leader e = inr (elim [ inl h ↦ absurd cc | inr h ↦ absurd cc ], rw e refl)

  -- A heartbeat from the node of the leader reaches a group that follows it: when both replicas are
  -- known and raft does not panic on a heartbeat from the one replica to the other, the raft node of
  -- the group steps just this heartbeat, with the term of the group if it campaigns and without one
  -- if not, and the group becomes active.
  pub fanout_one_lem :
      (from to : ℕ) (fr tr : ReplicaDesc) (c₁ c₂ : ReplicaCache S) (w : Worker S N)
      → Has w
      → g.leader.node_id ≡ from
      → from ≢ w.node_id
      → is_leader raw g ≡ false
      → replica_for_node st gid from w.replica_cache ≡ (ok (some fr), c₁)
      → replica_for_node st gid to c₁ ≡ (ok (some tr), c₂)
      → ((term : ℕ)
          → (raw.step (heartbeat_of fr.replica_id tr.replica_id term) g.raft_group).0 ≢ panic)
      → (w' : Worker S N) × (term : ℕ) × (fanout_one raw st from to gid w ≡ ok w')
        × TermFor term
        × (lookup gid w'.groups
            ≡ some (record g {
              raft_group =
                  (raw.step (heartbeat_of fr.replica_id tr.replica_id term) g.raft_group).1;
            }))
        × (lookup gid w'.active_groups ≡ some tt)
  unfolding step_msg Propose.term
  fanout_one_lem from to fr tr c₁ c₂ w has here away follows f₁ f₂ calm =
      let term = if campaigns (raw.state g.raft_group) then raw.term g.raft_group else 0 in
      let msg = heartbeat_of fr.replica_id tr.replica_id term in
      let g' : RaftGroup N = record g { raft_group = (raw.step msg g.raft_group).1 } in
      let near : (not (g.leader.node_id == from) || from == w.node_id) ≡ false = ground arith in
      let w₂ : Worker S N = record w {
        active_groups = insert gid tt w.active_groups;
        replica_cache = c₂;
      } in
      (
        record w₂ { groups = insert gid g' w.groups },
        term,
        rw
            (
              fanout_one-eq from to w has,
              near,
              follows,
              fanout_step_ok from to fr tr c₁ c₂
                  (record w { active_groups = insert gid tt w.active_groups }) f₁ f₂,
            )
            (step_group_ok msg w₂ (calm term)),
        term_for,
        ground (arith, lookup-insert gid gid g' w.groups),
        ground (arith, lookup-insert gid gid tt w.active_groups),
      )
