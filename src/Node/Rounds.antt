-- ===== src/Node/Rounds.antt =====
-- oceanraft/src/node.rs, `handle_readys`: what a round leaves alone.
use oceanraft.Common.{
  ℕ, ◌≡◌, ◌≢◌, refl, ◌∙◌, inl, inr, Bool, List, [], ◌∷◌, map, Option, none, some, ◌==◌, lookup,
  insert, lookup-insert, Option-cases, Bool-cases, Outcome, ok, err, panic, arith,
}
use oceanraft.Types.{Entry}
use oceanraft.Types.Errors.{Error, StorageError}
use oceanraft.Proposal.Reads.{ReadIndexContext}
use oceanraft.Apply.Batch.{ApplyData}
use oceanraft.Group.Raft.{RawNode, RaftGroup}
use oceanraft.Replica.Store.{MultiRaftStorage}
use oceanraft.Node.State.{NodeWorker}
use oceanraft.Node.Lifecycle.{Starts}
use oceanraft.Node.Ready.{RaftReady, RaftGroupWriteRequest, handle_ready}
use oceanraft.Node.Round.{
  Round, begin_turn, end_turn, is_fatal, on_ready_error, on_ready, ready_group, ready_each,
  collect_readys,
}

other :
    {A : Type 0} (j group_id : ℕ) (a : A) (m : List (ℕ × A))
    → group_id ≢ j
    → lookup j (insert group_id a m) ≡ lookup j m
other j group_id a m off = ground (arith, off, lookup-insert group_id j a m)

-- A group that is in none of the places of a list.
abbrev pub Away : ℕ → List ℕ → Type 0
Away j [] = Unit
Away j (i ∷ ids) = (i ≢ j) × Away j ids

lookup-Away :
    {A : Type 0} (j : ℕ) (m : List (ℕ × A)) → lookup j m ≡ none → Away j (map (λ kv. kv.0) m)
lookup-Away j [] h = tt
lookup-Away j ((k, a) ∷ m) h = elim (Bool-cases (k == j)) [
  | inl same ↦ absurd (ground (arith, h, same))
  | inr off ↦ ((λ e. ground (arith, off, e)), lookup-Away j m (ground (arith, h, off)))
]

module _ {S N : Type 0} (j : ℕ) where
  -- The group is as it was, and nothing of it is to be written or applied.
  abbrev pub Elsewhere : Round S N → Outcome Error (Round S N) → Type 0
  Elsewhere r (ok r') =
      (lookup j r'.node.worker.groups ≡ lookup j r.node.worker.groups)
      × (lookup j r'.writes ≡ lookup j r.writes)
      × (lookup j r'.applys ≡ lookup j r.applys)
  Elsewhere r (err e) = Unit
  Elsewhere r panic = Unit

  Elsewhere-trans :
      (r r' : Round S N) (x : Outcome Error (Round S N))
      → Elsewhere r (ok r')
      → Elsewhere r' x
      → Elsewhere r x
  Elsewhere-trans r r' (ok r'') h k = (k.0 ∙ h.0, k.1 ∙ h.1, k.2 ∙ h.2)
  Elsewhere-trans r r' (err e) h k = tt
  Elsewhere-trans r r' panic h k = tt

  on_ready-Elsewhere :
      (group_id : ℕ) (result : Outcome Error (RaftGroupWriteRequest × Option ApplyData))
      (r : Round S N)
      → group_id ≢ j
      → Elsewhere r (on_ready group_id result r)
  unfolding on_ready on_ready_error
  on_ready-Elsewhere group_id panic r off = tt
  on_ready-Elsewhere group_id (err e) r off = elim (Bool-cases (is_fatal e)) [
    | inl t ↦ rw (on_ready, on_ready_error, t) tt
    | inr f ↦ rw (on_ready, on_ready_error, f) (refl, refl, refl)
  ]
  on_ready-Elsewhere group_id (ok (gwr, none)) r off =
      (refl, other j group_id gwr r.writes off, refl)
  on_ready-Elsewhere group_id (ok (gwr, some apply)) r off =
      (refl, other j group_id gwr r.writes off, other j group_id apply r.applys off)

module _ {L S N : Type 0} (st : MultiRaftStorage S) (starts : Starts L S N) (raw : RawNode N)
    (raft_id : N → ℕ) (ready : N → RaftReady × N) (has_ready : N → Bool)
    (log_term : L → ℕ → Outcome StorageError ℕ) (size : Entry → ℕ)
    (decode : List ℕ → Option ReadIndexContext) (j : ℕ) where
  ready_group-Elsewhere :
      (group_id : ℕ) (group : RaftGroup N) (r : Round S N)
      → group_id ≢ j
      → Elsewhere j r
          (ready_group st starts raw raft_id ready has_ready log_term size decode group_id group r)
  unfolding ready_group
  ready_group-Elsewhere group_id group r off = elim (Bool-cases (has_ready group.raft_group)) [
    | inl t ↦
        let done =
          handle_ready st starts raw raft_id ready log_term size decode r.node.worker.node_id
            (begin_turn group r) in
        rw (ready_group, t)
          (Elsewhere-trans j r (end_turn group_id done.0 r)
            (on_ready group_id done.1 (end_turn group_id done.0 r))
            (other j group_id done.0.observer.group r.node.worker.groups off, refl, refl)
            (on_ready-Elsewhere j group_id done.1 (end_turn group_id done.0 r) off))
    | inr f ↦ rw (ready_group, f) (refl, refl, refl)
  ]

  abbrev Each : List ℕ → Round S N → Outcome Error (Round S N)
  Each = ready_each st starts raw raft_id ready has_ready log_term size decode

  abbrev goes_on : List ℕ → Outcome Error (Round S N) → Outcome Error (Round S N)
  goes_on ids panic = panic
  goes_on ids (err e) = err e
  goes_on ids (ok r') = Each ids r'

  -- The rest of the groups is turned to once one is done.
  goes_on-Elsewhere :
      (ids : List ℕ) (r : Round S N) (x : Outcome Error (Round S N))
      → Elsewhere j r x
      → ((r' : Round S N) → Elsewhere j r' (Each ids r'))
      → Elsewhere j r (goes_on ids x)
  goes_on-Elsewhere ids r (ok r') h k = Elsewhere-trans j r r' (Each ids r') h (k r')
  goes_on-Elsewhere ids r (err e) h k = tt
  goes_on-Elsewhere ids r panic h k = tt

  ready_each-Elsewhere : (ids : List ℕ) (r : Round S N) → Away j ids → Elsewhere j r (Each ids r)
  unfolding ready_each
  ready_each-Elsewhere [] r away = (refl, refl, refl)
  ready_each-Elsewhere (i ∷ ids) r away =
      let rest : (r' : Round S N) → Elsewhere j r' (Each ids r') =
        λ r'. ready_each-Elsewhere ids r' away.1 in
      elim (Bool-cases (i == 0)) [
        | inl nobody ↦ rw (ready_each, nobody) (rest r)
        | inr somebody ↦ elim (Option-cases (lookup i r.node.worker.groups)) [
          | inl missing ↦ rw (ready_each, somebody, missing) (rest r)
          | inr (group, found) ↦
              rw (ready_each, somebody, found)
                (goes_on-Elsewhere ids r
                  (ready_group st starts raw raft_id ready has_ready log_term size decode i group r)
                  (ready_group-Elsewhere i group r away.0) rest)
        ]
      ]

  -- A round over the groups that are active leaves every other group as it was, and takes nothing of
  -- it to be written or applied.
  pub collect_readys-Elsewhere :
      (n : NodeWorker S N)
      → lookup j n.worker.active_groups ≡ none
      → let begun : Round S N = record {
        node = n;
        sent = [];
        answers = [];
        told = [];
        writes = [];
        applys = [];
      } in
        Elsewhere j begun
          (collect_readys st starts raw raft_id ready has_ready log_term size decode n)
  unfolding collect_readys
  collect_readys-Elsewhere n idle =
      ready_each-Elsewhere (map (λ kv. kv.0) n.worker.active_groups)
        (record {
          node = record n { worker = record n.worker { active_groups = [] } };
          sent = [];
          answers = [];
          told = [];
          writes = [];
          applys = [];
        })
        (lookup-Away j n.worker.active_groups idle)
