-- ===== src/Group/Collect.antt =====
-- The proposals that an apply carries: those of its entries.
use oceanraft.Common.{ℕ, ◌≡◌, refl, min, true, List, [], ◌∷◌, none, some, Outcome, ok, arith}
use oceanraft.Types.{Entry}
use oceanraft.Types.Errors.{StorageError}
use oceanraft.Proposal.Queue.{Proposal, ProposalQueue, is_later, find_proposal, is_empty}
use oceanraft.Group.Raft.{RawNode, RaftGroup}
use oceanraft.Group.Create.{collect, find_proposals, entries_size, create_apply}

-- The queue is empty, or its front is past the entry.
abbrev pub Waits : Entry → List Proposal → Type 0
Waits e [] = Unit
Waits e (p ∷ ps) = is_later p e.term e.index ≡ true

-- The proposals at the front of a queue stand in the order of their entries, and no other
-- proposal stands between them: which are taken, and which stay.
pub data Matches : List Entry → List Proposal → List Proposal → List Proposal → Type 0 where
  done : {ps : List Proposal} → Matches [] ps [] ps
  own :
      (e : Entry) (p : Proposal) {es : List Entry} {ps taken left : List Proposal}
      → p.term ≡ e.term
      → p.index ≡ e.index
      → Matches es ps taken left
      → Matches (e ∷ es) (p ∷ ps) (p ∷ taken) left
  foreign :
      (e : Entry) {es : List Entry} {ps taken left : List Proposal}
      → Waits e ps
      → Matches es ps taken left
      → Matches (e ∷ es) ps taken left

find-own :
    (ct : ℕ) (e : Entry) (p : Proposal) (ps : List Proposal) (r : ℕ)
    → p.term ≡ e.term
    → p.index ≡ e.index
    → find_proposal e.term e.index ct (record { replica_id = r; queue = p ∷ ps })
      ≡ (some p, record { replica_id = r; queue = ps }, [])
unfolding find_proposal
find-own ct e p ps r t i = ground arith

find-foreign :
    (ct : ℕ) (e : Entry) (ps : List Proposal) (r : ℕ)
    → Waits e ps
    → find_proposal e.term e.index ct (record { replica_id = r; queue = ps })
      ≡ (none, record { replica_id = r; queue = ps }, [])
unfolding find_proposal
find-foreign ct e [] r h = refl
find-foreign ct e (p ∷ ps) r h = ground arith

collect_lem :
    (ct r : ℕ) {es : List Entry} {ps taken left : List Proposal}
    → Matches es ps taken left
    → collect ct es (record { replica_id = r; queue = ps })
      ≡ (taken, record { replica_id = r; queue = left }, [])
unfolding collect
collect_lem ct r done = refl
collect_lem ct r (own e p {ps = ps} t i m) =
    ground (arith, find-own ct e p ps r t i, collect_lem ct r m)
collect_lem ct r (foreign e {ps = ps} h m) =
    ground (arith, find-foreign ct e ps r h, collect_lem ct r m)

-- An empty queue need not be searched.
Matches-nil :
    {es : List Entry} {ps taken left : List Proposal}
    → Matches es ps taken left
    → ps ≡ []
    → (taken ≡ []) × (left ≡ [])
Matches-nil done e = (refl, e)
Matches-nil (own e p t i m) h = absurd cc
Matches-nil (foreign e h m) h' = Matches-nil m h'

find_proposals_lem :
    (ct : ℕ) (es : List Entry) (q : ProposalQueue) (ps taken left : List Proposal)
    → q.queue ≡ ps
    → Matches es ps taken left
    → find_proposals ct es q ≡ (taken, record q { queue = left }, [])
unfolding find_proposals is_empty
find_proposals_lem ct es q [] taken left e m =
    let (none_taken, none_left) = Matches-nil m refl in ground arith
find_proposals_lem ct es q (p ∷ ps) taken left e m =
    let whole : q ≡ record { replica_id = q.replica_id; queue = p ∷ ps } = cc in
    rw e (rw whole (collect_lem ct q.replica_id m))

module _ {N : Type 0} (raw : RawNode N) (size : Entry → ℕ)
    (gs_term : ℕ → Outcome StorageError ℕ) where
  -- When the storage knows the term of the advanced commit index and the proposals at the front of
  -- the queue stand in the order of their entries, the apply carries all entries with exactly the
  -- proposals of its own, in order; nobody is answered, and only they leave the queue.
  pub create_apply_lem :
      (replica_id commit_term : ℕ) (entries : List Entry) (g : RaftGroup N)
      (taken left : List Proposal)
      → gs_term (min (raw.committed g.raft_group) (raw.persisted g.raft_group)) ≡ ok commit_term
      → Matches entries g.proposals.queue taken left
      → create_apply raw size gs_term replica_id entries g ≡ (
        ok (
          record {
            replica_id = replica_id;
            group_id = g.group_id;
            term = raw.term g.raft_group;
            commit_index = min (raw.committed g.raft_group) (raw.persisted g.raft_group);
            commit_term = commit_term;
            entries = entries;
            entries_size = entries_size size entries;
            proposals = taken;
          },
          [],
        ),
        record g { proposals = record g.proposals { queue = left } },
      )
  unfolding create_apply
  create_apply_lem replica_id commit_term entries g taken left known m =
      rw
        (
          known,
          create_apply,
          find_proposals_lem (raw.term g.raft_group) entries g.proposals g.proposals.queue taken
              left refl m,
        )
        refl
