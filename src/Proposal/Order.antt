-- ===== src/Proposal/Order.antt =====
-- The order of a proposal queue, and what a search in it returns and drops.
use oceanraft.Common.{
  ℕ, ◌+◌, ◌≤◌, ◌<◌, ◌≡◌, ◌⊎◌, inl, inr, refl, List, [], ◌∷◌, ◌++◌, Option, none, some, ◌==◌, last,
  ok, panic, arith, Bool-cases,
}
use oceanraft.Types.Errors.{ProposeError, propose}
use oceanraft.Types.Reply.{Replies, reply}
use oceanraft.Proposal.Queue.{Proposal, ProposalQueue, push, is_later, find_proposal}

-- Terms and indices do not fall along the queue.
abbrev pub IsSorted : List Proposal → Type 0
IsSorted [] = Unit
IsSorted (p ∷ []) = Unit
IsSorted (p ∷ q ∷ r) = (p.term ≤ q.term) × (p.index ≤ q.index) × IsSorted (q ∷ r)

-- The proposal does not stand behind the end of the queue.
abbrev pub Follows : Option Proposal → Proposal → Type 0
Follows none p = Unit
Follows (some l) p = (l.term ≤ p.term) × (l.index ≤ p.index)

snoc-IsSorted :
    (ps : List Proposal) (p : Proposal)
    → IsSorted ps
    → Follows (last ps) p
    → IsSorted (ps ++ p ∷ [])
snoc-IsSorted [] p s f = tt
snoc-IsSorted (q ∷ []) p s f = (f.0, f.1, tt)
snoc-IsSorted (q ∷ r ∷ ps) p s f = (s.0, s.1, snoc-IsSorted (r ∷ ps) p s.2 f)

tail-IsSorted : (p : Proposal) (ps : List Proposal) → IsSorted (p ∷ ps) → IsSorted ps
tail-IsSorted p [] s = tt
tail-IsSorted p (q ∷ ps) s = s.2

-- A proposal that does not stand behind the last one is queued at the end, and the queue stays in
-- order.
pub push-IsSorted :
    (p : Proposal) (q : ProposalQueue)
    → IsSorted q.queue
    → Follows (last q.queue) p
    → (q' : ProposalQueue) × (push p q ≡ ok q') × (q'.queue ≡ q.queue ++ p ∷ []) × IsSorted q'.queue
unfolding push
push-IsSorted p q s f =
    (record q { queue = q.queue ++ p ∷ [] }, ground arith, refl, snoc-IsSorted q.queue p s f)

-- A proposal behind the last one, by its term or by its index, is refused by a panic.
pub push-panic :
    (p l : Proposal) (q : ProposalQueue)
    → last q.queue ≡ some l
    → (p.term < l.term) ⊎ (p.index < l.index)
    → push p q ≡ panic
unfolding push
push-panic p l q e h = ground arith

-- The four ways in which a search for `(term, index)` ends: what it finds, which queue it leaves,
-- and what it answers.
pub data FindEnds (term index current_term : ℕ) (ps : List Proposal) (r : Option Proposal)
    (left : List Proposal) (replies : Replies) : Type 0 where
  -- The queue is empty, or its front is later: nothing happens.
  waits :
      (ps ≡ [])
        ⊎ ((p : Proposal) × (rest : List Proposal) × (ps ≡ p ∷ rest)
            × ((term < p.term) ⊎ (p.term ≡ term) × (index < p.index)))
      → r ≡ none
      → left ≡ ps
      → replies ≡ []
      → FindEnds term index current_term ps r left replies
  -- The front is the one that is searched for.
  matches :
      (p : Proposal)
      → ps ≡ p ∷ left
      → p.term ≡ term
      → p.index ≡ index
      → r ≡ some p
      → replies ≡ []
      → FindEnds term index current_term ps r left replies
  -- The front is of the term and of a smaller index: it is dropped with no answer.
  drops :
      (p : Proposal)
      → ps ≡ p ∷ left
      → p.term ≡ term
      → p.index < index
      → r ≡ none
      → replies ≡ []
      → FindEnds term index current_term ps r left replies
  -- The front is of an older term: it is answered as stale.
  answers :
      (p : Proposal)
      → ps ≡ p ∷ left
      → p.term < term
      → r ≡ none
      → replies ≡ reply p.tx (propose (ProposeError.stale p.term current_term))
      → FindEnds term index current_term ps r left replies

find-ends :
    (term index ct : ℕ) (q : ProposalQueue) (ps : List Proposal)
    → q.queue ≡ ps
    → FindEnds term index ct ps
        (find_proposal term index ct q).0
        (find_proposal term index ct q).1.queue
        (find_proposal term index ct q).2
unfolding find_proposal
find-ends term index ct q [] e = waits (inl refl) (ground arith) (ground arith) (ground arith)
find-ends term index ct q (p ∷ ps) e = elim (Bool-cases (is_later p term index)) [
  | inl later ↦ waits (inr (p, ps, refl, ground arith)) (ground arith) (ground arith) (ground arith)
  | inr due ↦ elim (Bool-cases (p.term == term)) [
    | inr old ↦ answers p (ground arith) (ground arith) (ground arith) (ground arith)
    | inl same ↦ elim (Bool-cases (p.index == index)) [
      | inl hit ↦
          matches p (ground arith) (ground arith) (ground arith) (ground arith) (ground arith)
      | inr small ↦
          drops p (ground arith) (ground arith) (ground arith) (ground arith) (ground arith)
    ]
  ]
]

-- Every search ends in one of these four ways.
pub find_proposal_lem :
    (term index current_term : ℕ) (q : ProposalQueue)
    → FindEnds term index current_term q.queue
        (find_proposal term index current_term q).0
        (find_proposal term index current_term q).1.queue
        (find_proposal term index current_term q).2
find_proposal_lem term index ct q = find-ends term index ct q q.queue refl

FindEnds-IsSorted :
    {term index ct : ℕ} {ps left : List Proposal} {r : Option Proposal} {replies : Replies}
    → FindEnds term index ct ps r left replies
    → IsSorted ps
    → IsSorted left
FindEnds-IsSorted (waits w a b c) s = rw b s
FindEnds-IsSorted (matches p e a b c d) s = tail-IsSorted p _ (rw e at s)
FindEnds-IsSorted (drops p e a b c d) s = tail-IsSorted p _ (rw e at s)
FindEnds-IsSorted (answers p e a b c) s = tail-IsSorted p _ (rw e at s)

-- A search keeps the queue in order.
pub find_proposal-IsSorted :
    (term index current_term : ℕ) (q : ProposalQueue)
    → IsSorted q.queue
    → IsSorted (find_proposal term index current_term q).1.queue
find_proposal-IsSorted term index ct q s = FindEnds-IsSorted (find_proposal_lem term index ct q) s

-- The bug of a search that stops at the first proposal it pops: when a proposal of an older term
-- stands before the one that belongs to the entry `(term, index)`, the search answers the old one
-- and finds nothing, and the search for the next entry drops the right one with no answer.
pub find_proposal_stale_front :
    (term index current_term : ℕ) (old p : Proposal) (rest : List Proposal) (q : ProposalQueue)
    → q.queue ≡ old ∷ p ∷ rest
    → old.term < term
    → p.term ≡ term
    → p.index ≡ index
    → let (found, q₁, told) = find_proposal term index current_term q in
      let (found', q₂, told') = find_proposal term (index + 1) current_term q₁ in
      (found ≡ none)
      × (told ≡ reply old.tx (propose (ProposeError.stale old.term current_term)))
      × (found' ≡ none)
      × (q₂.queue ≡ rest)
      × (told' ≡ [])
unfolding find_proposal
find_proposal_stale_front term index ct old p rest q e lt same at =
    (ground arith, ground arith, ground arith, ground arith, ground arith)
