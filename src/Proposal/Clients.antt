-- ===== src/Proposal/Clients.antt =====
-- oceanraft/src/proposal.rs, `find_proposal`: what becomes of the clients of a proposal queue.
use oceanraft.Common.{
  ℕ, ◌<◌, ◌≡◌, ◌⊎◌, refl, sym, ap, ◌∙◌, inl, inr, List, [], ◌∷◌, ◌++◌, append-nil, map, Option,
  none, some, Option-cases, arith,
}
use oceanraft.Types.Errors.{Error, ProposeError, propose}
use oceanraft.Types.Reply.{Sender, Replies, reply}
use oceanraft.Proposal.Queue.{Proposal, ProposalQueue, find_proposal}
use oceanraft.Proposal.Order.{FindEnds, waits, matches, drops, answers, find_proposal_lem}

-- The clients of proposals, in order.
abbrev pub clients : List Proposal → List Sender
clients [] = []
clients (p ∷ ps) = elim p.tx [ none ↦ clients ps | some tx ↦ tx ∷ clients ps ]

-- All of them are told the one error.
abbrev pub told : Error → List Proposal → Replies
told e ps = map (λ tx. (tx, e)) (clients ps)

abbrev pub found_list : Option Proposal → List Proposal
found_list none = []
found_list (some p) = p ∷ []

-- The front of a queue that has one is the one that is named.
front : {p q : Proposal} {ps qs : List Proposal} → p ∷ ps ≡ q ∷ qs → (p ≡ q) × (ps ≡ qs)
front e = (cc, cc)

first-Kept :
    (p : Proposal) (left : List Proposal) → clients (p ∷ left) ≡ clients (p ∷ []) ++ clients left
first-Kept p left = elim (Option-cases p.tx) [
  | inl quiet ↦ rw quiet refl
  | inr (tx, asks) ↦ rw asks refl
]

reply-told : (p : Proposal) (e : Error) → reply p.tx e ≡ told e (p ∷ [])
reply-told p e = elim (Option-cases p.tx) [
  | inl quiet ↦ rw quiet refl
  | inr (tx, asks) ↦ rw asks refl
]

told-clients : (p : Proposal) (e : Error) → map (λ r. r.0) (told e (p ∷ [])) ≡ clients (p ∷ [])
told-clients p e = elim (Option-cases p.tx) [
  | inl quiet ↦ rw quiet refl
  | inr (tx, asks) ↦ rw asks refl
]

module _ (term index current_term : ℕ) where
  -- The front proposal has the term that is searched for and a smaller index: it is gone, and its
  -- client is told nothing.
  abbrev pub Dropped : List Proposal → Option Proposal → List Proposal → Replies → Type 0
  Dropped queue found left replies =
      (p : Proposal) × (queue ≡ p ∷ left)
      × (p.term ≡ term)
      × (p.index < index)
      × (found ≡ none)
      × (replies ≡ [])

  -- Every client is handed over, told, or waits, in the order of the queue.
  abbrev pub Kept : List Proposal → Option Proposal → List Proposal → Replies → Type 0
  Kept queue found left replies =
      clients queue ≡ clients (found_list found) ++ map (λ r. r.0) replies ++ clients left

  abbrev pub Settled : List Proposal → Option Proposal → List Proposal → Replies → Type 0
  Settled queue found left replies =
      (Dropped queue found left replies ⊎ Kept queue found left replies)
      × ((p : Proposal) → found ≡ some p → (p.term ≡ term) × (p.index ≡ index))
      × ((p : Proposal) (rest : List Proposal)
          → queue ≡ p ∷ rest
          → p.term < term
          → (found ≡ none)
            × (left ≡ rest)
            × (replies ≡ told (propose (ProposeError.stale p.term current_term)) (p ∷ [])))

  ends-Settled :
      {queue left : List Proposal} {found : Option Proposal} {replies : Replies}
      → FindEnds term index current_term queue found left replies
      → Settled queue found left replies
  ends-Settled (waits w none_found same quiet) = (
    inr (ground (arith, none_found, same, quiet)),
    λ p e. absurd cc,
    λ p rest e old. elim w [
      | inl empty ↦ absurd cc
      | inr (x, x', at, later) ↦
          let own : p.term ≡ x.term = ap (λ y. y.term) (front (sym e ∙ at)).0 in
          elim later [ inl l ↦ absurd (omega arith) | inr l ↦ absurd (omega arith) ]
    ],
  )
  ends-Settled {left} (matches p at same there is quiet) = (
    inr (rw (at, is, quiet, append-nil) (first-Kept p left)),
    λ p' e.
        let own : p ≡ p' = cc in
        (ap (λ y. y.term) (sym own) ∙ same, ap (λ y. y.index) (sym own) ∙ there),
    λ p' rest e old.
        let own : p'.term ≡ p.term = ap (λ y. y.term) (front (sym e ∙ at)).0 in
        absurd (omega arith),
  )
  ends-Settled (drops p at same small none_found quiet) = (
    inl (p, at, same, small, none_found, quiet),
    λ p' e. absurd cc,
    λ p' rest e old.
        let own : p'.term ≡ p.term = ap (λ y. y.term) (front (sym e ∙ at)).0 in
        absurd (omega arith),
  )
  ends-Settled {left} (answers p at older none_found said) = (
    inr (
        rw
          (
            at,
            none_found,
            said,
            reply-told p (propose (ProposeError.stale p.term current_term)),
            told-clients p (propose (ProposeError.stale p.term current_term)),
          )
          (first-Kept p left)),
    λ p' e. absurd cc,
    λ p' rest e old.
        let own = front (sym e ∙ at) in
        (
          none_found,
          sym own.1,
          said
              ∙ reply-told p (propose (ProposeError.stale p.term current_term))
              ∙ ap (λ y. told (propose (ProposeError.stale y.term current_term)) (y ∷ []))
                  (sym own.0),
        ),
  )

  -- A search of the proposal queue hands on, tells or keeps every client, in the order of the queue,
  -- unless the front proposal has the term that is searched for and a smaller index: it is dropped,
  -- and its client is told nothing. What is found has the term and the index that are searched for,
  -- and a front proposal of an older term is taken off and its client told that it is stale.
  pub find_proposal-Settled :
      (q : ProposalQueue)
      → let (found, q', replies) = find_proposal term index current_term q in
        Settled q.queue found q'.queue replies
  find_proposal-Settled q = ends-Settled (find_proposal_lem term index current_term q)
