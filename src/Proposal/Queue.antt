-- ===== src/Proposal/Queue.antt =====
-- oceanraft/src/proposal.rs, `ProposalQueue`. `try_gc` gives back capacity, which no call observes.
use oceanraft.Common.{
  ℕ, Bool, true, false, ◌&&◌, ◌||◌, List, [], ◌∷◌, ◌++◌, Option, none, some, ltb, ◌==◌,
  if◌then◌else◌, last, Outcome, ok, panic,
}
use oceanraft.Types.Errors.{Error, ProposeError, propose}
use oceanraft.Types.Reply.{Sender, Replies, reply}

pub record Proposal : Type 0 where
  pub index : ℕ
  pub term : ℕ
  pub is_conf_change : Bool
  pub tx : Option Sender

pub record ProposalQueue : Type 0 where
  pub replica_id : ℕ
  pub queue : List Proposal

unfoldable pub new : ℕ → ProposalQueue
new replica_id = record { replica_id = replica_id; queue = [] }

-- A proposal behind the last one is a bug of the caller.
unfoldable pub push : Proposal → ProposalQueue → Outcome Error ProposalQueue
push p q = elim (last q.queue) [
  | none ↦ ok (record q { queue = q.queue ++ p ∷ [] })
  | some l ↦
      if ltb p.term l.term
      then panic
      else if ltb p.index l.index
      then panic
      else ok (record q { queue = q.queue ++ p ∷ [] })
]

-- `drain(..)`
unfoldable pub drain : ProposalQueue → List Proposal × ProposalQueue
drain q = (q.queue, record q { queue = [] })

-- `(p.term, p.index) > (term, index)`
abbrev pub is_later : Proposal → ℕ → ℕ → Bool
is_later p term index = ltb term p.term || p.term == term && ltb index p.index

unfoldable pub pop_from : ℕ → ℕ → List Proposal → Option Proposal × List Proposal
pop_from term index [] = (none, [])
pop_from term index (p ∷ ps) = if is_later p term index then (none, p ∷ ps) else (some p, ps)

unfoldable pub pop : ℕ → ℕ → ProposalQueue → Option Proposal × ProposalQueue
unfolding pop_from
pop term index q =
    let (found, rest) = pop_from term index q.queue in (found, record q { queue = rest })

-- What the body of the `while let` makes of a popped proposal: each of its branches returns, so the
-- loop runs once at most.
unfoldable pub settle : ℕ → ℕ → ℕ → Proposal → Option Proposal × Replies
settle term index current_term p =
    if p.term == term
    then if p.index == index then (some p, []) else (none, [])
    else (none, reply p.tx (propose (ProposeError.stale p.term current_term)))

unfoldable pub find_proposal : ℕ → ℕ → ℕ → ProposalQueue → Option Proposal × ProposalQueue × Replies
unfolding pop settle
find_proposal term index current_term q =
    let (popped, q') = pop term index q in
    elim popped [
      | none ↦ (none, q', [])
      | some p ↦ let (found, replies) = settle term index current_term p in (found, q', replies)
    ]

unfoldable pub is_empty : ProposalQueue → Bool
is_empty q = elim q.queue [ [] ↦ true | _ ∷ _ ↦ false ]
