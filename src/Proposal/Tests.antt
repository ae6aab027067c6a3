-- ===== src/Proposal/Tests.antt =====
-- Runs of oceanraft/src/proposal.rs on small queues.
use oceanraft.Common.{ℕ, ◌≡◌, refl, false, List, [], ◌∷◌, Option, none, some, ok, arith}
use oceanraft.Types.Errors.{ProposeError, propose}
use oceanraft.Types.Reply.{reply}
use oceanraft.Proposal.Queue.{Proposal, ProposalQueue, find_proposal}
use oceanraft.Proposal.Order.{find_proposal_stale_front}
use oceanraft.Proposal.Clients.{Settled, find_proposal-Settled}
use oceanraft.Proposal.Reads.{
  ReadState, ReadIndexContext, ReadIndexProposal, ReadIndexQueue, on_reads_ready,
}
use oceanraft.Proposal.Serve.{unconfirmed, served, on_reads_ready_lem}

abbrev proposal : ℕ → ℕ → Proposal
proposal index term = record { index = index; term = term; is_conf_change = false; tx = some index }

abbrev queue : ProposalQueue
queue = record { replica_id = 1; queue = proposal 4 1 ∷ proposal 5 2 ∷ proposal 6 2 ∷ [] }

find_proposal-Settled_example :
    let (found, q', replies) = find_proposal 2 5 2 queue in
    Settled 2 5 2 queue.queue found q'.queue replies
find_proposal-Settled_example = find_proposal-Settled 2 5 2 queue

find_proposal_stale_front_example :
    let (found, q₁, told) = find_proposal 2 5 2 queue in
    let (found', q₂, told') = find_proposal 2 6 2 q₁ in
    (found ≡ none)
    × (told ≡ reply (some 4) (propose (ProposeError.stale 1 2)))
    × (found' ≡ none)
    × (q₂.queue ≡ proposal 6 2 ∷ [])
    × (told' ≡ [])
find_proposal_stale_front_example =
    find_proposal_stale_front 2 5 2 (proposal 4 1) (proposal 5 2) (proposal 6 2 ∷ []) queue refl
      (omega arith) refl refl

abbrev waiting : ℕ → ReadIndexProposal
waiting uuid = record { uuid = uuid; read_index = none; context = none; tx = some uuid }

abbrev reads : ReadIndexQueue
reads = record { ready_cnt = 0; handle_cnt = 1; queue = waiting 8 ∷ waiting 9 ∷ [] }

-- The context of uuid `n`, spelled by the one byte `n`.
abbrev decode : List ℕ → Option ReadIndexContext
decode [] = none
decode (n ∷ ns) = some (record { uuid = n; context = some ns })

abbrev confirmation : ReadState
confirmation = record { index = 5; request_ctx = 8 ∷ 2 ∷ [] }

abbrev contexts : List (ℕ × ReadIndexContext)
contexts = (5, record { uuid = 8; context = some (2 ∷ []) }) ∷ []

on_reads_ready_lem_example :
    (q' : ReadIndexQueue) × (on_reads_ready decode (confirmation ∷ []) reads
      ≡ ok (some (served contexts reads.queue, q')))
    × (q'.queue ≡ unconfirmed contexts reads.queue)
    × (q'.ready_cnt ≡ 0)
on_reads_ready_lem_example =
    on_reads_ready_lem decode (confirmation ∷ []) contexts reads refl (refl, refl, tt)

-- The read that is confirmed is answered with the context that its client gave.
answers_first : served contexts reads.queue ≡ (8, some (2 ∷ [])) ∷ []
unfolding served
answers_first = refl
