-- ===== src/Group/Answers.antt =====
-- Every write that a group is asked to propose is queued or answered.
use oceanraft.Common.{
  ℕ, ◌+◌, ◌≤◌, ◌<◌, ◌≡◌, ◌≢◌, ◌⊎◌, ◌∙◌, refl, ap, inl, inr, true, false, not, ◌&&◌, List, [], ◌∷◌,
  ◌++◌, none, some, ltb, ◌==◌, last, Bool-cases, Outcome, ok, err, panic, arith,
}
use oceanraft.Types.Errors.{Error, RaftError, ProposeError, propose}
use oceanraft.Types.Reply.{Sender}
use oceanraft.Proposal.Queue.{Proposal}
use oceanraft.Proposal.Order.{IsSorted, Follows, push-IsSorted}
use oceanraft.Group.Raft.{RawNode, RaftGroup, WriteRequest}
use oceanraft.Group.Propose.{
  Callback, is_leader, term, last_index, pre_propose_write, enqueue, settle_raft, propose_checked,
  propose_write,
}

-- The context of a write, empty if there is none.
abbrev pub context_of : {W : Type 0} → WriteRequest W → List ℕ
context_of w = elim w.context [ none ↦ [] | some ctx ↦ ctx ]

module _ {N : Type 0} (raw : RawNode N) where
  -- The proposal that a write becomes.
  abbrev pub proposal_of : Sender → RaftGroup N → Proposal
  proposal_of tx g = record {
    index = last_index raw g + 1;
    term = term raw g;
    is_conf_change = false;
    tx = some tx;
  }

  -- The ways in which a write is refused, each with its error: the group does not lead, the write is
  -- of an older term, it is not serialized, raft refuses it, or raft takes it without a new entry.
  pub data Refusal {W : Type 0} (serialize : W → Outcome Error (List ℕ)) (w : WriteRequest W)
      (g : RaftGroup N) : Error → Type 0 where
    follows :
        is_leader raw g ≡ false
        → Refusal serialize w g
            (propose (ProposeError.not_leader g.node_id g.group_id g.replica_id))
    older :
        w.term ≢ 0
        → w.term < term raw g
        → Refusal serialize w g (propose (ProposeError.stale w.term (term raw g)))
    unserialized : (e : Error) → serialize w.request ≡ err e → Refusal serialize w g e
    refused_by_raft :
        (payload : List ℕ) (e : RaftError)
        → serialize w.request ≡ ok payload
        → (raw.propose (context_of w) payload g.raft_group).0 ≡ err e
        → Refusal serialize w g (Error.raft e)
    no_entry :
        (payload : List ℕ)
        → serialize w.request ≡ ok payload
        → (raw.propose (context_of w) payload g.raft_group).0 ≡ ok tt
        → raw.last_index (raw.propose (context_of w) payload g.raft_group).1 ≡ last_index raw g
        → Refusal serialize w g (
            propose (
              ProposeError.unexpected_index g.node_id g.group_id g.replica_id
                (last_index raw g + 1)
                (last_index raw g)))

  -- The ways in which proposing a write ends: the client is answered at once with the error of one
  -- of the refusals, and the queue is unchanged; or a leader's raft has taken a write that is not
  -- stale, with a new end of its log, and the write waits at the end of the queue, which stays in
  -- order.
  pub data WriteEnds {W : Type 0} (serialize : W → Outcome Error (List ℕ)) (w : WriteRequest W)
      (g : RaftGroup N) : Outcome Error (Callback × RaftGroup N) → Type 0 where
    refused :
        (e : Error) (g' : RaftGroup N)
        → Refusal serialize w g e
        → g'.proposals ≡ g.proposals
        → WriteEnds serialize w g (ok (some (w.tx, e), g'))
    queued :
        (g' : RaftGroup N) (payload : List ℕ)
        → is_leader raw g ≡ true
        → (w.term ≡ 0) ⊎ (term raw g ≤ w.term)
        → serialize w.request ≡ ok payload
        → raw.propose (context_of w) payload g.raft_group ≡ (ok tt, g'.raft_group)
        → last_index raw g' ≢ last_index raw g
        → g'.proposals.queue ≡ g.proposals.queue ++ proposal_of w.tx g ∷ []
        → IsSorted g'.proposals.queue
        → WriteEnds serialize w g (ok (none, g'))

  module _ {W : Type 0} (serialize : W → Outcome Error (List ℕ)) (w : WriteRequest W)
      (g : RaftGroup N) (sorted : IsSorted g.proposals.queue)
      (in_order : Follows (last g.proposals.queue) (proposal_of w.tx g)) where
    enqueue_ends :
        (payload : List ℕ) (n : N)
        → is_leader raw g ≡ true
        → (w.term ≡ 0) ⊎ (term raw g ≤ w.term)
        → serialize w.request ≡ ok payload
        → raw.propose (context_of w) payload g.raft_group ≡ (ok tt, n)
        → WriteEnds serialize w g (
            enqueue raw false w.tx
              (last_index raw g + 1)
              (term raw g)
              (record g { raft_group = n }))
    unfolding enqueue last_index
    enqueue_ends payload n leads fresh read taken =
        let (q', pushed, at_end, order) =
          push-IsSorted (proposal_of w.tx g) g.proposals sorted in_order in
        elim (Bool-cases (raw.last_index g.raft_group + 1 == raw.last_index n + 1)) [
          | inl same ↦
              let still : raw.last_index n ≡ raw.last_index g.raft_group = ground (arith, same) in
              rw (same, still)
                (refused
                  (propose (
                    ProposeError.unexpected_index g.node_id g.group_id g.replica_id
                      (raw.last_index g.raft_group + 1) (raw.last_index g.raft_group)))
                  (record g { raft_group = n })
                  (no_entry payload read (ap (λ p. p.0) taken)
                    (ap (λ p. raw.last_index p.1) taken ∙ still))
                  refl)
          | inr grown ↦
              rw (grown, pushed)
                (queued (record g { raft_group = n; proposals = q' }) payload leads fresh read taken
                  (λ e. ground (arith, grown, e)) at_end order)
        ]

    settle_ends :
        (payload : List ℕ) (result : Outcome RaftError (Unit {0})) (n : N)
        → raw.propose (context_of w) payload g.raft_group ≡ (result, n)
        → result ≢ panic
        → is_leader raw g ≡ true
        → (w.term ≡ 0) ⊎ (term raw g ≤ w.term)
        → serialize w.request ≡ ok payload
        → WriteEnds serialize w g
            (settle_raft raw false w.tx (last_index raw g + 1) (term raw g) (result, n) g)
    unfolding settle_raft last_index
    settle_ends payload panic n e calm leads fresh read = absurd (calm refl)
    settle_ends payload (err x) n e calm leads fresh read =
        refused (Error.raft x) (record g { raft_group = n })
          (refused_by_raft payload x read (ap (λ p. p.0) e)) refl
    settle_ends payload (ok tt) n e calm leads fresh read =
        enqueue_ends payload n leads fresh read e

    checked_ends :
        (out : Outcome Error (List ℕ))
        → serialize w.request ≡ out
        → out ≢ panic
        → ((payload : List ℕ) → (raw.propose (context_of w) payload g.raft_group).0 ≢ panic)
        → is_leader raw g ≡ true
        → (w.term ≡ 0) ⊎ (term raw g ≤ w.term)
        → WriteEnds serialize w g (propose_checked raw serialize w g)
    unfolding propose_checked
    checked_ends panic e calm calm' leads fresh = absurd (calm refl)
    checked_ends (err x) e calm calm' leads fresh =
        rw (e, propose_checked) (refused x g (unserialized x e) refl)
    checked_ends (ok payload) e calm calm' leads fresh =
        rw (e, propose_checked)
          (settle_ends payload (raw.propose (context_of w) payload g.raft_group).0
            (raw.propose (context_of w) payload g.raft_group).1 refl (calm' payload) leads fresh e)

    -- When the queue of a group is in order and its last proposal is not past the end of the log,
    -- and neither raft nor the serializer panics, proposing a write does not panic. Either the
    -- client is answered with the error of what refuses the write (the group does not lead, the
    -- write is of an older term, the serializer fails, raft fails, or raft's log does not get a new
    -- end), with the queue unchanged; or none of these is the case, and the write is queued last, in
    -- order, under the index after the old end of the log and the current term.
    pub propose_write_lem :
        serialize w.request ≢ panic
        → ((payload : List ℕ) → (raw.propose (context_of w) payload g.raft_group).0 ≢ panic)
        → WriteEnds serialize w g (propose_write raw serialize w g)
    unfolding propose_write pre_propose_write
    propose_write_lem calm calm' = elim (Bool-cases (is_leader raw g)) [
      | inr behind ↦
          rw (behind, propose_write, pre_propose_write)
            (refused (propose (ProposeError.not_leader g.node_id g.group_id g.replica_id)) g
              (follows behind) refl)
      | inl leads ↦ elim (Bool-cases (not (w.term == 0) && ltb w.term (term raw g))) [
        | inl old ↦
            rw (leads, old, propose_write, pre_propose_write)
              (refused (propose (ProposeError.stale w.term (term raw g))) g
                (older (λ e. ground (arith, old, e)) (ground (arith, old))) refl)
        | inr fresh ↦
            rw (leads, fresh, propose_write, pre_propose_write)
              (checked_ends (serialize w.request) refl calm calm' leads (in_time fresh))
      ]
    ]
      where
        in_time :
            (not (w.term == 0) && ltb w.term (term raw g)) ≡ false
            → (w.term ≡ 0) ⊎ (term raw g ≤ w.term)
        in_time fresh = elim (Bool-cases (w.term == 0)) [
          | inl none_given ↦ inl (ground (arith, none_given))
          | inr given ↦ inr (ground (arith, fresh, given))
        ]
