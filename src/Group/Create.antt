-- ===== src/Group/Create.antt =====
-- oceanraft/src/group.rs: from committed entries to what is applied. The size of an entry,
-- `compute_entry_size`, is a parameter; so is the term that the log storage of the group reports.
use oceanraft.Common.{
  ℕ, ◌+◌, min, not, ◌&&◌, List, [], ◌∷◌, ◌++◌, none, some, ◌==◌, if◌then◌else◌, last, Outcome, ok,
  err, panic,
}
use oceanraft.Types.{Entry}
use oceanraft.Types.Errors.{StorageError}
use oceanraft.Types.Reply.{Replies}
use oceanraft.Proposal.Queue.{Proposal, ProposalQueue, find_proposal, is_empty}
use oceanraft.Apply.Batch.{ApplyData}
use oceanraft.Group.State.{set_commit_index, set_commit_term}
use oceanraft.Group.Raft.{RawNode, RaftGroup}

-- The loop over the entries: what it finds, the queue it leaves, what it answers.
unfoldable pub collect : ℕ → List Entry → ProposalQueue → List Proposal × ProposalQueue × Replies
unfolding find_proposal
collect current_term [] q = ([], q, [])
collect current_term (entry ∷ entries) q =
    let (found, q₁, told) = find_proposal entry.term entry.index current_term q in
    let (proposals, q₂, told') = collect current_term entries q₁ in
    (elim found [ none ↦ proposals | some p ↦ p ∷ proposals ], q₂, told ++ told')

-- An empty queue is not searched at all.
unfoldable pub find_proposals :
    ℕ → List Entry → ProposalQueue → List Proposal × ProposalQueue × Replies
unfolding collect is_empty
find_proposals current_term entries q =
    if not (is_empty q) then collect current_term entries q else ([], q, [])

unfoldable pub entries_size : (Entry → ℕ) → List Entry → ℕ
entries_size size [] = 0
entries_size size (e ∷ es) = size e + entries_size size es

module _ {N : Type 0} (raw : RawNode N) (size : Entry → ℕ)
    (gs_term : ℕ → Outcome StorageError ℕ) where
  abbrev pub Created : Type 0
  Created = Outcome StorageError (ApplyData × Replies) × RaftGroup N

  -- The term is read before the queue is searched.
  unfoldable pub create_apply : ℕ → List Entry → RaftGroup N → Created
  unfolding find_proposals entries_size
  create_apply replica_id entries g =
      let commit_index = min (raw.committed g.raft_group) (raw.persisted g.raft_group) in
      elim (gs_term commit_index) [
        | panic ↦ (panic, g)
        | err e ↦ (err e, g)
        | ok commit_term ↦
            let current_term = raw.term g.raft_group in
            let (proposals, queue, told) = find_proposals current_term entries g.proposals in
            (
              ok (
                record {
                  replica_id = replica_id;
                  group_id = g.group_id;
                  term = current_term;
                  commit_index = commit_index;
                  commit_term = commit_term;
                  entries = entries;
                  entries_size = entries_size size entries;
                  proposals = proposals;
                },
                told,
              ),
              record g { proposals = queue },
            )
      ]

  -- What the last committed entry does to the group's own commit state.
  unfoldable pub note_commit : Entry → RaftGroup N → RaftGroup N
  unfolding set_commit_index set_commit_term
  note_commit l g =
      let known = not (g.leader.replica_id == 0) in
      record g {
        shared_state = set_commit_term l.term (set_commit_index l.index g.shared_state);
        commit_term = if not (g.commit_term == l.term) && known then l.term else g.commit_term;
        commit_index = if not (g.commit_index == l.index) && known then l.index else g.commit_index;
      }

  -- No entry at all is an index out of bounds.
  unfoldable pub handle_can_apply_entries : ℕ → List Entry → RaftGroup N → Created
  unfolding note_commit create_apply
  handle_can_apply_entries replica_id entries g = elim (last entries) [
    | none ↦ (panic, g)
    | some l ↦ create_apply replica_id entries (note_commit l g)
  ]
