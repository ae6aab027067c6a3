-- ===== src/Group/Deleted.antt =====
-- Whom a group answers when it drops its proposals.
use oceanraft.Common.{ℕ, ◌≡◌, refl, ap, List, [], ◌∷◌, Option-cases, inl, inr}
use oceanraft.Types.Errors.{Error, RaftGroupError}
use oceanraft.Proposal.Queue.{Proposal}
use oceanraft.Proposal.Clients.{told}
use oceanraft.Group.Propose.{deleted_replies}

pub deleted_replies_lem :
    (a b : ℕ) (ps : List Proposal)
    → deleted_replies a b ps ≡ told (Error.raft_group (RaftGroupError.deleted a b)) ps
unfolding deleted_replies
deleted_replies_lem a b [] = refl
deleted_replies_lem a b (p ∷ ps) =
    let rest = deleted_replies_lem a b ps in
    elim (Option-cases p.tx) [
      | inl quiet ↦ rw (deleted_replies, quiet) rest
      | inr (tx, asks) ↦
          rw (deleted_replies, asks)
            (ap (λ rs. (tx, Error.raft_group (RaftGroupError.deleted a b)) ∷ rs) rest)
    ]
