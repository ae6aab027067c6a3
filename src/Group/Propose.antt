-- ===== src/Group/Propose.antt =====
-- oceanraft/src/group.rs: proposals of writes and of membership changes. A callback that answers
-- the client with an error is the pair of the client and the error. `flexbuffer_serialize` is a
-- parameter.
use oceanraft.Common.{
  ℕ, ◌+◌, Bool, true, false, not, ◌&&◌, List, [], ◌∷◌, ◌++◌, map, Option, none, some, ltb, ◌==◌,
  if◌then◌else◌, Outcome, ok, err, panic, ◌>>=◌,
}
use oceanraft.Types.Errors.{Error, ProposeError, propose, RaftError, RaftGroupError}
use oceanraft.Types.Membership.{
  ConfChange, ConfChangeV2, ConfChangeTransition, MembershipChangeData, MembershipRequestContext,
  MembershipRequest, SingleMembershipChange,
}
use oceanraft.Types.Reply.{Sender, Replies, reply}
use oceanraft.Proposal.Queue.{Proposal, push, drain}
use oceanraft.Group.State.{is_leader_role}
use oceanraft.Group.Raft.{RawNode, RaftGroup, WriteRequest}

abbrev pub Callback : Type 0
Callback = Option (Sender × Error)

abbrev pub is_auto : ConfChangeTransition → Bool
is_auto ConfChangeTransition.auto = true
is_auto t = false

abbrev pub is_nil {ℓ} : {A : Type ℓ} → List A → Bool
is_nil [] = true
is_nil (x ∷ xs) = false

-- `to_cc`, for the one change of the data.
unfoldable pub to_cc : SingleMembershipChange → ConfChange
to_cc change = record {
  change_type = change.change_type;
  node_id = change.replica_id;
  context = [];
  id = 0;
}

unfoldable pub to_ccv2 :
    (MembershipRequestContext → List ℕ)
    → MembershipChangeData
    → Option (List ℕ)
    → List ℕ × ConfChangeV2
to_ccv2 serialize changes user_ctx =
    if is_auto changes.transition && is_nil changes.changes
    then ([], record { transition = ConfChangeTransition.auto; changes = []; context = [] })
    else (
      serialize (record { change_data = changes; user_ctx = user_ctx }),
      record {
        transition = changes.transition;
        changes =
            map (λ c. record { change_type = c.change_type; node_id = c.replica_id })
              changes.changes;
        context = [];
      },
    )

module _ {N : Type 0} (raw : RawNode N) where
  unfoldable pub is_leader : RaftGroup N → Bool
  is_leader g = is_leader_role (raw.state g.raft_group)

  unfoldable pub term : RaftGroup N → ℕ
  term g = raw.term g.raft_group

  unfoldable pub last_index : RaftGroup N → ℕ
  last_index g = raw.last_index g.raft_group

  unfoldable pub pre_propose_write :
      {W : Type 0} → WriteRequest W → RaftGroup N → Outcome Error (Unit {0})
  unfolding is_leader term
  pre_propose_write w g =
      if not (is_leader g)
      then err (propose (ProposeError.not_leader g.node_id g.group_id g.replica_id))
      else if not (w.term == 0) && ltb w.term (term g)
      then err (propose (ProposeError.stale w.term (term g)))
      else ok tt

  -- What follows an accepted proposal: the log must have grown, and the proposal is queued under
  -- the index and the term from before.
  unfoldable pub enqueue :
      Bool
      → Sender
      → (next_index term_before : ℕ) → RaftGroup N
      → Outcome Error (Callback × RaftGroup N)
  unfolding last_index
  enqueue is_conf_change tx next_index term_before g =
      let index = last_index g + 1 in
      if next_index == index
      then ok (
        some (
          tx,
          propose (
              ProposeError.unexpected_index g.node_id g.group_id g.replica_id next_index
                (last_index g)),
        ),
        g,
      )
      else do
        proposals ←
            push
              (record {
                index = next_index;
                term = term_before;
                is_conf_change = is_conf_change;
                tx = some tx;
              })
              g.proposals
        ok (none, record g { proposals = proposals })

  unfoldable pub settle_raft :
      Bool
      → Sender
      → (next_index term_before : ℕ) → Outcome RaftError (Unit {0}) × N
      → RaftGroup N
      → Outcome Error (Callback × RaftGroup N)
  unfolding enqueue
  settle_raft is_conf_change tx next_index term_before (result, n) g = elim result [
    | panic ↦ panic
    | err e ↦ ok (some (tx, Error.raft e), record g { raft_group = n })
    | ok _ ↦ enqueue is_conf_change tx next_index term_before (record g { raft_group = n })
  ]

  module _ {W : Type 0} (serialize : W → Outcome Error (List ℕ)) where
    unfoldable pub propose_checked :
        WriteRequest W → RaftGroup N → Outcome Error (Callback × RaftGroup N)
    unfolding settle_raft last_index term
    propose_checked w g = elim (serialize w.request) [
      | panic ↦ panic
      | err e ↦ ok (some (w.tx, e), g)
      | ok payload ↦
          settle_raft false w.tx (last_index g + 1) (term g)
            (raw.propose (elim w.context [ none ↦ [] | some ctx ↦ ctx ]) payload g.raft_group) g
    ]

    unfoldable pub propose_write :
        WriteRequest W → RaftGroup N → Outcome Error (Callback × RaftGroup N)
    unfolding pre_propose_write propose_checked
    propose_write w g = elim (pre_propose_write w g) [
      | panic ↦ panic
      | err e ↦ ok (some (w.tx, e), g)
      | ok _ ↦ propose_checked w g
    ]

  unfoldable pub pre_propose_membership : MembershipRequest → RaftGroup N → Outcome Error (Unit {0})
  unfolding is_leader term
  pre_propose_membership request g =
      if raw.has_pending_conf g.raft_group
      then err (propose (ProposeError.membership_pending g.node_id g.group_id))
      else if request.group_id == 0
      then err (Error.bad_parameter "group id must be more than 0")
      else if not (is_leader g)
      then err (propose (ProposeError.not_leader g.node_id g.group_id g.replica_id))
      else elim request.term [
        | none ↦ ok tt
        | some t ↦ if ltb t (term g) then err (propose (ProposeError.stale t (term g))) else ok tt
      ]

  module _ (serialize : MembershipRequestContext → List ℕ) where
    -- One change goes as a simple change, whose context may not be empty; any other number as a
    -- joint one.
    unfoldable pub propose_changes :
        MembershipRequest
        → List SingleMembershipChange
        → RaftGroup N
        → Outcome Error (Outcome RaftError (Unit {0}) × N)
    unfolding to_cc to_ccv2
    propose_changes request (change ∷ []) g =
        let ctx =
          serialize (record { change_data = request.change_data; user_ctx = request.context }) in
        if is_nil ctx then panic else ok (raw.propose_conf_change ctx (to_cc change) g.raft_group)
    propose_changes request changes g =
        let (ctx, cc_v2) = to_ccv2 serialize request.change_data request.context in
        ok (raw.propose_conf_change_v2 ctx cc_v2 g.raft_group)

    unfoldable pub propose_membership_change :
        MembershipRequest → RaftGroup N → Outcome Error (Callback × RaftGroup N)
    unfolding pre_propose_membership propose_changes settle_raft last_index term
    propose_membership_change request g = elim (pre_propose_membership request g) [
      | panic ↦ panic
      | err e ↦ ok (some (request.tx, e), g)
      | ok _ ↦ do
        proposed ← propose_changes request request.change_data.changes g
        settle_raft true request.tx (last_index g + 1) (term g) proposed g
    ]

-- Every queued proposal is answered that its group is deleted.
unfoldable pub deleted_replies : ℕ → ℕ → List Proposal → Replies
deleted_replies group_id replica_id [] = []
deleted_replies group_id replica_id (p ∷ ps) =
    reply p.tx (Error.raft_group (RaftGroupError.deleted group_id replica_id))
    ++ deleted_replies group_id replica_id ps

unfoldable pub remove_pending_proposals : {N : Type 0} → RaftGroup N → RaftGroup N × Replies
unfolding deleted_replies drain
remove_pending_proposals g =
    let (drained, left) = drain g.proposals in
    (record g { proposals = left }, deleted_replies g.group_id g.replica_id drained)
