-- ===== src/Node/Applied.antt =====
-- oceanraft/src/node.rs: what the apply worker reports, and what others ask of a group;
-- `RaftGroup::advance_apply` of oceanraft/src/group.rs.
use oceanraft.Common.{
  ℕ, Bool, none, some, leb, if◌then◌else◌, lookup, insert, Outcome, ok, err, panic,
}
use oceanraft.Types.Errors.{Error, RaftGroupError}
use oceanraft.Types.Reply.{Sender}
use oceanraft.Group.Raft.{RawNode, RaftGroup}
use oceanraft.Node.Membership.{Worker}

pub record ApplyResultMessage : Type 0 where
  pub group_id : ℕ
  pub applied_index : ℕ
  pub applied_term : ℕ

pub data QueryGroup : Type 0 where
  has_pending_conf : (group_id : ℕ) → Sender → QueryGroup

module _ {N : Type 0} (raw : RawNode N) where
  -- What was applied must have been committed.
  unfoldable pub advance_apply : ApplyResultMessage → RaftGroup N → Outcome Error (RaftGroup N)
  advance_apply result g =
      if leb result.applied_index g.commit_index
      then ok (record g { raft_group = raw.advance_apply_to result.applied_index g.raft_group })
      else panic

module _ {S N : Type 0} (raw : RawNode N) where
  -- A report for a group that is gone is only logged.
  unfoldable pub handle_apply_result : ApplyResultMessage → Worker S N → Outcome Error (Worker S N)
  unfolding advance_apply
  handle_apply_result result w = elim (lookup result.group_id w.groups) [
    | none ↦ ok w
    | some group ↦ elim (advance_apply raw result group) [
      | panic ↦ panic
      | err e ↦ err e
      | ok g ↦ ok (record w { groups = insert result.group_id g w.groups })
    ]
  ]

  unfoldable pub get_group : ℕ → Worker S N → Outcome Error (RaftGroup N)
  get_group group_id w = elim (lookup group_id w.groups) [
    | none ↦ err (Error.raft_group (RaftGroupError.deleted w.node_id group_id))
    | some group ↦ ok group
  ]

  -- The answer goes to the one who asks.
  unfoldable pub handle_query_group : QueryGroup → Worker S N → Sender × Outcome Error Bool
  unfolding get_group
  handle_query_group (has_pending_conf group_id tx) w = elim (get_group group_id w) [
    | panic ↦ (tx, panic)
    | err e ↦ (tx, err e)
    | ok group ↦ (tx, ok (raw.has_pending_conf group.raft_group))
  ]
