-- ===== src/Apply/Rsm.antt =====
-- oceanraft/src/rsm.rs: what the state machine of the application is called with.
use oceanraft.Common.{ℕ, Bool, List, Option}
use oceanraft.Types.{ConfState}
use oceanraft.Types.Membership.{MembershipChangeData}
use oceanraft.Types.Reply.{Sender}

pub record ApplyNoOp : Type 0 where
  pub group_id : ℕ
  pub index : ℕ
  pub term : ℕ

pub record ApplyNormal (W : Type 0) : Type 0 where
  pub group_id : ℕ
  pub index : ℕ
  pub term : ℕ
  pub request : W
  pub context : Option (List ℕ)
  pub is_conf_change : Bool
  pub tx : Option Sender

pub record ApplyMembership : Type 0 where
  pub group_id : ℕ
  pub index : ℕ
  pub term : ℕ
  pub change_data : Option MembershipChangeData
  pub ctx : Option (List ℕ)
  pub conf_state : ConfState
  pub tx : Option Sender

pub data Apply (W : Type 0) : Type 0 where
  no_op : ApplyNoOp → Apply W
  normal : ApplyNormal W → Apply W
  membership : ApplyMembership → Apply W

unfoldable pub get_index : {W : Type 0} → Apply W → ℕ
get_index (no_op a) = a.index
get_index (normal a) = a.index
get_index (membership a) = a.index

unfoldable pub get_term : {W : Type 0} → Apply W → ℕ
get_term (no_op a) = a.term
get_term (normal a) = a.term
get_term (membership a) = a.term
