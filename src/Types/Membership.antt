-- ===== src/Types/Membership.antt =====
-- The messages about membership changes: oceanraft/proto/eraftpb.proto,
-- oceanraft/proto/multiraftpb.proto, and their carriers in oceanraft/src/msg.rs.
use oceanraft.Common.{ℕ, List, Option}
use oceanraft.Types.{ReplicaDesc}
use oceanraft.Types.Reply.{Sender}

pub data ConfChangeTransition : Type 0 where
  auto implicit explicit : ConfChangeTransition

pub data ConfChangeType : Type 0 where
  add_node remove_node add_learner_node : ConfChangeType

pub record ConfChange : Type 0 where
  pub change_type : ConfChangeType
  pub node_id : ℕ
  pub context : List ℕ
  pub id : ℕ

pub record ConfChangeSingle : Type 0 where
  pub change_type : ConfChangeType
  pub node_id : ℕ

pub record ConfChangeV2 : Type 0 where
  pub transition : ConfChangeTransition
  pub changes : List ConfChangeSingle
  pub context : List ℕ

pub record SingleMembershipChange : Type 0 where
  pub node_id : ℕ
  pub replica_id : ℕ
  pub change_type : ConfChangeType

pub record MembershipChangeData : Type 0 where
  pub transition : ConfChangeTransition
  pub changes : List SingleMembershipChange
  pub replicas : List ReplicaDesc

pub record MembershipRequestContext : Type 0 where
  pub change_data : MembershipChangeData
  pub user_ctx : Option (List ℕ)

pub record MembershipRequest : Type 0 where
  pub group_id : ℕ
  pub term : Option ℕ
  pub context : Option (List ℕ)
  pub change_data : MembershipChangeData
  pub tx : Sender

pub record CommitMembership : Type 0 where
  pub group_id : ℕ
  pub index : ℕ
  pub term : ℕ
  pub conf_change : ConfChangeV2
  pub change_request : Option MembershipChangeData
