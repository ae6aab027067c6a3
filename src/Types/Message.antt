-- ===== src/Types/Message.antt =====
-- The messages between replicas and between nodes: oceanraft/proto/eraftpb.proto and
-- oceanraft/proto/multiraftpb.proto. An `int64` stands as the number that its bits spell.
use oceanraft.Common.{ℕ, Bool, List}
use oceanraft.Types.{Entry, Snapshot, ReplicaDesc}

pub data MessageType : Type 0 where
  msg_hup msg_beat msg_propose msg_append msg_append_response msg_request_vote : MessageType
  msg_request_vote_response msg_snapshot msg_heartbeat msg_heartbeat_response : MessageType
  msg_unreachable msg_snap_status msg_check_quorum msg_transfer_leader : MessageType
  msg_timeout_now msg_read_index msg_read_index_resp : MessageType
  msg_request_pre_vote msg_request_pre_vote_response : MessageType

pub record Message : Type 0 where
  pub msg_type : MessageType
  pub to : ℕ
  pub from : ℕ
  pub term : ℕ
  pub log_term : ℕ
  pub index : ℕ
  pub entries : List Entry
  pub commit : ℕ
  pub commit_term : ℕ
  pub snapshot : Snapshot
  pub request_snapshot : ℕ
  pub reject : Bool
  pub reject_hint : ℕ
  pub context : List ℕ
  pub deprecated_priority : ℕ
  pub priority : ℕ

-- The message is always set by the code that is modelled.
pub record MultiRaftMessage : Type 0 where
  pub group_id : ℕ
  pub from_node : ℕ
  pub to_node : ℕ
  pub replicas : List ReplicaDesc
  pub msg : Message
