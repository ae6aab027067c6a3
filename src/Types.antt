-- ===== src/Types.antt =====
-- The messages of oceanraft/proto/eraftpb.proto and oceanraft/proto/multiraftpb.proto that the
-- modelled code reads or builds. A `u64` is a number, `bytes` a list of numbers.
pub mod Errors
pub mod Reply
pub mod Membership
pub mod Message
use oceanraft.Common.{ℕ, ◌≡◌, Bool, true, false, ◌&&◌, List, [], ◌==◌, arith}

pub data EntryType : Type 0 where
  entry_normal entry_conf_change entry_conf_change_v2 : EntryType

pub record Entry : Type 0 where
  pub entry_type : EntryType
  pub term : ℕ
  pub index : ℕ
  pub payload : List ℕ
  pub context : List ℕ
  pub sync_log : Bool

pub record HardState : Type 0 where
  pub term : ℕ
  pub vote : ℕ
  pub commit : ℕ

pub record ConfState : Type 0 where
  pub voters : List ℕ
  pub learners : List ℕ
  pub voters_outgoing : List ℕ
  pub learners_next : List ℕ
  pub auto_leave : Bool

pub record SnapshotMetadata : Type 0 where
  pub conf_state : ConfState
  pub index : ℕ
  pub term : ℕ

pub record Snapshot : Type 0 where
  pub payload : List ℕ
  pub metadata : SnapshotMetadata

pub record ReplicaDesc : Type 0 where
  pub node_id : ℕ
  pub group_id : ℕ
  pub replica_id : ℕ

pub record GroupMetadata : Type 0 where
  pub group_id : ℕ
  pub replica_id : ℕ
  pub node_id : ℕ
  pub leader_id : ℕ
  pub create_timestamp : ℕ
  pub deleted : Bool

-- The default values of protobuf.
abbrev pub default_conf_state : ConfState
default_conf_state = record {
  voters = [];
  learners = [];
  voters_outgoing = [];
  learners_next = [];
  auto_leave = false;
}

abbrev pub default_hard_state : HardState
default_hard_state = record { term = 0; vote = 0; commit = 0 }

abbrev pub default_metadata : SnapshotMetadata
default_metadata = record { conf_state = default_conf_state; index = 0; term = 0 }

abbrev pub default_replica_desc : ReplicaDesc
default_replica_desc = record { node_id = 0; group_id = 0; replica_id = 0 }

-- The derived `==` of `ReplicaDesc`.
abbrev pub same_desc : ReplicaDesc → ReplicaDesc → Bool
same_desc a b = a.node_id == b.node_id && a.group_id == b.group_id && a.replica_id == b.replica_id

pub eq_of_same_desc : (a b : ReplicaDesc) → same_desc a b ≡ true → a ≡ b
eq_of_same_desc a b h = ground arith
