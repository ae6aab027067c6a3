-- ===== src/Group/Raft.antt =====
-- oceanraft/src/group.rs, `RaftGroup`, over raft's `RawNode`, which is a library: an interface over
-- the state `N` of the raw node, with what it reports and what it is asked to do.
use oceanraft.Common.{ℕ, Bool, List, Option, Outcome}
use oceanraft.Types.{ReplicaDesc}
use oceanraft.Types.Errors.{RaftError}
use oceanraft.Types.Membership.{ConfChange, ConfChangeV2}
use oceanraft.Types.Message.{Message}
use oceanraft.Types.Reply.{Sender}
use oceanraft.Proposal.Queue.{ProposalQueue}
use oceanraft.Proposal.Reads.{ReadIndexQueue}
use oceanraft.Group.State.{StateRole, GroupState}

pub record RawNode (N : Type 0) : Type 0 where
  pub state : N → StateRole
  pub term : N → ℕ
  pub last_index : N → ℕ
  pub committed : N → ℕ
  pub persisted : N → ℕ
  pub has_pending_conf : N → Bool
  pub propose : (context payload : List ℕ) → N → Outcome RaftError (Unit {0}) × N
  pub propose_conf_change : List ℕ → ConfChange → N → Outcome RaftError (Unit {0}) × N
  pub propose_conf_change_v2 : List ℕ → ConfChangeV2 → N → Outcome RaftError (Unit {0}) × N
  pub advance_apply_to : ℕ → N → N
  pub step : Message → N → Outcome RaftError (Unit {0}) × N

pub record RaftGroup (N : Type 0) : Type 0 where
  pub node_id : ℕ
  pub group_id : ℕ
  pub replica_id : ℕ
  pub raft_group : N
  pub node_ids : List ℕ
  pub proposals : ProposalQueue
  pub leader : ReplicaDesc
  pub commit_index : ℕ
  pub commit_term : ℕ
  pub deleted : Bool
  pub read_index_queue : ReadIndexQueue
  pub shared_state : GroupState

pub record WriteRequest (W : Type 0) : Type 0 where
  pub group_id : ℕ
  pub term : ℕ
  pub request : W
  pub context : Option (List ℕ)
  pub tx : Sender
