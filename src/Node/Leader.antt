-- ===== src/Node/Leader.antt =====
-- oceanraft/src/group.rs: what a group makes of a new leader that raft reports.
use oceanraft.Common.{
  ℕ, not, ◌&&◌, List, [], ◌∷◌, ◌++◌, Option, none, some, ◌==◌, if◌then◌else◌, Outcome, ok, err,
  panic,
}
use oceanraft.Types.{ReplicaDesc}
use oceanraft.Types.Errors.{Error}
use oceanraft.Group.State.{StateRole, set_leader_id, set_role}
use oceanraft.Group.Raft.{RaftGroup}
use oceanraft.Replica.Store.{MultiRaftStorage}
use oceanraft.Replica.Cache.{ReplicaCache, replica_desc}
use oceanraft.Node.State.{Event, leader_election}
use oceanraft.Node.Lifecycle.{Starts}

-- Raft's `SoftState`.
pub record SoftState : Type 0 where
  pub leader_id : ℕ
  pub raft_state : StateRole

-- What a change of the leader reads and writes; the storage is the one of the cache.
pub record Observer (S N : Type 0) : Type 0 where
  pub group : RaftGroup N
  pub replica_cache : ReplicaCache S
  pub events : List Event

-- A leader whose node is not known is at node 0.
unfoldable pub leader_desc : (group_id leader_id : ℕ) → Option ReplicaDesc → ReplicaDesc
leader_desc group_id leader_id none = record {
  group_id = group_id;
  node_id = 0;
  replica_id = leader_id;
}
leader_desc group_id leader_id (some desc) = desc

module _ {L S N : Type 0} (starts : Starts L S N) where
  -- Every error of the storage is a panic here, and missing metadata too.
  unfoldable pub save_leader : (group_id replica_id leader_id : ℕ) → S → Outcome Error S
  save_leader group_id replica_id leader_id s =
      elim (starts.get_group_metadata group_id replica_id s) [
        | panic ↦ panic
        | err e ↦ panic
        | ok none ↦ panic
        | ok (some gs_meta) ↦
            if gs_meta.leader_id == leader_id
            then ok s
            else (elim (starts.set_group_metadata (record gs_meta { leader_id = leader_id }) s) [
              | panic ↦ panic
              | err e ↦ panic
              | ok s' ↦ ok s'
            ])
      ]

module _ {S N : Type 0} where
  unfoldable pub take_leader : SoftState → ReplicaDesc → S → Observer S N → Observer S N
  unfolding set_leader_id set_role
  take_leader ss desc s w = record {
    group = record w.group {
      shared_state = set_role ss.raft_state (set_leader_id ss.leader_id w.group.shared_state);
      leader = desc;
    };
    replica_cache = record w.replica_cache { storage = s };
    events = w.events ++ leader_election w.group.group_id desc.replica_id ss.leader_id ∷ [];
  }

module _ {L S N : Type 0} (st : MultiRaftStorage S) (starts : Starts L S N) where
  -- A leader that cannot be looked up is only logged.
  unfoldable pub handle_leader_change : SoftState → Observer S N → Outcome Error (Observer S N)
  unfolding replica_desc leader_desc save_leader take_leader
  handle_leader_change ss w =
      let (found, c) = replica_desc st w.group.group_id ss.leader_id w.replica_cache in
      let w' : Observer S N = record w { replica_cache = c } in
      elim found [
        | panic ↦ panic
        | err e ↦ ok w'
        | ok desc ↦
            elim (save_leader starts w.group.group_id w.group.replica_id ss.leader_id c.storage) [
              | panic ↦ panic
              | err e ↦ panic
              | ok s ↦ ok (take_leader ss (leader_desc w.group.group_id ss.leader_id desc) s w')
            ]
      ]

  unfoldable pub handle_soft_state_change : SoftState → Observer S N → Outcome Error (Observer S N)
  unfolding handle_leader_change
  handle_soft_state_change ss w =
      if not (ss.leader_id == 0) && not (ss.leader_id == w.group.leader.replica_id)
      then handle_leader_change ss w
      else ok w
