-- ===== src/Node/Fanout.antt =====
-- oceanraft/src/node_heartbeats.rs: a heartbeat of another node, handed on to the groups that the
-- two nodes share. The transport is a parameter.
use oceanraft.Common.{
  ℕ, Bool, true, false, not, ◌||◌, [], ◌∷◌, Option, none, some, ◌==◌, if◌then◌else◌, Map, lookup,
  insert, Outcome, ok, err, panic, ◌>>=◌,
}
use oceanraft.Types.{ReplicaDesc}
use oceanraft.Types.Errors.{Error}
use oceanraft.Types.Message.{Message, MultiRaftMessage, msg_heartbeat, msg_heartbeat_response}
use oceanraft.Node.Manager.{get_node, add_node}
use oceanraft.Node.Membership.{Worker}
use oceanraft.Node.Heartbeats.{plain}
use oceanraft.Replica.Store.{MultiRaftStorage}
use oceanraft.Replica.Cache.{Call, replica_for_node}
use oceanraft.Group.State.{StateRole, pre_candidate, candidate}
use oceanraft.Group.Raft.{RawNode, RaftGroup}
use oceanraft.Group.Propose.{is_leader, term}

-- `is_candidate() || is_pre_candidate()`
abbrev pub campaigns : StateRole → Bool
campaigns candidate = true
campaigns pre_candidate = true
campaigns r = false

module _ {S N : Type 0} (raw : RawNode N) (st : MultiRaftStorage S) where
  -- The heartbeat that the group's own raft node steps.
  unfoldable pub step_msg : ℕ → ℕ → RaftGroup N → Message
  unfolding term
  step_msg from_replica to_replica g = record (plain msg_heartbeat) {
    from = from_replica;
    to = to_replica;
    term = if campaigns (raw.state g.raft_group) then term raw g else 0;
  }

  unfoldable pub step_group : ℕ → Message → RaftGroup N → Worker S N → Outcome Error (Worker S N)
  step_group group_id msg g w =
      let (result, n) = raw.step msg g.raft_group in
      let w' : Worker S N = record w {
        groups = insert group_id (record g { raft_group = n }) w.groups;
      } in
      elim result [ panic ↦ panic | err e ↦ ok w' | ok _ ↦ ok w' ]

  -- A replica that the cache and the storage do not know ends the round of the group.
  unfoldable pub with_replica :
      Call S (Option ReplicaDesc)
      → (ReplicaDesc → Worker S N → Outcome Error (Worker S N))
      → Worker S N
      → Outcome Error (Worker S N)
  with_replica (panic, cache) next w = panic
  with_replica (err e, cache) next w = ok (record w { replica_cache = cache })
  with_replica (ok none, cache) next w = ok (record w { replica_cache = cache })
  with_replica (ok (some d), cache) next w = next d (record w { replica_cache = cache })

  unfoldable pub fanout_step : ℕ → ℕ → ℕ → RaftGroup N → Worker S N → Outcome Error (Worker S N)
  unfolding with_replica step_group step_msg replica_for_node
  fanout_step from_node to_node group_id g w =
      with_replica (replica_for_node st group_id from_node w.replica_cache)
        (λ from_replica w₁.
          with_replica (replica_for_node st group_id to_node w₁.replica_cache)
            (λ to_replica w₂.
              step_group group_id (step_msg from_replica.replica_id to_replica.replica_id g) g w₂)
            w₁)
        w

  -- One group that the other node is in.
  unfoldable pub fanout_one : ℕ → ℕ → ℕ → Worker S N → Outcome Error (Worker S N)
  unfolding is_leader fanout_step
  fanout_one from_node to_node group_id w = elim (lookup group_id w.groups) [
    | none ↦ ok w
    | some g ↦
        let w₁ : Worker S N = record w { active_groups = insert group_id tt w.active_groups } in
        if not (g.leader.node_id == from_node) || from_node == w.node_id
        then ok w₁
        else if is_leader raw g
        then ok w₁
        else fanout_step from_node to_node group_id g w₁
  ]

  unfoldable pub fanout_all : ℕ → ℕ → Map (Unit {0}) → Worker S N → Outcome Error (Worker S N)
  unfolding fanout_one
  fanout_all from_node to_node [] w = ok w
  fanout_all from_node to_node ((group_id, _) ∷ groups) w = do
    w₁ ← fanout_one from_node to_node group_id w
    fanout_all from_node to_node groups w₁

  -- The response that the transport is handed, its answer, and what the node is left as; an error of
  -- the transport is what the call ends in, after all else.
  unfoldable pub fanout_heartbeat :
      (MultiRaftMessage → Outcome Error (Unit {0}))
      → MultiRaftMessage
      → Worker S N
      → Outcome Error (MultiRaftMessage × Outcome Error (Unit {0}) × Worker S N)
  unfolding fanout_all get_node add_node
  fanout_heartbeat send msg w =
      let response : MultiRaftMessage = record {
        group_id = 0;
        from_node = w.node_id;
        to_node = msg.from_node;
        replicas = [];
        msg = plain msg_heartbeat_response;
      } in
      elim (get_node msg.from_node w.node_manager) [
        | none ↦ ok (
          response,
          send response,
          record w { node_manager = add_node msg.from_node w.node_manager },
        )
        | some node ↦ do
          w' ← fanout_all msg.from_node msg.to_node node.group_map w
          ok (response, send response, w')
      ]
