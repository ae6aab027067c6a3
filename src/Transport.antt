-- ===== src/Transport.antt =====
-- oceanraft/src/transport/mod.rs: the messages of a group, on their way to the transport. The
-- transport itself is the application's; what it is handed is part of the result, in order, and
-- its errors are only logged.
pub mod Routing
mod Tests
use oceanraft.Common.{
  ℕ, Bool, true, false, List, [], ◌∷◌, ◌++◌, Option, none, some, ◌==◌, if◌then◌else◌, Outcome, ok,
  err, panic, ◌>>=◌,
}
use oceanraft.Types.{ReplicaDesc}
use oceanraft.Types.Errors.{Error, StorageError}
use oceanraft.Types.Message.{
  MessageType, msg_heartbeat, msg_heartbeat_response, Message, MultiRaftMessage,
}
use oceanraft.Node.Manager.{NodeManager, contains_node, add_group}
use oceanraft.Replica.Store.{MultiRaftStorage}
use oceanraft.Replica.Cache.{ReplicaCache, replica_desc}

abbrev pub is_nil : List ℕ → Bool
is_nil [] = true
is_nil (x ∷ xs) = false

-- A heartbeat that confirms no read is left to the heartbeats between nodes.
unfoldable pub skip_type : MessageType → List ℕ → Bool
skip_type msg_heartbeat context = is_nil context
skip_type msg_heartbeat_response context = is_nil context
skip_type t context = false

unfoldable pub skip : Message → Bool
unfolding skip_type
skip msg = skip_type msg.msg_type msg.context

-- What sending reads and changes.
pub record Routes (S : Type 0) : Type 0 where
  pub replica_cache : ReplicaCache S
  pub node_mgr : NodeManager

abbrev pub Sent : Type 0 → Type 0
Sent S = Outcome Error (List MultiRaftMessage × Routes S)

abbrev pub wrap : ℕ → ℕ → ℕ → Message → MultiRaftMessage
wrap from_node_id to_node group_id msg = record {
  group_id = group_id;
  from_node = from_node_id;
  to_node = to_node;
  replicas = [];
  msg = msg;
}

module _ {S : Type 0} (st : MultiRaftStorage S) (from_node_id group_id : ℕ) where
  -- Once the replica is known: its node is tracked before the message is handed over.
  unfoldable pub deliver : ReplicaDesc → Message → Routes S → Sent S
  unfolding contains_node add_group
  deliver to_replica msg r =
      if to_replica.node_id == 0
      then panic
      else if contains_node to_replica.node_id r.node_mgr
      then ok (wrap from_node_id to_replica.node_id group_id msg ∷ [], r)
      else do
        node_mgr ← add_group to_replica.node_id group_id r.node_mgr
        ok (
          wrap from_node_id to_replica.node_id group_id msg ∷ [],
          record r { node_mgr = node_mgr },
        )

  unfoldable pub deliver_to :
      Outcome StorageError (Option ReplicaDesc) → Message → Routes S → Sent S
  unfolding deliver
  deliver_to panic msg r = panic
  deliver_to (err e) msg r = ok ([], r)
  deliver_to (ok none) msg r = ok ([], r)
  deliver_to (ok (some to_replica)) msg r = deliver to_replica msg r

  unfoldable pub send_message : Message → Routes S → Sent S
  unfolding deliver_to
  send_message msg r =
      let (found, cache) = replica_desc st group_id msg.to r.replica_cache in
      deliver_to found msg (record r { replica_cache = cache })

  unfoldable pub send_each : List Message → Routes S → Sent S
  unfolding skip send_message
  send_each [] r = ok ([], r)
  send_each (msg ∷ msgs) r = do
    (sent, r₁) ← if skip msg then ok ([], r) else send_message msg r
    (others, r₂) ← send_each msgs r₁
    ok (sent ++ others, r₂)

  unfoldable pub send_messages : List Message → Routes S → Sent S
  unfolding send_each
  send_messages msgs r = if from_node_id == 0 then panic else send_each msgs r
