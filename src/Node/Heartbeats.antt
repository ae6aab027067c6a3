-- ===== src/Node/Heartbeats.antt =====
-- oceanraft/src/node_heartbeats.rs: heartbeats between nodes in place of those of the groups.
use oceanraft.Common.{ℕ, false, List, [], ◌∷◌, ◌==◌, if◌then◌else◌}
use oceanraft.Types.{default_metadata}
use oceanraft.Types.Message.{msg_heartbeat, MessageType, Message, MultiRaftMessage}
use oceanraft.Node.Manager.{NodeManager}

-- `Message::default()`, with a type.
abbrev pub plain : MessageType → Message
plain kind = record {
  msg_type = kind;
  to = 0;
  from = 0;
  term = 0;
  log_term = 0;
  index = 0;
  entries = [];
  commit = 0;
  commit_term = 0;
  snapshot = record { payload = []; metadata = default_metadata };
  request_snapshot = 0;
  reject = false;
  reject_hint = 0;
  context = [];
  deprecated_priority = 0;
  priority = 0;
}

-- The group 0 marks a message of the node itself.
abbrev pub heartbeat : ℕ → ℕ → MultiRaftMessage
heartbeat from_node to_node = record {
  group_id = 0;
  from_node = from_node;
  to_node = to_node;
  replicas = [];
  msg = plain msg_heartbeat;
}

-- `merge_heartbeats`: what the transport is handed; its errors are only logged.
unfoldable pub merge_heartbeats : ℕ → NodeManager → List MultiRaftMessage
merge_heartbeats node_id [] = []
merge_heartbeats node_id ((to_node, node) ∷ nodes) =
    if to_node == node_id
    then merge_heartbeats node_id nodes
    else heartbeat node_id to_node ∷ merge_heartbeats node_id nodes
