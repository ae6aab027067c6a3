-- ===== src/Transport/Tests.antt =====
-- Runs of oceanraft/src/transport/mod.rs over the memory storage.
use oceanraft.Common.{
  ℕ, ◌≡◌, refl, inl, inr, Bool, true, false, List, [], ◌∷◌, some, map, ok, arith,
}
use oceanraft.Types.{ReplicaDesc, default_metadata}
use oceanraft.Types.Message.{MessageType, msg_heartbeat, msg_append, Message}
use oceanraft.Replica.Memory.{MultiRaftMemoryStorage, memory}
use oceanraft.Replica.Cache.{replica_desc}
use oceanraft.Transport.{skip, Routes, wrap, send_messages}
use oceanraft.Transport.Routing.{individual, Leaves, send_messages_lem, send_messages-Leaves}

abbrev message : MessageType → ℕ → Message
message kind to = record {
  msg_type = kind;
  to = to;
  from = 1;
  term = 1;
  log_term = 0;
  index = 0;
  entries = [];
  commit = 0;
  commit_term = 0;
  snapshot = record { payload = []; metadata = default_metadata };
  request_snapshot = 0;
  reject = false;
  reject_hint = 0;
  context = [];
  deprecated_priority = 0;
  priority = 0;
}

abbrev located : ℕ → ReplicaDesc
located r = record { node_id = r; group_id = 7; replica_id = r }

abbrev storage : MultiRaftMemoryStorage Bool
storage = record {
  node_id = 1;
  trigger_storage_temp_unavailable = false;
  group_storages = [];
  group_metadatas = [];
  replicas = (7, located 2 ∷ located 3 ∷ []) ∷ [];
}

abbrev routes : Routes (MultiRaftMemoryStorage Bool)
routes = record {
  replica_cache = record { storage = storage; cache = (7, located 2 ∷ []) ∷ [] };
  node_mgr = [];
}

abbrev messages : List Message
messages = message msg_heartbeat 3 ∷ message msg_append 2 ∷ []

answered :
    replica_desc memory 7 2 routes.replica_cache ≡ (ok (some (located 2)), routes.replica_cache)
unfolding replica_desc
answered = refl

skipped : skip (message msg_heartbeat 3) ≡ true
unfolding skip
skipped = refl

send_messages_lem_example :
    (r' : Routes (MultiRaftMemoryStorage Bool)) × (send_messages memory 1 7 messages routes
      ≡ ok (map (λ m. wrap 1 m.to 7 m) (individual messages), r'))
    × (r'.replica_cache ≡ routes.replica_cache)
send_messages_lem_example =
    send_messages_lem memory 1 7 located messages routes (omega arith) (omega arith)
      (inl skipped, (inr (answered, omega arith), tt))

send_messages-Leaves_example : Leaves memory 1 7 (send_messages memory 1 7 messages routes)
send_messages-Leaves_example = send_messages-Leaves memory 1 7 messages routes
