-- ===== src/Node/Beats.antt =====
-- Who gets a heartbeat.
use oceanraft.Common.{ℕ, ◌≡◌, refl, Bool, false, not, ◌&&◌, ◌||◌, List, [], ◌∷◌, ◌==◌, arith}
use oceanraft.Types.Message.{MultiRaftMessage}
use oceanraft.Node.Manager.{NodeManager, contains_node}
use oceanraft.Node.Heartbeats.{merge_heartbeats}

-- A message to the node is among the messages.
abbrev pub addressed : ℕ → List MultiRaftMessage → Bool
addressed n [] = false
addressed n (m ∷ ms) = m.to_node == n || addressed n ms

-- Each round sends a heartbeat to every node that the node manager knows but the own one, and to no
-- other.
pub merge_heartbeats_lem :
    (node_id n : ℕ) (mgr : NodeManager)
    → addressed n (merge_heartbeats node_id mgr) ≡ (contains_node n mgr && not (n == node_id))
unfolding merge_heartbeats contains_node
merge_heartbeats_lem node_id n [] = refl
merge_heartbeats_lem node_id n ((k, node) ∷ mgr) =
    ground (arith, merge_heartbeats_lem node_id n mgr)
