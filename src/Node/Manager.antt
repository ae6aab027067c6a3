-- ===== src/Node/Manager.antt =====
-- oceanraft/src/node.rs, `NodeManager`: the nodes that a node talks to, and for which groups.
use oceanraft.Common.{
  ℕ, Bool, [], Option, none, some, ◌==◌, if◌then◌else◌, Map, lookup, insert, contains_key, remove,
  Outcome, ok, panic,
}
use oceanraft.Types.Errors.{Error}

pub record Node : Type 0 where
  pub node_id : ℕ
  pub group_map : Map (Unit {0})

abbrev pub NodeManager : Type 0
NodeManager = Map Node

unfoldable pub contains_node : ℕ → NodeManager → Bool
contains_node node_id m = contains_key node_id m

unfoldable pub get_node : ℕ → NodeManager → Option Node
get_node node_id m = lookup node_id m

abbrev pub fresh_node : ℕ → Node
fresh_node node_id = record { node_id = node_id; group_map = [] }

unfoldable pub add_node : ℕ → NodeManager → NodeManager
add_node node_id m = elim (lookup node_id m) [
  | none ↦ insert node_id (fresh_node node_id) m
  | some _ ↦ m
]

abbrev pub join_group : ℕ → Node → Node
join_group group_id node = record node { group_map = insert group_id tt node.group_map }

-- The group 0 is refused by an assertion.
unfoldable pub add_group : ℕ → ℕ → NodeManager → Outcome Error NodeManager
add_group node_id group_id m =
    if group_id == 0
    then panic
    else ok (
        insert node_id
          (join_group group_id
            (elim (lookup node_id m) [ none ↦ fresh_node node_id | some node ↦ node ]))
          m)

unfoldable pub remove_group : ℕ → ℕ → NodeManager → NodeManager
remove_group node_id group_id m = elim (lookup node_id m) [
  | none ↦ m
  | some node ↦ insert node_id (record node { group_map = remove group_id node.group_map }) m
]
