-- ===== src/Group/Track.antt =====
-- oceanraft/src/group.rs: the nodes that a group tracks, because a member of it is there.
use oceanraft.Common.{
  ℕ, suc, ◌-◌, List, [], ◌∷◌, ◌++◌, Option, none, some, ◌==◌, if◌then◌else◌, length, get_elem?,
  take, set,
}
use oceanraft.Group.Raft.{RaftGroup}

-- `iter().position(..)`
abbrev pub position : ℕ → List ℕ → Option ℕ
position n [] = none
position n (x ∷ xs) =
    if x == n then some 0 else elim (position n xs) [ none ↦ none | some i ↦ some (suc i) ]

-- `swap`, at two positions that exist.
abbrev pub swap : ℕ → ℕ → List ℕ → List ℕ
swap i j xs = elim (get_elem? xs i) [
  | none ↦ xs
  | some a ↦ elim (get_elem? xs j) [ none ↦ xs | some b ↦ set (set xs i b) j a ]
]

unfoldable pub add_node_id : ℕ → List ℕ → List ℕ
add_node_id node_id ids = elim (position node_id ids) [ none ↦ ids ++ node_id ∷ [] | some _ ↦ ids ]

unfoldable pub remove_node_id : ℕ → List ℕ → List ℕ
remove_node_id node_id ids = elim (position node_id ids) [
  | none ↦ ids
  | some idx ↦ take (length ids - 1) (swap idx (length ids - 1) ids)
]

unfoldable pub add_track_node : {N : Type 0} → ℕ → RaftGroup N → RaftGroup N
unfolding add_node_id
add_track_node node_id g = record g { node_ids = add_node_id node_id g.node_ids }

unfoldable pub remove_track_node : {N : Type 0} → ℕ → RaftGroup N → RaftGroup N
unfolding remove_node_id
remove_track_node node_id g = record g { node_ids = remove_node_id node_id g.node_ids }
