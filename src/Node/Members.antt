-- ===== src/Node/Members.antt =====
-- What a membership change does to the nodes that a group tracks, and to its proposals.
use oceanraft.Common.{
  ℕ, ◌-◌, ◌<◌, ◌≡◌, ◌≢◌, refl, ap, ◌∙◌, inl, inr, max, true, false, [], Option, none, some, ◌==◌,
  if◌then◌else◌, lookup, insert, lookup-insert, remove, lookup-remove, Option-cases, Outcome-cases,
  ok, panic, arith,
}
use oceanraft.Types.{ReplicaDesc}
use oceanraft.Node.Manager.{Node, NodeManager, fresh_node, join_group, add_group, remove_group}
use oceanraft.Replica.Store.{MultiRaftStorage}
use oceanraft.Replica.Cache.{cache_replica_desc, remove_replica_desc}
use oceanraft.Group.Raft.{RaftGroup}
use oceanraft.Types.Errors.{Error, RaftGroupError}
use oceanraft.Group.Propose.{deleted_replies, remove_pending_proposals}
use oceanraft.Group.Deleted.{deleted_replies_lem}
use oceanraft.Proposal.Clients.{told}
use oceanraft.Group.Track.{add_track_node, remove_track_node}
use oceanraft.Group.Tracked.{count, track_node_lem}
use oceanraft.Node.Membership.{Members, desc_of, add_replica, remove_replica}

-- The node is known to be in the group.
abbrev pub joined : ℕ → ℕ → NodeManager → Option (Unit {0})
joined node_id group_id m = elim (lookup node_id m) [
  | none ↦ none
  | some node ↦ lookup group_id node.group_map
]

joined-add_group :
    (n g : ℕ) (m : NodeManager)
    → 0 < g
    → (m' : NodeManager) × (add_group n g m ≡ ok m') × (joined n g m' ≡ some tt)
unfolding add_group
joined-add_group n g m some_group =
    let e : (g == 0) ≡ false = ground arith in
    let node : Node = elim (lookup n m) [ none ↦ fresh_node n | some node ↦ node ] in
    (
      insert n (join_group g node) m,
      rw (e, add_group) refl,
      ground (arith, lookup-insert n n (join_group g node) m, lookup-insert g g tt node.group_map),
    )

joined-remove_group : (n g : ℕ) (m : NodeManager) → joined n g (remove_group n g m) ≡ none
unfolding remove_group
joined-remove_group n g m = elim (Option-cases (lookup n m)) [
  | inl unknown ↦ ground arith
  | inr (node, known) ↦ ground (
    arith,
    lookup-insert n n (record node { group_map = remove g node.group_map }) m,
    lookup-remove g g node.group_map,
  )
]

module _ {S N : Type 0} (st : MultiRaftStorage S) where
  -- Adding a replica to a group whose id is not 0 succeeds, unless the storage panics, even when it
  -- fails: the replica's node is tracked by the group and known to be in it, the nodes that the
  -- group tracked stay, and its proposals too.
  pub add_replica_lem :
      (n r : ℕ) (m : Members S N)
      → 0 < m.group.group_id
      → ((d : ReplicaDesc)
          → (cache_replica_desc st m.group.group_id d true m.replica_cache).0 ≢ panic)
      → (m' : Members S N) × (add_replica st n r m ≡ ok m')
        × ((k : ℕ)
            → count k m'.group.node_ids
              ≡ (if k == n then max 1 (count k m.group.node_ids) else count k m.group.node_ids))
        × (joined n m.group.group_id m'.node_manager ≡ some tt)
        × (m'.group.proposals ≡ m.group.proposals)
  unfolding add_replica add_track_node
  add_replica_lem n r m some_group calm =
      let g = m.group.group_id in
      let d = desc_of g n r in
      let (mgr, added, in_group) = joined-add_group n g m.node_manager some_group in
      let m' : Members S N = record {
        group = add_track_node n m.group;
        node_manager = mgr;
        replica_cache = (cache_replica_desc st g d true m.replica_cache).1;
      } in
      let run : add_replica st n r m ≡ ok m' =
        elim (Outcome-cases (cache_replica_desc st g d true m.replica_cache).0) [
          | inl (a, e) ↦ rw (added, e, add_replica) refl
          | inr (inl (x, e)) ↦ rw (added, e, add_replica) refl
          | inr (inr e) ↦ absurd (calm d e)
        ] in
      (m', run, λ k. (track_node_lem n k m.group).0, in_group, refl)

  -- The bug of a removal: whichever replica leaves the group, if the storage does not panic, every
  -- client of a proposal that waits in it is told, in order, that the group is deleted, and no
  -- proposal is left for the entries that still commit, while the node of the replica is taken off.
  pub remove_replica_drops_proposals :
      (n r : ℕ) (m : Members S N)
      → ((d : ReplicaDesc)
          → (remove_replica_desc st m.group.group_id d true m.replica_cache).0 ≢ panic)
      → (m' : Members S N) × (remove_replica st n r m
          ≡ ok (
            m',
            told
                (Error.raft_group (RaftGroupError.deleted m.group.group_id m.group.replica_id))
                m.group.proposals.queue,
          ))
        × (m'.group.proposals.queue ≡ [])
        × ((k : ℕ)
            → count k m'.group.node_ids
              ≡ (if k == n then count k m.group.node_ids - 1 else count k m.group.node_ids))
        × (joined n m.group.group_id m'.node_manager ≡ none)
  unfolding remove_replica remove_pending_proposals remove_track_node
  remove_replica_drops_proposals n r m calm =
      let g = m.group.group_id in
      let d = desc_of g n r in
      let emptied : RaftGroup N = (remove_pending_proposals m.group).0 in
      let m' : Members S N = record {
        group = remove_track_node n emptied;
        node_manager = remove_group n g m.node_manager;
        replica_cache = (remove_replica_desc st g d true m.replica_cache).1;
      } in
      let run : remove_replica st n r m
          ≡ ok (m', deleted_replies g m.group.replica_id m.group.proposals.queue) =
        elim (Outcome-cases (remove_replica_desc st g d true m.replica_cache).0) [
          | inl (a, e) ↦ rw (e, remove_replica) refl
          | inr (inl (x, e)) ↦ rw (e, remove_replica) refl
          | inr (inr e) ↦ absurd (calm d e)
        ] in
      (
        m',
        run
            ∙ ap (λ replies. ok (m', replies))
                (deleted_replies_lem g m.group.replica_id m.group.proposals.queue),
        refl,
        λ k. (track_node_lem n k emptied).1,
        joined-remove_group n g m.node_manager,
      )
