-- ===== src/Node/Membership.antt =====
-- oceanraft/src/node.rs: what a committed membership change does to the group, to the nodes that
-- the node talks to and to the known replicas. Raft's part of it, and the log storage of the group,
-- are the parameters of `Commits`.
use oceanraft.Common.{
  ℕ, Bool, true, false, not, ◌&&◌, List, [], ◌∷◌, ◌++◌, Option, none, some, ◌==◌, if◌then◌else◌,
  length, Map, lookup, insert, Outcome, ok, err, panic, ◌>>=◌,
}
use oceanraft.Types.{ConfState, ReplicaDesc}
use oceanraft.Types.Errors.{Error, StorageError, storage, RaftError, RaftGroupError}
use oceanraft.Types.Membership.{
  ConfChangeType, ConfChangeV2, ConfChangeSingle, SingleMembershipChange, CommitMembership,
}
use oceanraft.Types.Reply.{Replies}
use oceanraft.Node.Manager.{NodeManager, add_group, remove_group}
use oceanraft.Replica.Store.{MultiRaftStorage}
use oceanraft.Replica.Cache.{ReplicaCache, cache_replica_desc, remove_replica_desc}
use oceanraft.Group.Raft.{RaftGroup}
use oceanraft.Group.Propose.{remove_pending_proposals}
use oceanraft.Group.Track.{add_track_node, remove_track_node}

-- What a change touches.
pub record Members (S N : Type 0) : Type 0 where
  pub group : RaftGroup N
  pub node_manager : NodeManager
  pub replica_cache : ReplicaCache S

abbrev pub desc_of : ℕ → ℕ → ℕ → ReplicaDesc
desc_of group_id node_id replica_id = record {
  group_id = group_id;
  node_id = node_id;
  replica_id = replica_id;
}

-- The parts of raft, and of the log storage of a group, that a commit calls.
pub record Commits (S N : Type 0) : Type 0 where
  pub leave_joint : ConfChangeV2 → Bool
  pub enter_joint : ConfChangeV2 → Option Bool
  pub conf_state : N → ConfState
  pub apply_conf_change : ConfChangeV2 → N → Outcome RaftError ConfState × N
  pub set_confstate : (group_id replica_id : ℕ) → ConfState → S → Outcome StorageError S

abbrev pub no_voters : List ℕ → Bool
no_voters [] = true
no_voters (v ∷ vs) = false

module _ {S N : Type 0} (st : MultiRaftStorage S) where
  -- An error of the cache is only logged.
  unfoldable pub add_replica : ℕ → ℕ → Members S N → Outcome Error (Members S N)
  unfolding add_group cache_replica_desc add_track_node
  add_replica change_node_id change_replica_id m = do
    node_manager ← add_group change_node_id m.group.group_id m.node_manager
    let (cached, replica_cache) =
        cache_replica_desc st m.group.group_id
          (desc_of m.group.group_id change_node_id change_replica_id) true m.replica_cache
    elim cached [
      | panic ↦ panic
      | err e ↦ ok (record {
        group = add_track_node change_node_id m.group;
        node_manager = node_manager;
        replica_cache = replica_cache;
      })
      | ok _ ↦ ok (record {
        group = add_track_node change_node_id m.group;
        node_manager = node_manager;
        replica_cache = replica_cache;
      })
    ]

  -- The proposals that wait are answered as if the whole group were deleted.
  unfoldable pub remove_replica : ℕ → ℕ → Members S N → Outcome Error (Members S N × Replies)
  unfolding remove_pending_proposals remove_track_node remove_group remove_replica_desc
  remove_replica changed_node_id changed_replica_id m =
      let (group, told) = remove_pending_proposals m.group in
      let (removed, replica_cache) =
        remove_replica_desc st m.group.group_id
          (desc_of m.group.group_id changed_node_id changed_replica_id) true m.replica_cache in
      let after : Members S N = record {
        group = remove_track_node changed_node_id group;
        node_manager = remove_group changed_node_id m.group.group_id m.node_manager;
        replica_cache = replica_cache;
      } in
      elim removed [ panic ↦ panic | err e ↦ ok (after, told) | ok _ ↦ ok (after, told) ]

  unfoldable pub apply_change :
      ConfChangeType → SingleMembershipChange → Members S N → Outcome Error (Members S N × Replies)
  unfolding add_replica remove_replica
  apply_change ConfChangeType.add_node c m = do
    m' ← add_replica c.node_id c.replica_id m
    ok (m', [])
  apply_change ConfChangeType.remove_node c m = remove_replica c.node_id c.replica_id m
  apply_change ConfChangeType.add_learner_node c m = panic

  -- The loop over both lists, side by side.
  unfoldable pub apply_changes :
      List ConfChangeSingle
      → List SingleMembershipChange
      → Members S N
      → Outcome Error (Members S N × Replies)
  unfolding apply_change
  apply_changes [] changes m = ok (m, [])
  apply_changes (cc ∷ ccs) [] m = ok (m, [])
  apply_changes (cc ∷ ccs) (c ∷ cs) m = do
    (m₁, told) ← apply_change cc.change_type c m
    (m₂, told') ← apply_changes ccs cs m₁
    ok (m₂, told ++ told')

-- The state of a node that a commit reads and changes.
pub record Worker (S N : Type 0) : Type 0 where
  pub node_id : ℕ
  pub groups : Map (RaftGroup N)
  pub active_groups : Map (Unit {0})
  pub node_manager : NodeManager
  pub replica_cache : ReplicaCache S

module _ {S N : Type 0} (st : MultiRaftStorage S) (raft : Commits S N) where
  abbrev pub Committed : Type 0
  Committed = Outcome Error ConfState × Worker S N × Replies

  abbrev pub put_group : RaftGroup N → Worker S N → Worker S N
  put_group g w = record w { groups = insert g.group_id g w.groups }

  unfoldable pub store_conf_state :
      ConfState → RaftGroup N → Worker S N → Outcome Error ConfState × Worker S N
  store_conf_state cs g w =
      elim (raft.set_confstate g.group_id g.replica_id cs w.replica_cache.storage) [
        | panic ↦ (panic, w)
        | err e ↦ (err (storage e), w)
        | ok s ↦ (ok cs, record w { replica_cache = record w.replica_cache { storage = s } })
      ]

  unfoldable pub apply_conf_change :
      CommitMembership → Worker S N → Outcome Error ConfState × Worker S N
  unfolding store_conf_state
  apply_conf_change view w = elim (lookup view.group_id w.groups) [
    | none ↦ (err (Error.raft_group (RaftGroupError.deleted w.node_id view.group_id)), w)
    | some g ↦
        let (applied, n) = raft.apply_conf_change view.conf_change g.raft_group in
        let g' : RaftGroup N = record g { raft_group = n } in
        elim applied [
          | panic ↦ (panic, w)
          | err e ↦ (err (Error.raft e), put_group g' w)
          | ok cs ↦ store_conf_state cs g' (put_group g' w)
        ]
  ]

  -- A joint change that raft has entered already is not applied again.
  unfoldable pub skips_joint : CommitMembership → RaftGroup N → Bool
  skips_joint view g =
      not (raft.leave_joint view.conf_change)
      && elim (raft.enter_joint view.conf_change) [ none ↦ false | some _ ↦ true ]
      && not (no_voters (raft.conf_state g.raft_group).voters_outgoing)

  unfoldable pub commit_changes :
      CommitMembership → List SingleMembershipChange → RaftGroup N → Worker S N → Committed
  unfolding apply_changes skips_joint apply_conf_change
  commit_changes view changes g w =
      elim (apply_changes st view.conf_change.changes changes
        (record { group = g; node_manager = w.node_manager; replica_cache = w.replica_cache })) [
          | panic ↦ (panic, w, [])
          | err e ↦ (err e, w, [])
          | ok (m, told) ↦
              let w' : Worker S N =
                put_group m.group
                  (record w { node_manager = m.node_manager; replica_cache = m.replica_cache }) in
              if skips_joint view m.group
              then (ok (raft.conf_state m.group.raft_group), w', told)
              else (let (result, w'') = apply_conf_change view w' in (result, w'', told))
        ]

  -- Without the request's changes, only leaving a joint configuration is possible.
  unfoldable pub commit_membership_change : CommitMembership → Worker S N → Committed
  unfolding apply_conf_change commit_changes
  commit_membership_change view w = elim view.change_request [
    | none ↦
        if raft.leave_joint view.conf_change
        then (let (result, w') = apply_conf_change view w in (result, w', []))
        else (panic, w, [])
    | some request ↦
        if length request.changes == length view.conf_change.changes
        then (elim (lookup view.group_id w.groups) [
          | none ↦ (err (Error.raft_group (RaftGroupError.deleted w.node_id view.group_id)), w, [])
          | some g ↦ commit_changes view request.changes g w
        ])
        else (panic, w, [])
  ]
