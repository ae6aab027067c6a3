-- ===== src/Node/Requested.antt =====
-- oceanraft/src/node.rs: what requests and proposals leave of the groups of a node.
use oceanraft.Common.{
  ℕ, ◌≡◌, ◌≢◌, ◌⊎◌, refl, sym, subst, inl, inr, true, List, [], Option, none, some, ◌==◌,
  if◌then◌else◌, lookup, insert, contains_key, lookup-insert, Outcome-cases, Option-cases,
  Bool-cases, Outcome, ok, err, panic, arith,
}
use oceanraft.Types.{GroupMetadata}
use oceanraft.Types.Errors.{Error, RaftGroupError}
use oceanraft.Types.Reply.{Sender, Replies}
use oceanraft.Proposal.Queue.{drain}
use oceanraft.Group.Raft.{RawNode, RaftGroup}
use oceanraft.Group.Deleted.{deleted_replies_lem}
use oceanraft.Proposal.Clients.{told}
use oceanraft.Group.Propose.{Callback, deleted_replies, propose_write, propose_membership_change}
use oceanraft.Types.Membership.{MembershipRequestContext}
use oceanraft.Proposal.Reads.{ReadIndexContext}
use oceanraft.Node.State.{NodeWorker, put_worker, activate}
use oceanraft.Node.Lifecycle.{Starts}
use oceanraft.Node.Requests.{
  put_group, mark_deleted, remove_group_request, to_group, handle_propose, read_index_propose,
  ProposeMessage, write, membership, read_index_data,
}
use oceanraft.Replica.Store.{MultiRaftStorage}

module _ {S N : Type 0} (group_id : ℕ) (tx : Sender)
    (ask : RaftGroup N → Outcome Error (Callback × RaftGroup N)) (n : NodeWorker S N) where
  -- What is left after a group is asked, or found missing.
  abbrev pub Asked : NodeWorker S N × Outcome Error Callback → Type 0
  Asked (n', result) =
      ((lookup group_id n.worker.groups ≡ none)
        × (n' ≡ n)
        × (result
            ≡ ok (some (tx, Error.raft_group (RaftGroupError.deleted n.worker.node_id group_id)))))
      ⊎ ((g : RaftGroup N) × (lookup group_id n.worker.groups ≡ some g)
          × (contains_key group_id n'.worker.active_groups ≡ true)
          × ((j : ℕ) → j ≢ group_id → lookup j n'.worker.groups ≡ lookup j n.worker.groups)
          × (((g' : RaftGroup N) × (callback : Callback) × (ask g ≡ ok (callback, g'))
                × (result ≡ ok callback)
                × (lookup group_id n'.worker.groups ≡ some g'))
              ⊎ ((e : Error) × (ask g ≡ err e) × (result ≡ err e))
              ⊎ ((ask g ≡ panic) × (result ≡ panic))))

  to_group-Asked : Asked (to_group group_id tx ask n)
  unfolding to_group
  to_group-Asked = elim (Option-cases (lookup group_id n.worker.groups)) [
    | inl missing ↦
        let run : to_group group_id tx ask n ≡ (
          n,
          ok (some (tx, Error.raft_group (RaftGroupError.deleted n.worker.node_id group_id))),
        ) =
          rw (to_group, missing) refl in
        subst Asked (sym run) (inl (missing, refl, refl))
    | inr (g, there) ↦ elim (Outcome-cases (ask g)) [
      | inl ((callback, g'), asked) ↦
          let run : to_group group_id tx ask n
              ≡ (put_group group_id g' (activate group_id n), ok callback) =
            rw (to_group, there, asked) refl in
          subst Asked (sym run)
            (inr (g, there, active, others g', inl (g', callback, asked, refl, here g')))
      | inr (inl (e, failed)) ↦
          let run : to_group group_id tx ask n ≡ (activate group_id n, err e) =
            rw (to_group, there, failed) refl in
          subst Asked (sym run) (inr (g, there, active, λ j off. refl, inr (inl (e, failed, refl))))
      | inr (inr died) ↦
          let run : to_group group_id tx ask n ≡ (activate group_id n, panic) =
            rw (to_group, there, died) refl in
          subst Asked (sym run) (inr (g, there, active, λ j off. refl, inr (inr (died, refl))))
    ]
  ]
    where
      active : contains_key group_id (insert group_id tt n.worker.active_groups) ≡ true
      active = ground (arith, lookup-insert group_id group_id tt n.worker.active_groups)

      here : (g' : RaftGroup N) → lookup group_id (insert group_id g' n.worker.groups) ≡ some g'
      here g' = ground (arith, lookup-insert group_id group_id g' n.worker.groups)

      others :
          (g' : RaftGroup N) (j : ℕ)
          → j ≢ group_id
          → lookup j (insert group_id g' n.worker.groups) ≡ lookup j n.worker.groups
      others g' j off = ground (arith, off, lookup-insert group_id j g' n.worker.groups)

-- The group, the client and the call of a proposal.
abbrev pub group_of : {W : Type 0} → ProposeMessage W → ℕ
group_of (write request) = request.group_id
group_of (membership request) = request.group_id
group_of (read_index_data group_id context tx) = group_id

abbrev pub client_of : {W : Type 0} → ProposeMessage W → Sender
client_of (write request) = request.tx
client_of (membership request) = request.tx
client_of (read_index_data group_id context tx) = tx

module _ {N W : Type 0} (raw : RawNode N) (read_index : List ℕ → N → N)
    (serialize : W → Outcome Error (List ℕ)) (serialize_request : MembershipRequestContext → List ℕ)
    (serialize_read : ReadIndexContext → List ℕ) where
  abbrev pub asked_of : ProposeMessage W → RaftGroup N → Outcome Error (Callback × RaftGroup N)
  asked_of (write request) g = propose_write raw serialize request g
  asked_of (membership request) g = propose_membership_change raw serialize_request request g
  asked_of (read_index_data group_id context tx) g =
      read_index_propose read_index serialize_read context tx g

module _ {S N W : Type 0} (raw : RawNode N) (read_index : List ℕ → N → N)
    (serialize : W → Outcome Error (List ℕ)) (serialize_request : MembershipRequestContext → List ℕ)
    (serialize_read : ReadIndexContext → List ℕ) where
  -- Every proposal for a group that is not there is answered with the error that the group is
  -- deleted, and changes nothing. Any other makes its group active, takes over what the group makes
  -- of it, and changes no other group.
  pub handle_propose-Asked :
      (msg : ProposeMessage W) (n : NodeWorker S N)
      → Asked
          (group_of msg)
          (client_of msg)
          (asked_of raw read_index serialize serialize_request serialize_read msg)
          n
          (handle_propose raw read_index serialize serialize_request serialize_read msg n)
  unfolding handle_propose
  handle_propose-Asked (write request) n =
      to_group-Asked request.group_id request.tx (propose_write raw serialize request) n
  handle_propose-Asked (membership request) n =
      to_group-Asked request.group_id request.tx
        (propose_membership_change raw serialize_request request) n
  handle_propose-Asked (read_index_data group_id context tx) n =
      to_group-Asked group_id tx (read_index_propose read_index serialize_read context tx) n

abbrev with_storage : {S N : Type 0} → S → NodeWorker S N → NodeWorker S N
with_storage s n =
    put_worker (record n.worker { replica_cache = record n.worker.replica_cache { storage = s } }) n

-- The stored metadata of the group say that it is deleted.
abbrev pub IsMarked : {L S N : Type 0} → Starts L S N → ℕ → RaftGroup N → S → Type 0
IsMarked starts group_id g s =
    (meta : GroupMetadata) × (starts.get_group_metadata group_id g.replica_id s ≡ ok (some meta))
    × (meta.deleted ≡ true)

module _ {L S N : Type 0} (starts : Starts L S N) where
  -- What a removal of a group that is there leaves and answers.
  abbrev pub Removed :
      ℕ
      → RaftGroup N
      → NodeWorker S N
      → NodeWorker S N × Outcome Error (Unit {0}) × Replies
      → Type 0
  Removed group_id g n (n', result, replies) =
      (result ≡ ok tt)
      × (replies
          ≡ told (Error.raft_group (RaftGroupError.deleted n.worker.node_id group_id))
              g.proposals.queue)
      × ((j : ℕ)
          → lookup j n'.worker.groups ≡ (
              if group_id == j
              then some (record g { proposals = record g.proposals { queue = [] }; deleted = true })
              else lookup j n.worker.groups))
      × IsMarked starts group_id g n'.worker.replica_cache.storage

module _ {L S N : Type 0} (st : MultiRaftStorage S) (starts : Starts L S N)
    (store : (meta : GroupMetadata) (s : S)
      → (s' : S) × (starts.set_group_metadata meta s ≡ ok s')
        × (starts.get_group_metadata meta.group_id meta.replica_id s' ≡ ok (some meta))) where
  mark_deleted_lem :
      (group_id : ℕ) (g : RaftGroup N) (n : NodeWorker S N) (found : Option GroupMetadata)
      → starts.get_group_metadata group_id g.replica_id n.worker.replica_cache.storage ≡ ok found
      → ((meta : GroupMetadata)
          → found ≡ some meta
          → (meta.group_id ≡ group_id) × (meta.replica_id ≡ g.replica_id))
      → (s' : S) × (mark_deleted st starts group_id g n ≡ (with_storage s' n, ok tt))
        × IsMarked starts group_id g s'
  unfolding mark_deleted
  mark_deleted_lem group_id g n none read owns =
      let meta : GroupMetadata = record {
        group_id = group_id;
        replica_id = g.replica_id;
        node_id = n.worker.node_id;
        create_timestamp = 0;
        leader_id = g.leader.replica_id;
        deleted = true;
      } in
      let (s', set, got) = store meta n.worker.replica_cache.storage in
      (s', rw (mark_deleted, read, set) refl, (meta, got, refl))
  mark_deleted_lem group_id g n (some meta) read owns = elim (Bool-cases meta.deleted) [
    | inl t ↦ (n.worker.replica_cache.storage, rw (mark_deleted, read, t) refl, (meta, read, t))
    | inr f ↦
        let meta' : GroupMetadata = record meta { deleted = true } in
        let (s', set, got) = store meta' n.worker.replica_cache.storage in
        let own = owns meta refl in
        let right_group =
          subst (λ k. starts.get_group_metadata k meta.replica_id s' ≡ ok (some meta')) own.0 got in
        let right =
          subst (λ k. starts.get_group_metadata group_id k s' ≡ ok (some meta')) own.1
            right_group in
        (s', rw (mark_deleted, read, f, set) refl, (meta', right, refl))
  ]

  -- Where the storage keeps the metadata that it is given, and those of the group can be read and
  -- are its own, a request to remove a group is answered with a success: the clients of its
  -- proposals are told, in order, that it is deleted, and the group stays, without proposals and
  -- marked as deleted, also in the storage; the other groups stay.
  pub remove_group_request_lem :
      (n : NodeWorker S N) (group_id : ℕ) (g : RaftGroup N) (found : Option GroupMetadata)
      → lookup group_id n.worker.groups ≡ some g
      → starts.get_group_metadata group_id g.replica_id n.worker.replica_cache.storage ≡ ok found
      → ((meta : GroupMetadata)
          → found ≡ some meta
          → (meta.group_id ≡ group_id) × (meta.replica_id ≡ g.replica_id))
      → Removed starts group_id g n (remove_group_request st starts group_id n)
  unfolding remove_group_request drain
  remove_group_request_lem n group_id g found there read owns =
      let g' : RaftGroup N = record g {
        proposals = record g.proposals { queue = [] };
        deleted = true;
      } in
      let (s', marked, stored) =
        mark_deleted_lem group_id g' (put_group group_id g' n) found read owns in
      let run : remove_group_request st starts group_id n ≡ (
        with_storage s' (put_group group_id g' n),
        ok tt,
        deleted_replies n.worker.node_id group_id g.proposals.queue,
      ) =
        rw (remove_group_request, there, marked) refl in
      subst (Removed starts group_id g n) (sym run) (
        refl,
        deleted_replies_lem n.worker.node_id group_id g.proposals.queue,
        λ j. lookup-insert group_id j g' n.worker.groups,
        stored,
      )
