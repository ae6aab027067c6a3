-- ===== src/Transport/Routing.antt =====
-- Which messages leave a node, and where they go.
use oceanraft.Common.{
  ℕ, ◌<◌, ◌≡◌, ◌≢◌, ◌⊎◌, refl, ◌∙◌, inl, inr, Bool, true, false, List, [], ◌∷◌, ◌++◌, map, Option,
  none, some, ◌==◌, if◌then◌else◌, All, All-append, lookup, insert, Bool-cases, Outcome, ok, err,
  panic, ◌>>=◌, arith,
}
use oceanraft.Types.{ReplicaDesc}
use oceanraft.Types.Errors.{Error, StorageError}
use oceanraft.Types.Message.{
  Message, MultiRaftMessage, MessageType, msg_heartbeat, msg_heartbeat_response,
}
use oceanraft.Node.Manager.{Node, NodeManager, fresh_node, join_group, contains_node, add_group}
use oceanraft.Replica.Store.{MultiRaftStorage}
use oceanraft.Replica.Cache.{ReplicaCache, replica_desc}
use oceanraft.Transport.{
  skip, skip_type, Routes, Sent, wrap, deliver, deliver_to, send_message, send_each, send_messages,
}

-- The messages that are not skipped.
abbrev pub individual : List Message → List Message
individual [] = []
individual (m ∷ ms) = if skip m then individual ms else m ∷ individual ms

-- A heartbeat, or the response to one.
abbrev pub IsHeartbeat : MessageType → Type 0
IsHeartbeat t = (t ≡ msg_heartbeat) ⊎ (t ≡ msg_heartbeat_response)

-- A heartbeat that goes out has a context.
goes_with_context : (m : Message) → skip m ≡ false → IsHeartbeat m.msg_type → m.context ≢ []
unfolding skip skip_type
goes_with_context m goes (inl t) empty = absurd (ground (arith, goes, t, empty))
goes_with_context m goes (inr t) empty = absurd (ground (arith, goes, t, empty))

module _ {S : Type 0} (st : MultiRaftStorage S) (from g : ℕ) where
  -- A message that may leave: no heartbeat without a context, from this node and group, to a node.
  abbrev pub MayLeave : MultiRaftMessage → Type 0
  MayLeave mm =
      (IsHeartbeat mm.msg.msg_type → mm.msg.context ≢ [])
      × (mm.from_node ≡ from)
      × (mm.group_id ≡ g)
      × (0 < mm.to_node)

  -- The replica cache answers, with a node, for every message that is not skipped.
  abbrev pub Located : (ℕ → ReplicaDesc) → ReplicaCache S → List Message → Type 0
  Located at cache = All λ m.
      (skip m ≡ true)
      ⊎ ((replica_desc st g m.to cache ≡ (ok (some (at m.to)), cache)) × (0 < (at m.to).node_id))

  add_group_ok : (n : ℕ) (m : NodeManager) → 0 < g → (m' : NodeManager) × (add_group n g m ≡ ok m')
  unfolding add_group
  add_group_ok n m some_group =
      let e : (g == 0) ≡ false = ground arith in
      let node : Node = elim (lookup n m) [ none ↦ fresh_node n | some node ↦ node ] in
      (insert n (join_group g node) m, rw (e, add_group) refl)

  deliver_lem :
      (d : ReplicaDesc) (m : Message) (r : Routes S)
      → 0 < g
      → 0 < d.node_id
      → (r' : Routes S) × (deliver st from g d m r ≡ ok (wrap from d.node_id g m ∷ [], r'))
        × (r'.replica_cache ≡ r.replica_cache)
  unfolding deliver
  deliver_lem d m r some_group some_node =
      let e : (d.node_id == 0) ≡ false = ground arith in
      let (mgr, added) = add_group_ok d.node_id r.node_mgr some_group in
      elim (Bool-cases (contains_node d.node_id r.node_mgr)) [
        | inl there ↦ (r, rw (e, there, deliver) refl, refl)
        | inr new ↦ (record r { node_mgr = mgr }, rw (e, new, added, deliver) refl, refl)
      ]

  send_each_lem :
      (at : ℕ → ReplicaDesc) (msgs : List Message) (r : Routes S)
      → 0 < g
      → Located at r.replica_cache msgs
      → (r' : Routes S) × (send_each st from g msgs r
          ≡ ok (map (λ m. wrap from (at m.to).node_id g m) (individual msgs), r'))
        × (r'.replica_cache ≡ r.replica_cache)
  unfolding send_each send_message deliver_to
  send_each_lem at [] r some_group h = (r, refl, refl)
  send_each_lem at (m ∷ msgs) r some_group h = elim (Bool-cases (skip m)) [
    | inl skipped ↦
        let (r', sent, kept) = send_each_lem at msgs r some_group h.1 in
        (r', rw (skipped, sent) refl, kept)
    | inr goes ↦ elim h.0 [
      | inl skipped ↦ absurd cc
      | inr (found, some_node) ↦
          let (r₁, out, kept₁) = deliver_lem (at m.to) m r some_group some_node in
          let (r', sent, kept) = send_each_lem at msgs r₁ some_group (rw kept₁ h.1) in
          (r', rw (goes, found, out, sent) refl, kept ∙ kept₁)
    ]
  ]

  -- From a node, for a group, when the replica cache knows the node of every message that is not
  -- skipped, sending ends without a panic and hands over exactly the messages that are not skipped,
  -- in order, each to the node of its receiver; the cache stays as it is.
  pub send_messages_lem :
      (at : ℕ → ReplicaDesc) (msgs : List Message) (r : Routes S)
      → 0 < from
      → 0 < g
      → Located at r.replica_cache msgs
      → (r' : Routes S) × (send_messages st from g msgs r
          ≡ ok (map (λ m. wrap from (at m.to).node_id g m) (individual msgs), r'))
        × (r'.replica_cache ≡ r.replica_cache)
  unfolding send_messages
  send_messages_lem at msgs r some_from some_group h =
      let e : (from == 0) ≡ false = ground arith in
      rw (e, send_messages) (send_each_lem at msgs r some_group h)

  -- What is handed over, if the call does not panic.
  abbrev pub Leaves : Sent S → Type 0
  Leaves (ok (sent, r)) = All MayLeave sent
  Leaves (err e) = Unit
  Leaves panic = Unit

  bind-Leaves :
      (o : Sent S) (f : Routes S → Sent S)
      → Leaves o
      → ((r : Routes S) → Leaves (f r))
      → Leaves (o >>= λ (sent, r₁). (f r₁ >>= λ (others, r₂). ok (sent ++ others, r₂)))
  bind-Leaves panic f h k = tt
  bind-Leaves (err e) f h k = tt
  bind-Leaves (ok (sent, r)) f h k = more (f r) (k r)
    where
      more : (o : Sent S) → Leaves o → Leaves (o >>= λ (others, r₂). ok (sent ++ others, r₂))
      more panic l = tt
      more (err e) l = tt
      more (ok (others, r₂)) l = All-append MayLeave sent others h l

  deliver-Leaves :
      (d : ReplicaDesc) (m : Message) (r : Routes S)
      → skip m ≡ false
      → Leaves (deliver st from g d m r)
  unfolding deliver
  deliver-Leaves d m r goes = elim (Bool-cases (d.node_id == 0)) [
    | inl none_known ↦ rw (none_known, deliver) tt
    | inr known ↦ elim (Bool-cases (contains_node d.node_id r.node_mgr)) [
      | inl there ↦
          rw (known, there, deliver) ((goes_with_context m goes, refl, refl, ground arith), tt)
      | inr new ↦
          rw (known, new, deliver) (tracked (add_group d.node_id g r.node_mgr) (ground arith))
    ]
  ]
    where
      tracked :
          (o : Outcome Error NodeManager)
          → 0 < d.node_id
          → Leaves (o >>= λ mgr. ok (wrap from d.node_id g m ∷ [], record r { node_mgr = mgr }))
      tracked panic some_node = tt
      tracked (err e) some_node = tt
      tracked (ok mgr) some_node = ((goes_with_context m goes, refl, refl, some_node), tt)

  deliver_to-Leaves :
      (found : Outcome StorageError (Option ReplicaDesc)) (m : Message) (r : Routes S)
      → skip m ≡ false
      → Leaves (deliver_to st from g found m r)
  unfolding deliver_to
  deliver_to-Leaves panic m r goes = tt
  deliver_to-Leaves (err e) m r goes = tt
  deliver_to-Leaves (ok none) m r goes = tt
  deliver_to-Leaves (ok (some d)) m r goes = deliver-Leaves d m r goes

  send_each-Leaves : (msgs : List Message) (r : Routes S) → Leaves (send_each st from g msgs r)
  unfolding send_each send_message
  send_each-Leaves [] r = tt
  send_each-Leaves (m ∷ msgs) r =
      bind-Leaves (if skip m then ok ([], r) else send_message st from g m r)
        (send_each st from g msgs) (first (skip m) refl) (λ r₁. send_each-Leaves msgs r₁)
    where
      first :
          (b : Bool) → skip m ≡ b → Leaves (if b then ok ([], r) else send_message st from g m r)
      first true e = tt
      first false e = deliver_to-Leaves (replica_desc st g m.to r.replica_cache).0 m _ e

  -- Whatever the cache and the storage answer, no message that leaves is a heartbeat, or the
  -- response to one, without a context; each is of the sending node and group, and is addressed to
  -- a node.
  pub send_messages-Leaves :
      (msgs : List Message) (r : Routes S) → Leaves (send_messages st from g msgs r)
  unfolding send_messages
  send_messages-Leaves msgs r = elim (Bool-cases (from == 0)) [
    | inl h ↦ rw (h, send_messages) tt
    | inr h ↦ rw (h, send_messages) (send_each-Leaves msgs r)
  ]
