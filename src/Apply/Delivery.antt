-- ===== src/Apply/Delivery.antt =====
-- Each committed entry reaches the state machine once, in order, with the sender of its proposal.
use oceanraft.Common.{
  ℕ, ◌≤◌, ◌<◌, ◌≡◌, ◌⊎◌, refl, true, false, ◌||◌, List, [], ◌∷◌, ◌++◌, map, append-nil,
  append_assoc, Option, none, some, ltb, if◌then◌else◌, All, last, ok, panic, arith,
}
use oceanraft.Types.{Entry, EntryType, entry_normal}
use oceanraft.Types.Reply.{Sender}
use oceanraft.Proposal.Queue.{Proposal}
use oceanraft.Group.State.{new as default_state}
use oceanraft.Apply.Batch.{ApplyData}
use oceanraft.Apply.Rsm.{Apply, no_op, normal, membership}
use oceanraft.Apply.Pending.{
  PendingSender, PendingSenderQueue, is_later, push_pending_proposals, push_normal,
}
use oceanraft.Apply.Delegate.{
  LocalApplyState, Codec, is_nil, handle_normal, handle_by, handle_entries, handle_apply,
}

-- What an apply says of its entry: its index, its term, and whom to answer.
pub record Ticket : Type 0 where
  pub index : ℕ
  pub term : ℕ
  pub tx : Option Sender

pub ticket : {W : Type 0} → Apply W → Ticket
ticket (no_op a) = record { index = a.index; term = a.term; tx = none }
ticket (normal a) = record { index = a.index; term = a.term; tx = a.tx }
ticket (membership a) = record { index = a.index; term = a.term; tx = a.tx }

-- The queue is empty, or its front is past the entry.
abbrev pub Waits : Entry → List PendingSender → Type 0
Waits e [] = Unit
Waits e (p ∷ ps) = is_later p e.term e.index ≡ true

module _ {W : Type 0} (codec : Codec W) where
  -- The senders stand in the order of the entries that they belong to; an entry of another leader,
  -- or an empty one, has none. The tickets are the entries' own.
  pub data Served : List Entry → List PendingSender → List Ticket → Type 0 where
    done : Served [] [] []
    own :
        (e : Entry) (p : PendingSender) (w : W) {es : List Entry} {ps : List PendingSender}
        {ts : List Ticket}
        → e.entry_type ≡ entry_normal
        → is_nil e.payload ≡ false
        → codec.decode_request e.payload ≡ ok w
        → p.term ≡ e.term
        → p.index ≡ e.index
        → Served es ps ts
        → Served (e ∷ es) (p ∷ ps) (record { index = e.index; term = e.term; tx = p.tx } ∷ ts)
    foreign :
        (e : Entry) (w : W) {es : List Entry} {ps : List PendingSender} {ts : List Ticket}
        → e.entry_type ≡ entry_normal
        → is_nil e.payload ≡ false
        → codec.decode_request e.payload ≡ ok w
        → Waits e ps
        → Served es ps ts
        → Served (e ∷ es) ps (record { index = e.index; term = e.term; tx = none } ∷ ts)
    blank :
        (e : Entry) {es : List Entry} {ps : List PendingSender} {ts : List Ticket}
        → e.entry_type ≡ entry_normal
        → is_nil e.payload ≡ true
        → Waits e ps
        → Served es ps ts
        → Served (e ∷ es) ps (record { index = e.index; term = e.term; tx = none } ∷ ts)

  handle_normal-own :
      (g : ℕ) (e : Entry) (p : PendingSender) (w : W) (ps : List PendingSender)
      (c : Option PendingSender)
      → is_nil e.payload ≡ false
      → codec.decode_request e.payload ≡ ok w
      → p.term ≡ e.term
      → p.index ≡ e.index
      → (a : Apply W) × (handle_normal codec g e (record { normals = p ∷ ps; conf_change = c })
          ≡ ok (some a, record { normals = ps; conf_change = c }, []))
        × (ticket a ≡ record { index = e.index; term = e.term; tx = p.tx })
  unfolding handle_normal ticket
  handle_normal-own g e p w ps c full dec t i = (
    normal (record {
      group_id = g;
      index = e.index;
      term = e.term;
      request = w;
      context = if is_nil e.context then none else some e.context;
      is_conf_change = false;
      tx = p.tx;
    }),
    ground arith,
    refl,
  )

  handle_normal-foreign :
      (g : ℕ) (e : Entry) (w : W) (ps : List PendingSender) (c : Option PendingSender)
      → is_nil e.payload ≡ false
      → codec.decode_request e.payload ≡ ok w
      → Waits e ps
      → (a : Apply W) × (handle_normal codec g e (record { normals = ps; conf_change = c })
          ≡ ok (some a, record { normals = ps; conf_change = c }, []))
        × (ticket a ≡ record { index = e.index; term = e.term; tx = none })
  unfolding handle_normal ticket
  handle_normal-foreign g e w ps c full dec waits = (
    normal (record {
      group_id = g;
      index = e.index;
      term = e.term;
      request = w;
      context = if is_nil e.context then none else some e.context;
      is_conf_change = false;
      tx = none;
    }),
    handled ps waits,
    refl,
  )
    where
      handled :
          (ps : List PendingSender)
          → Waits e ps
          → handle_normal codec g e (record { normals = ps; conf_change = c })
            ≡ ok (
              some (
                  normal (record {
                    group_id = g;
                    index = e.index;
                    term = e.term;
                    request = w;
                    context = if is_nil e.context then none else some e.context;
                    is_conf_change = false;
                    tx = none;
                  })),
              record { normals = ps; conf_change = c },
              [],
            )
      handled [] h = ground arith
      handled (p ∷ ps) h = ground arith

  handle_normal-blank :
      (g : ℕ) (e : Entry) (ps : List PendingSender) (c : Option PendingSender)
      → is_nil e.payload ≡ true
      → Waits e ps
      → (a : Apply W) × (handle_normal codec g e (record { normals = ps; conf_change = c })
          ≡ ok (some a, record { normals = ps; conf_change = c }, []))
        × (ticket a ≡ record { index = e.index; term = e.term; tx = none })
  unfolding handle_normal ticket
  handle_normal-blank g e [] c empty waits =
      (no_op (record { group_id = g; index = e.index; term = e.term }), ground arith, refl)
  handle_normal-blank g e (p ∷ ps) c empty waits =
      (no_op (record { group_id = g; index = e.index; term = e.term }), ground arith, refl)

  handle_by-normal :
      (g : ℕ) (t : EntryType) (e : Entry) (q : PendingSenderQueue)
      → t ≡ entry_normal
      → handle_by codec t g e q ≡ handle_normal codec g e q
  unfolding handle_by
  handle_by-normal g t e q h = rw h refl

  handle_entries-Served :
      (g : ℕ) {es : List Entry} {ps : List PendingSender} {ts : List Ticket}
      (c : Option PendingSender)
      → Served es ps ts
      → (applys : List (Apply W)) × (handle_entries codec g es
            (record { normals = ps; conf_change = c })
          ≡ ok (applys, record { normals = []; conf_change = c }, []))
        × (map ticket applys ≡ ts)
  unfolding handle_entries
  handle_entries-Served g c done = ([], refl, refl)
  handle_entries-Served g c (own e p w {ps = ps} kind full dec t i rest) =
      let (a, one, here) = handle_normal-own g e p w ps c full dec t i in
      let (applys, others, there) = handle_entries-Served g c rest in
      (
        a ∷ applys,
        rw
            (
              handle_by-normal g e.entry_type e (record { normals = p ∷ ps; conf_change = c }) kind,
              one,
              others,
            )
            refl,
        cc (here, there),
      )
  handle_entries-Served g c (foreign e w {ps = ps} kind full dec waits rest) =
      let (a, one, here) = handle_normal-foreign g e w ps c full dec waits in
      let (applys, others, there) = handle_entries-Served g c rest in
      (
        a ∷ applys,
        rw
            (
              handle_by-normal g e.entry_type e (record { normals = ps; conf_change = c }) kind,
              one,
              others,
            )
            refl,
        cc (here, there),
      )
  handle_entries-Served g c (blank e {ps = ps} kind empty waits rest) =
      let (a, one, here) = handle_normal-blank g e ps c empty waits in
      let (applys, others, there) = handle_entries-Served g c rest in
      (
        a ∷ applys,
        rw
            (
              handle_by-normal g e.entry_type e (record { normals = ps; conf_change = c }) kind,
              one,
              others,
            )
            refl,
        cc (here, there),
      )

-- The senders of normal proposals.
abbrev pub senders : List Proposal → List PendingSender
senders = map λ p. record { index = p.index; term = p.term; tx = p.tx }

push_pending_proposals-normal :
    (ps : List Proposal) (q : PendingSenderQueue)
    → All (λ p. p.is_conf_change ≡ false) ps
    → push_pending_proposals ps q ≡ (record q { normals = q.normals ++ senders ps }, [])
unfolding push_pending_proposals push_normal
push_pending_proposals-normal [] q h = rw append-nil refl
push_pending_proposals-normal (p ∷ ps) q h =
    let s : PendingSender = record { index = p.index; term = p.term; tx = p.tx } in
    rw (h.0, push_pending_proposals-normal ps (push_normal s q) h.1)
      (rw (append_assoc q.normals (s ∷ []) (senders ps)) refl)

module _ {W : Type 0} (codec : Codec W) where
  -- When the applied state is not past the commit state, no normal sender waits, and the proposals
  -- of an apply, none of them a membership change, belong, in order, to its entries, which are all
  -- normal and have payloads that can be read, the state machine is called once, for the apply's
  -- group and replica, with one apply for each entry in log order, each with the sender of the
  -- entry's own proposal; no client is answered meanwhile, no sender is left over, and the last
  -- entry becomes the applied state.
  pub handle_apply_lem :
      (a : ApplyData) (l : Entry) (ts : List Ticket) (q : PendingSenderQueue)
      (state : LocalApplyState)
      → last a.entries ≡ some l
      → state.applied_index ≤ a.commit_index
      → state.applied_term ≤ a.commit_term
      → q.normals ≡ []
      → All (λ p. p.is_conf_change ≡ false) a.proposals
      → Served codec a.entries (senders a.proposals) ts
      → (applys : List (Apply W)) × (handle_apply codec a q state
          ≡ ok (record {
            senders = record q { normals = [] };
            state = record { applied_index = l.index; applied_term = l.term };
            calls =
                record {
                  group_id = a.group_id;
                  replica_id = a.replica_id;
                  group_state = default_state;
                  applys = applys;
                }
                ∷ [];
            replies = [];
          }))
        × (map ticket applys ≡ ts)
  unfolding handle_apply
  handle_apply_lem a l ts q state end ci ct idle normals served =
      let (applys, ran, tickets) = handle_entries-Served codec a.group_id q.conf_change served in
      let pushed : push_pending_proposals a.proposals q
          ≡ (record { normals = senders a.proposals; conf_change = q.conf_change }, []) =
        rw (push_pending_proposals-normal a.proposals q normals, idle) refl in
      let fresh : ltb a.commit_index state.applied_index || ltb a.commit_term state.applied_term
          ≡ false =
        ground arith in
      (applys, rw (fresh, end, pushed, ran) refl, tickets)

  -- The state machine may not fall back: an apply whose commit index or commit term is behind what
  -- is applied is a panic, and nothing is called.
  pub handle_apply_backward :
      (a : ApplyData) (q : PendingSenderQueue) (state : LocalApplyState)
      → (a.commit_index < state.applied_index) ⊎ (a.commit_term < state.applied_term)
      → handle_apply codec a q state ≡ panic
  unfolding handle_apply
  handle_apply_backward a q state h = ground arith
