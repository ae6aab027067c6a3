-- ===== src/Node/Readied.antt =====
-- oceanraft/src/group.rs, `RaftGroup::handle_ready`: where it ends, and what it hands on.
use oceanraft.Common.{
  ℕ, ◌≡◌, ◌⊎◌, refl, sym, ap, subst, ◌∙◌, inl, inr, true, List, [], ◌∷◌, Option, none, some, ◌==◌,
  min, last, Option-cases, Bool-cases, Outcome-cases, Outcome, ok, err, panic, map_err, arith,
}
use oceanraft.Common.Action.{and_then, ◌>>=◌, lift}
use oceanraft.Types.{ReplicaDesc, Entry}
use oceanraft.Types.Errors.{Error, StorageError, storage}
use oceanraft.Types.Message.{Message}
use oceanraft.Types.Reply.{Replies}
use oceanraft.Proposal.Reads.{ReadState, ReadIndexContext, on_reads_ready}
use oceanraft.Apply.Batch.{ApplyData}
use oceanraft.Group.Raft.{RawNode, RaftGroup}
use oceanraft.Group.Create.{handle_can_apply_entries, create_apply, note_commit}
use oceanraft.Replica.Store.{MultiRaftStorage}
use oceanraft.Replica.Cache.{ReplicaCache, replica_for_node, cache_replica_desc}
use oceanraft.Transport.{Routes, send_messages}
use oceanraft.Node.Membership.{desc_of}
use oceanraft.Node.Lifecycle.{Starts}
use oceanraft.Node.Quiet.{Any}
use oceanraft.Node.Leader.{SoftState, handle_soft_state_change}
use oceanraft.Node.Ready.{
  RaftReady, RaftGroupWriteRequest, Turn, Step, put_group, on_replicas, known_replica, take_reads,
  send_ready, take_soft_state, settle_apply, make_apply, prepare, take_ready, handle_ready,
}

module _ {S N : Type 0} where
  -- The group is as it was, and nothing was sent or answered.
  abbrev pub Untouched : Turn S N → Turn S N → Type 0
  Untouched w w' =
      (w'.observer.group ≡ w.observer.group)
      × (w'.sent ≡ w.sent)
      × (w'.answers ≡ w.answers)
      × (w'.told ≡ w.told)

  Untouched-trans : (w w' w'' : Turn S N) → Untouched w w' → Untouched w' w'' → Untouched w w''
  Untouched-trans w w' w'' h k = (k.0 ∙ h.0, k.1 ∙ h.1, k.2 ∙ h.2, k.3 ∙ h.3)

  abbrev pub After : {A : Type 0} → Turn S N → Turn S N × Outcome Error A → (A → Type 0) → Type 0
  After w (w', ok a) P = Untouched w w' × P a
  After w (w', err e) P = Untouched w w'
  After w (w', panic) P = Unit

  After-trans :
      {A : Type 0} (w w' : Turn S N) (x : Turn S N × Outcome Error A) (P : A → Type 0)
      → Untouched w w'
      → After w' x P
      → After w x P
  After-trans w w' (w'', ok a) P h k = (Untouched-trans w w' w'' h k.0, k.1)
  After-trans w w' (w'', err e) P h k = Untouched-trans w w' w'' h k
  After-trans w w' (w'', panic) P h k = tt

  and_then-After :
      {A B : Type 0} (w : Turn S N) (x : Turn S N × Outcome Error A) (f : A → Step S N B)
      (P : A → Type 0) (Q : B → Type 0)
      → After w x P
      → ((a : A) (w' : Turn S N) → P a → After w' (f a w') Q)
      → After w (and_then x f) Q
  and_then-After w (w', ok a) f P Q h k = After-trans w w' (f a w') Q h.0 (k a w' h.1)
  and_then-After w (w', err e) f P Q h k = h
  and_then-After w (w', panic) f P Q h k = tt

  cached-After :
      {A : Type 0} (w : Turn S N) (c : ReplicaCache S) (o : Outcome StorageError A)
      → After w
          (record w { observer = record w.observer { replica_cache = c } }, map_err storage o)
          Any
  cached-After w c (ok a) = ((refl, refl, refl, refl), tt)
  cached-After w c (err e) = (refl, refl, refl, refl)
  cached-After w c panic = tt

  on_replicas-After :
      {A : Type 0} (w : Turn S N) (f : ReplicaCache S → Outcome StorageError A × ReplicaCache S)
      → After w (on_replicas f w) Any
  on_replicas-After w f =
      cached-After w (f w.observer.replica_cache).1 (f w.observer.replica_cache).0

  known_replica-After :
      (st : MultiRaftStorage S) (node_id id : ℕ) (found : Option ReplicaDesc) (w : Turn S N)
      → After w (known_replica st node_id id found w) (λ desc. desc.replica_id ≡ id)
  unfolding known_replica
  known_replica-After st node_id id (some desc) w = elim (Bool-cases (desc.replica_id == id)) [
    | inl same ↦ rw (known_replica, same) ((refl, refl, refl, refl), ground (arith, same))
    | inr other ↦ rw (known_replica, other) tt
  ]
  known_replica-After st node_id id none w =
      let g = w.observer.group.group_id in
      and_then-After w (on_replicas (cache_replica_desc st g (desc_of g node_id id) true) w)
        (λ _. lift (ok (desc_of g node_id id))) Any (λ desc. desc.replica_id ≡ id)
        (on_replicas-After w (cache_replica_desc st g (desc_of g node_id id) true))
        (λ a w' h. ((refl, refl, refl, refl), refl))

  -- Where a chain of calls ends.
  abbrev pub Ends :
      {A : Type 0} → Turn S N × Outcome Error A → (A → Type 0) → (Error → Type 0) → Type 0
  Ends (w, ok a) P Q = P a
  Ends (w, err e) P Q = Q e
  Ends (w, panic) P Q = Unit

  and_then-Ends :
      {A B : Type 0} (x : Turn S N × Outcome Error A) (f : A → Step S N B) (P : A → Type 0)
      (R : B → Type 0) (Q : Error → Type 0)
      → Ends x P Q
      → ((a : A) (w : Turn S N) → P a → Ends (f a w) R Q)
      → Ends (and_then x f) R Q
  and_then-Ends (w, ok a) f P R Q h k = k a w h
  and_then-Ends (w, err e) f P R Q h k = h
  and_then-Ends (w, panic) f P R Q h k = tt

  send_ready-Ends :
      (st : MultiRaftStorage S) (node_id : ℕ) (ms : List Message) (w : Turn S N)
      (Q : Error → Type 0)
      → Ends (send_ready st node_id ms w) Any Q
  unfolding send_ready
  send_ready-Ends st node_id [] w Q = tt
  send_ready-Ends st node_id (m ∷ ms) w Q =
      let routes : Routes S = record {
        replica_cache = w.observer.replica_cache;
        node_mgr = w.node_manager;
      } in
      elim (Outcome-cases (send_messages st node_id w.observer.group.group_id (m ∷ ms) routes)) [
        | inl (a, e) ↦ rw (send_ready, e) tt
        | inr (inl (x, e)) ↦ rw (send_ready, e) tt
        | inr (inr e) ↦ rw (send_ready, e) tt
      ]

  take_reads-Ends :
      (decode : List ℕ → Option ReadIndexContext) (rs : List ReadState) (w : Turn S N)
      (Q : Error → Type 0)
      → Ends (take_reads decode rs w) Any Q
  unfolding take_reads
  take_reads-Ends decode [] w Q = tt
  take_reads-Ends decode (r ∷ rs) w Q =
      elim (Outcome-cases (on_reads_ready decode (r ∷ rs) w.observer.group.read_index_queue)) [
        | inl (none, e) ↦ rw (take_reads, e) tt
        | inl (some a, e) ↦ rw (take_reads, e) tt
        | inr (inl (x, e)) ↦ rw (take_reads, e) tt
        | inr (inr e) ↦ rw (take_reads, e) tt
      ]

-- The entries that an apply carries.
abbrev pub handed : Option ApplyData → List Entry
handed none = []
handed (some apply) = apply.entries

module _ {N : Type 0} (raw : RawNode N) (size : Entry → ℕ) (term : ℕ → Outcome StorageError ℕ) where
  abbrev Carries : List Entry → Outcome StorageError (ApplyData × Replies) × RaftGroup N → Type 0
  Carries es (ok (apply, told), g) = apply.entries ≡ es
  Carries es (err e, g) = (i : ℕ) × (term i ≡ err e)
  Carries es (panic, g) = Unit

  create_apply-Carries :
      (replica_id : ℕ) (es : List Entry) (g : RaftGroup N)
      → Carries es (create_apply raw size term replica_id es g)
  unfolding create_apply
  create_apply-Carries replica_id es g =
      let i = min (raw.committed g.raft_group) (raw.persisted g.raft_group) in
      elim (Outcome-cases (term i)) [
        | inl (t, e) ↦ rw (create_apply, e) refl
        | inr (inl (x, e)) ↦ rw (create_apply, e) (i, e)
        | inr (inr e) ↦ rw (create_apply, e) tt
      ]

  handle_can_apply_entries-Carries :
      (replica_id : ℕ) (es : List Entry) (g : RaftGroup N)
      → Carries es (handle_can_apply_entries raw size term replica_id es g)
  unfolding handle_can_apply_entries
  handle_can_apply_entries-Carries replica_id es g = elim (Option-cases (last es)) [
    | inl e ↦ rw (handle_can_apply_entries, e) tt
    | inr (l, e) ↦
        rw (handle_can_apply_entries, e)
          (create_apply-Carries replica_id es (note_commit raw size term l g))
  ]

-- The log storage has refused a term.
abbrev pub Refused : {L : Type 0} → (L → ℕ → Outcome StorageError ℕ) → Error → Type 0
Refused {L = L} log_term e =
    (log : L) × (i : ℕ) × (x : StorageError) × (log_term log i ≡ err x) × (e ≡ storage x)

-- The rest of raft's ready is handed to the write, and its committed entries to the apply.
abbrev pub Handed :
    {N : Type 0}
    → (N → ℕ)
    → (N → RaftReady × N)
    → N
    → RaftGroupWriteRequest × Option ApplyData
    → Type 0
Handed raft_id ready n (gwr, apply) =
    (gwr.replica_id ≡ raft_id n)
    × (gwr.ready ≡ some (ready n).0.rest)
    × (handed apply ≡ (ready n).0.committed_entries)

module _ {L S N : Type 0} (raft_id : N → ℕ) (ready : N → RaftReady × N)
    (log_term : L → ℕ → Outcome StorageError ℕ) where
  abbrev pub Readied :
      Turn S N → Turn S N × Outcome Error (RaftGroupWriteRequest × Option ApplyData) → Type 0
  Readied w (w', ok result) = Handed raft_id ready w.observer.group.raft_group result
  Readied w (w', err e) = Untouched w w' ⊎ Refused log_term e
  Readied w (w', panic) = Unit

module _ {L S N : Type 0} (st : MultiRaftStorage S) (starts : Starts L S N) (raw : RawNode N)
    (raft_id : N → ℕ) (ready : N → RaftReady × N) (log_term : L → ℕ → Outcome StorageError ℕ)
    (size : Entry → ℕ) (decode : List ℕ → Option ReadIndexContext) (node_id : ℕ) where
  prepare-After :
      (w : Turn S N)
      → After w
          (prepare st starts raw raft_id ready log_term size decode node_id w)
          (λ prepared. prepared.0.replica_id ≡ raft_id w.observer.group.raft_group)
  unfolding prepare
  prepare-After w =
      let g = w.observer.group.group_id in
      let id = raft_id w.observer.group.raft_group in
      let open_log : ReplicaDesc → Step S N L = λ desc. on_replicas (λ c.
        let (result, s) = starts.group_storage g desc.replica_id c.storage in
        (result, record c { storage = s })) in
      let pair : ReplicaDesc → Step S N (ReplicaDesc × L) =
        λ desc. open_log desc >>= (λ log. lift (ok (desc, log))) in
      and_then-After w (on_replicas (replica_for_node st g node_id) w)
        (λ found. known_replica st node_id id found >>= pair) Any (λ p. p.0.replica_id ≡ id)
        (on_replicas-After w (replica_for_node st g node_id))
        (λ found w₁ h.
          and_then-After w₁ (known_replica st node_id id found w₁) pair
            (λ desc. desc.replica_id ≡ id) (λ p. p.0.replica_id ≡ id)
            (known_replica-After st node_id id found w₁)
            (λ desc w₂ own.
              and_then-After w₂ (open_log desc w₂) (λ log. lift (ok (desc, log))) Any
                (λ p. p.0.replica_id ≡ id)
                (on_replicas-After w₂ (λ c.
                  let (result, s) = starts.group_storage g desc.replica_id c.storage in
                  (result, record c { storage = s })))
                (λ log w₃ k. ((refl, refl, refl, refl), own))))

  settle_apply-Ends :
      (log : L) (es : List Entry) (x : Outcome StorageError (ApplyData × Replies) × RaftGroup N)
      (w : Turn S N)
      → Carries raw size (log_term log) es x
      → Ends (settle_apply w x) (λ apply. handed apply ≡ es) (Refused log_term)
  settle_apply-Ends log es (ok (apply, told), g) w h = h
  settle_apply-Ends log es (err e, g) w h = (log, h.0, e, h.1, refl)
  settle_apply-Ends log es (panic, g) w h = tt

  make_apply-Ends :
      (log : L) (replica_id : ℕ) (es : List Entry) (w : Turn S N)
      → Ends
          (make_apply st starts raw raft_id ready log_term size decode node_id log replica_id es w)
          (λ apply. handed apply ≡ es)
          (Refused log_term)
  unfolding make_apply
  make_apply-Ends log replica_id [] w = refl
  make_apply-Ends log replica_id (e ∷ es) w =
      settle_apply-Ends log (e ∷ es)
        (handle_can_apply_entries raw size (log_term log) replica_id (e ∷ es) w.observer.group) w
        (handle_can_apply_entries-Carries raw size (log_term log) replica_id (e ∷ es)
          w.observer.group)

  take_soft_state-Ends :
      (ss : Option SoftState) (w : Turn S N) (Q : Error → Type 0)
      → Ends (take_soft_state st starts raw raft_id ready log_term size decode node_id ss w) Any Q
  unfolding take_soft_state
  take_soft_state-Ends none w Q = tt
  take_soft_state-Ends (some ss) w Q =
      elim (Outcome-cases (handle_soft_state_change st starts ss w.observer)) [
        | inl (a, e) ↦ rw (take_soft_state, e) tt
        | inr (inl (x, e)) ↦ rw (take_soft_state, e) tt
        | inr (inr e) ↦ rw (take_soft_state, e) tt
      ]

  take_ready-Ends :
      (desc : ReplicaDesc) (log : L) (w : Turn S N)
      → desc.replica_id ≡ raft_id w.observer.group.raft_group
      → Ends
          (take_ready st starts raw raft_id ready log_term size decode node_id desc log w)
          (Handed raft_id ready w.observer.group.raft_group)
          (Refused log_term)
  unfolding take_ready
  take_ready-Ends desc log w own =
      let rd = (ready w.observer.group.raft_group).0 in
      let n = (ready w.observer.group.raft_group).1 in
      let w₀ = put_group (record w.observer.group { raft_group = n }) w in
      let Done = Handed raft_id ready w.observer.group.raft_group in
      let give : Option ApplyData → Step S N (RaftGroupWriteRequest × Option ApplyData) =
        λ apply. lift (ok (record { replica_id = desc.replica_id; ready = some rd.rest }, apply)) in
      let apply =
        make_apply st starts raw raft_id ready log_term size decode node_id log desc.replica_id
          rd.committed_entries in
      let soft = take_soft_state st starts raw raft_id ready log_term size decode node_id rd.ss in
      and_then-Ends (send_ready st node_id rd.messages w₀)
        (λ _. soft >>= (λ _. take_reads decode rd.read_states >>= (λ _. apply >>= give))) Any Done
        (Refused log_term) (send_ready-Ends st node_id rd.messages w₀ (Refused log_term))
        (λ _ w₁ h.
          and_then-Ends (soft w₁) (λ _. take_reads decode rd.read_states >>= (λ _. apply >>= give))
            Any Done (Refused log_term) (take_soft_state-Ends rd.ss w₁ (Refused log_term))
            (λ _ w₂ h'.
              and_then-Ends (take_reads decode rd.read_states w₂) (λ _. apply >>= give) Any Done
                (Refused log_term) (take_reads-Ends decode rd.read_states w₂ (Refused log_term))
                (λ _ w₃ h''.
                  and_then-Ends (apply w₃) give (λ a. handed a ≡ rd.committed_entries) Done
                    (Refused log_term) (make_apply-Ends log desc.replica_id rd.committed_entries w₃)
                    (λ a w₄ carried. (own, refl, carried)))))

  settled :
      (w : Turn S N) (x : Turn S N × Outcome Error (ReplicaDesc × L))
      → After w x (λ prepared. prepared.0.replica_id ≡ raft_id w.observer.group.raft_group)
      → Readied raft_id ready log_term w (
          and_then x
            (λ p. take_ready st starts raw raft_id ready log_term size decode node_id p.0 p.1))
  settled w (w', ok (desc, log)) h =
      from-Ends w (take_ready st starts raw raft_id ready log_term size decode node_id desc log w')
        (subst
          (λ n.
            Ends (take_ready st starts raw raft_id ready log_term size decode node_id desc log w')
              (Handed raft_id ready n) (Refused log_term))
          (ap (λ g. g.raft_group) h.0.0)
          (take_ready-Ends desc log w' (h.1 ∙ ap (λ g. raft_id g.raft_group) (sym h.0.0))))
    where
      from-Ends :
          (w : Turn S N) (y : Turn S N × Outcome Error (RaftGroupWriteRequest × Option ApplyData))
          → Ends y (Handed raft_id ready w.observer.group.raft_group) (Refused log_term)
          → Readied raft_id ready log_term w y
      from-Ends w (w', ok a) k = k
      from-Ends w (w', err e) k = inr k
      from-Ends w (w', panic) k = tt
  settled w (w', err e) h = inl h
  settled w (w', panic) h = tt

  -- When the call succeeds, the write is for the replica that raft drives and gets the rest of
  -- raft's ready, and there is an apply just of the entries that raft has committed. When it fails,
  -- it leaves the group as it was, with nothing sent or answered, or the log storage has refused a
  -- term.
  pub handle_ready-Readied :
      (w : Turn S N)
      → Readied raft_id ready log_term w
          (handle_ready st starts raw raft_id ready log_term size decode node_id w)
  unfolding handle_ready
  handle_ready-Readied w =
      settled w (prepare st starts raw raft_id ready log_term size decode node_id w)
        (prepare-After w)
