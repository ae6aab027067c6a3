-- ===== src/Proposal/Serve.antt =====
-- What becomes of the queued reads: the ready ones are answered in order, the others wait.
use oceanraft.Common.{
  ℕ, suc, ◌+◌, ◌-◌, ◌<◌, ◌≡◌, ◌≢◌, refl, ap, ◌∙◌, inl, inr, List, [], ◌∷◌, ◌++◌, append-nil,
  append_assoc, Option, none, some, ◌==◌, if◌then◌else◌, get_elem?, set, length, length-append,
  get_elem?-length, set-length, get_elem?-none, Bool-cases, Option-cases, ok, arith,
}
use oceanraft.Types.Reply.{Sender}
use oceanraft.Proposal.Reads.{
  ReadState, ReadIndexContext, ReadIndexProposal, ReadIndexQueue, push_front, pop_front, mark_ready,
  answer, advance_reads, serve_ready, on_reads_ready,
}

abbrev Answers : Type 0
Answers = List (Sender × Option (List ℕ))

-- The reads that stand ready, and those that wait behind them.
pub record Parts (q : ReadIndexQueue) (ready waiting : List ReadIndexProposal) : Type 0 where
  pub queue : q.queue ≡ ready ++ waiting
  pub count : q.ready_cnt ≡ length ready

-- What the contexts that raft confirmed, in order, do to the waiting reads: the front one is taken
-- if its uuid is the context's, and a context with another uuid is passed over.
unfoldable pub confirmed :
    List (ℕ × ReadIndexContext) → List ReadIndexProposal → List ReadIndexProposal
confirmed [] ws = []
confirmed (c ∷ cs) [] = []
confirmed ((index, ctx) ∷ cs) (w ∷ ws) =
    if w.uuid == ctx.uuid
    then record w { read_index = some index; context = some ctx } ∷ confirmed cs ws
    else confirmed cs (w ∷ ws)

unfoldable pub unconfirmed :
    List (ℕ × ReadIndexContext) → List ReadIndexProposal → List ReadIndexProposal
unconfirmed [] ws = ws
unconfirmed (c ∷ cs) [] = []
unconfirmed ((index, ctx) ∷ cs) (w ∷ ws) =
    if w.uuid == ctx.uuid then unconfirmed cs ws else unconfirmed cs (w ∷ ws)

confirmed-nil : (cs : List (ℕ × ReadIndexContext)) → confirmed cs [] ≡ []
unfolding confirmed
confirmed-nil [] = refl
confirmed-nil (c ∷ cs) = refl

unconfirmed-nil : (cs : List (ℕ × ReadIndexContext)) → unconfirmed cs [] ≡ []
unfolding unconfirmed
unconfirmed-nil [] = refl
unconfirmed-nil (c ∷ cs) = refl

unfoldable pub answers : List ReadIndexProposal → Answers
answers [] = []
answers (p ∷ ps) = answer p ++ answers ps

-- What the clients of the confirmed reads are to be told, in order: each the context that it gave
-- itself, as raft confirmed it.
unfoldable pub served : List (ℕ × ReadIndexContext) → List ReadIndexProposal → Answers
served [] ws = []
served (c ∷ cs) [] = []
served ((index, ctx) ∷ cs) (w ∷ ws) =
    if w.uuid == ctx.uuid
    then (elim w.tx [ none ↦ served cs ws | some tx ↦ (tx, ctx.context) ∷ served cs ws ])
    else served cs (w ∷ ws)

answers-confirmed :
    (cs : List (ℕ × ReadIndexContext)) (ws : List ReadIndexProposal)
    → answers (confirmed cs ws) ≡ served cs ws
unfolding answers confirmed served
answers-confirmed [] ws = refl
answers-confirmed (c ∷ cs) [] = refl
answers-confirmed ((index, ctx) ∷ cs) (w ∷ ws) = elim (Bool-cases (w.uuid == ctx.uuid)) [
  | inl same ↦ elim (Option-cases w.tx) [
    | inl quiet ↦ rw (same, quiet) (answers-confirmed cs ws)
    | inr (tx, asks) ↦
        rw (same, asks) (ap (λ as'. (tx, ctx.context) ∷ as') (answers-confirmed cs ws))
  ]
  | inr other ↦ rw other (answers-confirmed cs (w ∷ ws))
]

-- The read states carry these contexts.
abbrev pub Decodes :
    (List ℕ → Option ReadIndexContext) → List ReadState → List (ℕ × ReadIndexContext) → Type 0
Decodes decode [] [] = Unit
Decodes decode [] (c ∷ cs) = ⊥
Decodes decode (rs ∷ rss) [] = ⊥
Decodes decode (rs ∷ rss) ((index, ctx) ∷ cs) =
    (rs.index ≡ index) × (decode rs.request_ctx ≡ some ctx) × Decodes decode rss cs

serve_ready-Parts :
    (q : ReadIndexQueue) (ready waiting : List ReadIndexProposal)
    → Parts q ready waiting
    → (q' : ReadIndexQueue) × (serve_ready (suc (length ready)) q ≡ ok (some (answers ready, q')))
      × Parts q' [] waiting
unfolding serve_ready answers
serve_ready-Parts q [] waiting h = (q, ground arith, h)
serve_ready-Parts q (p ∷ ready) waiting h =
    let q₁ : ReadIndexQueue = record {
      ready_cnt = q.ready_cnt - 1;
      handle_cnt = q.handle_cnt + 1;
      queue = ready ++ waiting;
    } in
    let (q', done, parts) =
      serve_ready-Parts q₁ ready waiting (record { queue = refl; count = ground arith }) in
    (q', ground (arith, done), parts)

mark_ready-Parts :
    (index : ℕ) (ctx : ReadIndexContext) (q : ReadIndexQueue) (ready : List ReadIndexProposal)
    (w : ReadIndexProposal) (ws : List ReadIndexProposal)
    → Parts q ready (w ∷ ws)
    → w.uuid ≡ ctx.uuid
    → Parts
        (mark_ready index ctx q)
        (ready ++ record w { read_index = some index; context = some ctx } ∷ [])
        ws
unfolding mark_ready
mark_ready-Parts index ctx q ready w ws h e =
    let w' = record w { read_index = some index; context = some ctx } in
    let found : get_elem? q.queue q.ready_cnt ≡ some w =
      rw (h.queue, h.count) (get_elem?-length ready w ws) in
    let written : set q.queue q.ready_cnt w' ≡ ready ++ w' ∷ ws =
      rw (h.queue, h.count) (set-length ready w w' ws) in
    record {
      queue = ground (arith, append_assoc ready (w' ∷ []) ws);
      count = ground (arith, length-append ready (w' ∷ []));
    }

-- Nothing waits, or another read does: the context is passed over.
mark_ready_none :
    (index : ℕ) (ctx : ReadIndexContext) (q : ReadIndexQueue) (ready : List ReadIndexProposal)
    → Parts q ready []
    → mark_ready index ctx q ≡ q
unfolding mark_ready
mark_ready_none index ctx q ready h =
    let gone : get_elem? q.queue q.ready_cnt ≡ none =
      rw (h.queue, h.count, append-nil) (get_elem?-none ready (length ready) (omega arith)) in
    ground arith

mark_ready_other :
    (index : ℕ) (ctx : ReadIndexContext) (q : ReadIndexQueue) (ready : List ReadIndexProposal)
    (w : ReadIndexProposal) (ws : List ReadIndexProposal)
    → Parts q ready (w ∷ ws)
    → w.uuid ≢ ctx.uuid
    → mark_ready index ctx q ≡ q
unfolding mark_ready
mark_ready_other index ctx q ready w ws h ne =
    let found : get_elem? q.queue q.ready_cnt ≡ some w =
      rw (h.queue, h.count) (get_elem?-length ready w ws) in
    ground arith

module _ (decode : List ℕ → Option ReadIndexContext) where
  advance_reads_step :
      (rs : ReadState) (rss : List ReadState) (ctx : ReadIndexContext) (q : ReadIndexQueue)
      → decode rs.request_ctx ≡ some ctx
      → advance_reads decode (rs ∷ rss) q ≡ advance_reads decode rss (mark_ready rs.index ctx q)
  unfolding advance_reads
  advance_reads_step rs rss ctx q e = rw (e, advance_reads)

  advance_reads-Parts :
      (rss : List ReadState) (cs : List (ℕ × ReadIndexContext)) (q : ReadIndexQueue)
      (ready waiting : List ReadIndexProposal)
      → Parts q ready waiting
      → Decodes decode rss cs
      → (q' : ReadIndexQueue) × (advance_reads decode rss q ≡ ok q')
        × Parts q' (ready ++ confirmed cs waiting) (unconfirmed cs waiting)
  unfolding advance_reads confirmed unconfirmed
  advance_reads-Parts [] [] q ready waiting h d = (q, refl, rw append-nil h)
  advance_reads-Parts [] (c ∷ cs) q ready waiting h d = absurd d
  advance_reads-Parts (rs ∷ rss) [] q ready waiting h d = absurd d
  advance_reads-Parts (rs ∷ rss) ((index, ctx) ∷ cs) q ready [] h d =
      let (q', run, parts) = advance_reads-Parts rss cs q ready [] h d.2 in
      (
        q',
        rw (advance_reads_step rs rss ctx q d.1, mark_ready_none rs.index ctx q ready h) run,
        rw (confirmed-nil cs, unconfirmed-nil cs) at parts,
      )
  advance_reads-Parts (rs ∷ rss) ((index, ctx) ∷ cs) q ready (w ∷ ws) h d =
      elim (Bool-cases (w.uuid == ctx.uuid)) [
        | inl same ↦
            let w' = record w { read_index = some index; context = some ctx } in
            let (q', run, parts) =
              advance_reads-Parts rss cs (mark_ready index ctx q) (ready ++ w' ∷ []) ws
                (mark_ready-Parts index ctx q ready w ws h (ground arith)) d.2 in
            (
              q',
              rw (advance_reads_step rs rss ctx q d.1, d.0) run,
              rw same (rw append_assoc at parts),
            )
        | inr other ↦
            let (q', run, parts) = advance_reads-Parts rss cs q ready (w ∷ ws) h d.2 in
            (
              q',
              rw
                  (
                    advance_reads_step rs rss ctx q d.1,
                    mark_ready_other rs.index ctx q ready w ws h (ground arith),
                  )
                  run,
              rw other parts,
            )
      ]

  -- When raft confirms reads with contexts that can all be read, and no read stands ready from
  -- before, `on_reads_ready` ends without a panic, within its rounds: in the order of the queue, the
  -- reads that the contexts name one after the other are each answered with the context that
  -- confirms it, and the others are left waiting, with none ready.
  pub on_reads_ready_lem :
      (rss : List ReadState) (cs : List (ℕ × ReadIndexContext)) (q : ReadIndexQueue)
      → q.ready_cnt ≡ 0
      → Decodes decode rss cs
      → (q' : ReadIndexQueue) × (on_reads_ready decode rss q ≡ ok (some (served cs q.queue, q')))
        × (q'.queue ≡ unconfirmed cs q.queue)
        × (q'.ready_cnt ≡ 0)
  unfolding on_reads_ready
  on_reads_ready_lem rss cs q idle d =
      let (q₁, advanced, parts) =
        advance_reads-Parts rss cs q [] q.queue (record { queue = refl; count = idle }) d in
      let (q₂, answered, left) =
        serve_ready-Parts q₁ (confirmed cs q.queue) (unconfirmed cs q.queue) parts in
      let fuel : q₁.ready_cnt + 1 ≡ suc (length (confirmed cs q.queue)) =
        omega (arith, parts.count) in
      (
        q₂,
        rw (advanced, fuel) answered ∙ ap (λ a. ok (some (a, q₂))) (answers-confirmed cs q.queue),
        left.queue,
        left.count,
      )

-- `push_front` queues at the back: after it, the read that was at the front is still the next to be
-- taken, so that the pushed one is not.
pub push_front_queues_back :
    (p front : ReadIndexProposal) (rest : List ReadIndexProposal) (q : ReadIndexQueue)
    → q.queue ≡ front ∷ rest
    → 0 < q.handle_cnt
    → (q₁ q₂ : ReadIndexQueue) × (push_front p q ≡ ok q₁)
      × (pop_front q₁ ≡ ok (some front, q₂))
      × (q₂.queue ≡ rest ++ p ∷ [])
unfolding push_front pop_front
push_front_queues_back p front rest q e h = (
  record {
    ready_cnt = q.ready_cnt + 1;
    handle_cnt = q.handle_cnt - 1;
    queue = front ∷ rest ++ p ∷ [];
  },
  record { ready_cnt = q.ready_cnt; handle_cnt = q.handle_cnt; queue = rest ++ p ∷ [] },
  ground arith,
  ground arith,
  refl,
)
