-- ===== src/Apply/Fifo/Total.antt =====
-- The batching of oceanraft/src/apply.rs as a whole.
use oceanraft.Common.{
  ℕ, ◌≡◌, inl, inr, refl, ◌∙◌, List, [], ◌∷◌, ◌++◌, append-nil, append_assoc, Option, none, some,
  ◌==◌, Map, lookup, Bool-cases, Outcome-cases, ok, ◌>>=◌, arith,
}
use oceanraft.Types.{Entry}
use oceanraft.Proposal.Queue.{Proposal}
use oceanraft.Apply.Batch.{
  ApplyData, joined, PendingApplys, pending_at, insert_pending_apply, BatchConfig, Batches,
  batch_one, batch_all, batch_messages, flush_batches, batch_msgs,
}
use oceanraft.Apply.Fifo.{
  Mark, move, start, Advance, Fits, pending_at_same, pending_at_other, Inv, content, content-append,
  content_one, open_part, flow, input, all_applys,
}
use oceanraft.Apply.Fifo.Step.{Steps, step}

module _ (r : ℕ → ℕ) {X : Type 0} (part : ApplyData → List X)
    (part-joined : (a b : ApplyData) → part (joined a b) ≡ part a ++ part b) where
  final : (ℕ → Mark) → List (ℕ × ApplyData) → ℕ → Mark
  final m [] = m
  final m ((g, a) ∷ rest) = final (move g a m) rest

  batch_all-flow :
      (m : ℕ → Mark) (cfg : BatchConfig) (applys : List (ℕ × ApplyData)) (s : Batches)
      → Inv r m cfg s
      → Advance r m applys
      → (s' : Batches) × (batch_all cfg applys s ≡ ok s')
        × Inv r (final m applys) cfg s'
        × ((g : ℕ) → flow part r g s' ≡ flow part r g s ++ input part g applys)
  unfolding batch_all input final Steps
  batch_all-flow m cfg [] s inv adv = (s, refl, inv, λ g. rw append-nil)
  batch_all-flow m cfg ((g, a) ∷ rest) s inv adv =
      let (own, grp, t, ci, ct, adv') = adv in
      let (s₁, one, inv₁, flow₁) = step r part part-joined m cfg g a s inv own grp t ci ct in
      let (s₂, others, inv₂, flow₂) = batch_all-flow (move g a m) cfg rest s₁ inv₁ adv' in
      (
        s₂,
        rw one others,
        inv₂,
        λ g'. ground (
          arith,
          flow₂ g',
          flow₁ g',
          append_assoc (flow part r g' s) (part a) (input part g' rest),
          append-nil (flow part r g' s),
        ),
      )

  -- The left-over batches go behind what is pending.
  flush-flow :
      (m : ℕ → Mark) (b : Map (Option ApplyData)) (p : PendingApplys) (g : ℕ)
      → Fits r m b
      → content part (pending_at g (r g) (flush_batches b p))
        ≡ content part (pending_at g (r g) p) ++ open_part part (lookup g b)
  unfolding flush_batches open_part
  flush-flow m [] p g f = rw append-nil
  flush-flow m ((g', none) ∷ b) p g f = ground (arith, flush-flow m b p g f.2)
  flush-flow m ((g', some a) ∷ b) p g f = elim (Bool-cases (g' == g)) [
    | inl same ↦
        let e : g' ≡ g = ground arith in
        ground (
          arith,
          f.0,
          flush-flow m b (insert_pending_apply g' a.replica_id a p) g f.2,
          pending_at_same r g' g a p f.1.0 e,
          content-append part (pending_at g (r g) p) (a ∷ []),
          content_one part a,
          append-nil (content part (pending_at g (r g) p) ++ part a),
        )
    | inr other ↦ ground (
      arith,
      flush-flow m b (insert_pending_apply g' a.replica_id a p) g f.2,
      pending_at_other r g' g a p (ground arith),
    )
  ]

  batch_all-append :
      (cfg : BatchConfig) (xs ys : List (ℕ × ApplyData)) (s : Batches)
      → batch_all cfg (xs ++ ys) s ≡ (batch_all cfg xs s >>= λ s'. batch_all cfg ys s')
  unfolding batch_all
  batch_all-append cfg [] ys s = refl
  batch_all-append cfg (x ∷ xs) ys s = elim (Outcome-cases (batch_one cfg x s)) [
    | inl (s', e) ↦ rw e (batch_all-append cfg xs ys s')
    | inr (inl (x', e)) ↦ rw e refl
    | inr (inr e) ↦ rw e refl
  ]

  batch_messages-flat :
      (cfg : BatchConfig) (msgs : List (List (ℕ × ApplyData))) (s : Batches)
      → batch_messages cfg msgs s ≡ batch_all cfg (all_applys msgs) s
  unfolding batch_messages all_applys batch_all
  batch_messages-flat cfg [] s = refl
  batch_messages-flat cfg (applys ∷ msgs) s =
      rw (batch_all-append cfg applys (all_applys msgs) s)
        (elim (Outcome-cases (batch_all cfg applys s)) [
          | inl (s', e) ↦ rw e (batch_messages-flat cfg msgs s')
          | inr (inl (x', e)) ↦ rw e refl
          | inr (inr e) ↦ rw e refl
        ])

  batch_msgs-flow :
      (cfg : BatchConfig) (msgs : List (List (ℕ × ApplyData)))
      → Advance r start (all_applys msgs)
      → (p : PendingApplys) × (batch_msgs cfg msgs ≡ ok p)
        × ((g : ℕ) → content part (pending_at g (r g) p) ≡ input part g (all_applys msgs))
  unfolding batch_msgs flow content open_part pending_at
  batch_msgs-flow cfg msgs adv =
      let s₀ : Batches = record { pending_applys = []; batch_applys = [] } in
      let (s, ran, inv, flowed) =
        batch_all-flow start cfg (all_applys msgs) s₀ (record { fits = tt; idle = inr refl }) adv in
      (
        flush_batches s.batch_applys s.pending_applys,
        rw (batch_messages-flat cfg msgs s₀, ran) refl,
        λ g.
            flush-flow (final start (all_applys msgs)) s.batch_applys s.pending_applys g inv.fits
            ∙ flowed g,
      )

-- The entries, and the proposals, of applys in a row; those that the messages bring for a group.
abbrev pub entries_of : List ApplyData → List Entry
entries_of = content (λ a. a.entries)

abbrev pub proposals_of : List ApplyData → List Proposal
proposals_of = content (λ a. a.proposals)

abbrev pub entries_for : ℕ → List (List (ℕ × ApplyData)) → List Entry
entries_for g msgs = input (λ a. a.entries) g (all_applys msgs)

abbrev pub proposals_for : ℕ → List (List (ℕ × ApplyData)) → List Proposal
proposals_for g msgs = input (λ a. a.proposals) g (all_applys msgs)

-- With any configuration, when every group has one replica on the node and no group's applys fall
-- back, batching succeeds, and what is pending for a group's replica holds the group's entries, and
-- its proposals, exactly as the messages bring them: none lost, repeated or out of order.
pub batch_msgs_fifo :
    (r : ℕ → ℕ) (cfg : BatchConfig) (msgs : List (List (ℕ × ApplyData)))
    → Advance r start (all_applys msgs)
    → (p : PendingApplys) × (batch_msgs cfg msgs ≡ ok p)
      × ((g : ℕ) → entries_of (pending_at g (r g) p) ≡ entries_for g msgs)
      × ((g : ℕ) → proposals_of (pending_at g (r g) p) ≡ proposals_for g msgs)
batch_msgs_fifo r cfg msgs adv =
    let (p, ran, es) = batch_msgs-flow r (λ a. a.entries) (λ a b. refl) cfg msgs adv in
    let (p', ran', ps) = batch_msgs-flow r (λ a. a.proposals) (λ a b. refl) cfg msgs adv in
    let same : p' ≡ p = cc in (p, ran, es, rw same at ps)
