-- ===== src/Apply/Fifo/Step.antt =====
-- One apply in the batching of oceanraft/src/apply.rs: it goes behind what its group has to apply.
use oceanraft.Common.{
  ℕ, ◌+◌, ◌≤◌, ◌≡◌, ◌⊎◌, inl, inr, ap, ◌∙◌, Bool, true, false, ◌||◌, List, [], ◌∷◌, ◌++◌,
  append-nil, append_assoc, none, some, ltb, ◌==◌, if◌then◌else◌, lookup, insert, lookup-insert,
  Bool-cases, Option-cases, ok, arith,
}
use oceanraft.Apply.Batch.{
  ApplyData, can_join, joined, pending_at, insert_pending_apply, BatchConfig, Batches, batch_one,
}
use oceanraft.Apply.Fifo.{
  Mark, move, Open, Fits, insert-Fits, lookup-Open, pending_at-insert, pending_at_same,
  pending_at_other, Inv, content, content-append, open_part, flow,
}

module _ (r : ℕ → ℕ) {X : Type 0} (part : ApplyData → List X)
    (part-joined : (a b : ApplyData) → part (joined a b) ≡ part a ++ part b) where
  unfoldable pub Steps : (ℕ → Mark) → BatchConfig → ℕ → ApplyData → Batches → Type 0
  Steps m cfg g a s =
      (s' : Batches) × (batch_one cfg (g, a) s ≡ ok s')
      × Inv r (move g a m) cfg s'
      × ((g' : ℕ) → flow part r g' s' ≡ flow part r g' s ++ (if g == g' then part a else []))

  module _ (m : ℕ → Mark) (cfg : BatchConfig) (g : ℕ) (a : ApplyData) (s : Batches)
      (inv : Inv r m cfg s) (own : a.replica_id ≡ r g) (grp : a.group_id ≡ g)
      (t : (m g).term ≤ a.term) (ci : (m g).commit_index ≤ a.commit_index)
      (ct : (m g).commit_term ≤ a.commit_term) where
    own-Open : Open r (move g a m) g (some a)
    own-Open =
        let e : (g == g) ≡ true = ground arith in
        rw e (own, grp, omega arith, omega arith, omega arith)

    -- Without batching the apply is pending at once.
    step_plain : cfg.batch_apply ≡ false → Steps m cfg g a s
    unfolding batch_one Steps flow content open_part
    step_plain off =
        let empty : s.batch_applys ≡ [] = ground arith in
        (
          record s { pending_applys = insert_pending_apply g a.replica_id a s.pending_applys },
          ground arith,
          record { fits = rw empty tt; idle = inr empty },
          λ g'. plain-flow g',
        )
      where
        empty_if : s.batch_applys ≡ []
        empty_if = ground arith

        plain-flow :
            (g' : ℕ)
            → flow part r g' (record s {
              pending_applys = insert_pending_apply g a.replica_id a s.pending_applys;
            })
              ≡ flow part r g' s ++ (if g == g' then part a else [])
        plain-flow g' = elim (Bool-cases (g == g')) [
          | inl same ↦
              rw (pending_at_same r g g' a s.pending_applys own (ground arith), empty_if, same)
                (simp (content-append part, append-nil))
          | inr other ↦
              rw (pending_at_other r g g' a s.pending_applys (ground arith), other)
                (simp append-nil)
        ]

    -- The apply opens the group's batch.
    step_open :
        cfg.batch_apply ≡ true
        → (lookup g s.batch_applys ≡ none) ⊎ (lookup g s.batch_applys ≡ some none)
        → Steps m cfg g a s
    unfolding batch_one Steps flow open_part
    step_open on none_open = (
      record s { batch_applys = insert g (some a) s.batch_applys },
      ground arith,
      record { fits = insert-Fits r m g a a s.batch_applys own-Open inv.fits; idle = inl on },
      λ g'. open-flow g',
    )
      where
        open-flow :
            (g' : ℕ)
            → flow part r g' (record s { batch_applys = insert g (some a) s.batch_applys })
              ≡ flow part r g' s ++ (if g == g' then part a else [])
        open-flow g' = ground (
          arith,
          lookup-insert g g' (some a) s.batch_applys,
          append-nil (content part (pending_at g' (r g') s.pending_applys)),
          append-nil (flow part r g' s),
        )

    module _ (on : cfg.batch_apply ≡ true) (b : ApplyData)
        (held : lookup g s.batch_applys ≡ some (some b)) where
      b-Open : Open r m g (some b)
      b-Open = lookup-Open r m g b s.batch_applys inv.fits held

      can_join_lem : can_join b a ≡ true
      can_join_lem = let (own', grp', t', ci', ct') = b-Open in ground arith

      is_full : Bool
      is_full = cfg.batch_size == 0 || ltb cfg.batch_size (b.entries_size + a.entries_size)

      full : Batches
      full = record {
        pending_applys = insert_pending_apply g a.replica_id b s.pending_applys;
        batch_applys = insert g (some a) s.batch_applys;
      }

      merged : Batches
      merged = record s { batch_applys = insert g (some (joined b a)) s.batch_applys }

      batch_one-full : is_full ≡ true → batch_one cfg (g, a) s ≡ ok full
      unfolding batch_one is_full full
      batch_one-full h = ground (arith, can_join_lem)

      batch_one-merged : is_full ≡ false → batch_one cfg (g, a) s ≡ ok merged
      unfolding batch_one is_full merged
      batch_one-merged h = ground (arith, can_join_lem)

      full-flow :
          (g' : ℕ) → flow part r g' full ≡ flow part r g' s ++ (if g == g' then part a else [])
      unfolding flow open_part full content
      full-flow g' = elim (Bool-cases (g == g')) [
        | inl same ↦
            let e : g ≡ g' = ground arith in
            let own' : a.replica_id ≡ r g' = own ∙ ap r e in
            ground (
              arith,
              lookup-insert g g' (some a) s.batch_applys,
              pending_at-insert g a.replica_id g' (r g') b s.pending_applys,
              content-append part (pending_at g' (r g') s.pending_applys) (b ∷ []),
              append-nil (part b),
            )
        | inr other ↦ ground (
          arith,
          lookup-insert g g' (some a) s.batch_applys,
          pending_at-insert g a.replica_id g' (r g') b s.pending_applys,
          append-nil (flow part r g' s),
        )
      ]

      merged-flow :
          (g' : ℕ) → flow part r g' merged ≡ flow part r g' s ++ (if g == g' then part a else [])
      unfolding flow open_part merged
      merged-flow g' = ground (
        arith,
        lookup-insert g g' (some (joined b a)) s.batch_applys,
        part-joined b a,
        append_assoc (content part (pending_at g' (r g') s.pending_applys)) (part b) (part a),
        append-nil (flow part r g' s),
      )

      full-Fits : Fits r (move g a m) full.batch_applys
      unfolding full
      full-Fits = insert-Fits r m g a a s.batch_applys own-Open inv.fits

      joined-Open : Open r (move g a m) g (some (joined b a))
      joined-Open =
          let e : (g == g) ≡ true = ground arith in
          rw e (b-Open.0, b-Open.1, omega arith, omega arith, omega arith)

      merged-Fits : Fits r (move g a m) merged.batch_applys
      unfolding merged
      merged-Fits = insert-Fits r m g a (joined b a) s.batch_applys joined-Open inv.fits

      step_join : Steps m cfg g a s
      unfolding Steps
      step_join = elim (Bool-cases is_full) [
        | inl h ↦ (full, batch_one-full h, record { fits = full-Fits; idle = inl on }, full-flow)
        | inr h ↦
            (merged, batch_one-merged h, record { fits = merged-Fits; idle = inl on }, merged-flow)
      ]

    pub step : Steps m cfg g a s
    step = elim (Bool-cases cfg.batch_apply) [
      | inr off ↦ step_plain off
      | inl on ↦ elim (Option-cases (lookup g s.batch_applys)) [
        | inl e ↦ step_open on (inl e)
        | inr (o, e) ↦ elim (Option-cases o) [
          | inl e' ↦ step_open on (inr (e ∙ ap some e'))
          | inr (b, e') ↦ step_join on b (e ∙ ap some e')
        ]
      ]
    ]
