-- ===== src/Apply/Fifo.antt =====
-- Batching neither loses, nor repeats, nor reorders what a group has to apply.

pub mod Step
pub mod Total
use oceanraft.Common.{
  ℕ, ◌+◌, ◌≤◌, ◌<◌, ◌≡◌, ◌≢◌, ◌⊎◌, inl, inr, refl, sym, ap, ◌∙◌, Bool, true, false, not, ◌&&◌, ◌||◌,
  List, [], ◌∷◌, ◌++◌, append-nil, append_assoc, Option, none, some, ltb, leb, ◌==◌, if◌then◌else◌,
  Map, lookup, insert, lookup-insert, Bool-cases, Option-cases, Outcome-cases, Outcome, ok, err,
  panic, ◌>>=◌, arith,
}
use oceanraft.Types.{Entry}
use oceanraft.Types.Errors.{Error}
use oceanraft.Proposal.Queue.{Proposal}
use oceanraft.Apply.Batch.{
  ApplyData, can_join, joined, try_batch, PendingApplys, pending_at, insert_pending_apply,
  BatchConfig, Batches, join_or_flush, batch_one, batch_all, batch_messages, flush_batches,
  batch_msgs,
}

-- How far a group has got: what the next apply of the group may not fall behind.
pub record Mark : Type 0 where
  pub term : ℕ
  pub commit_index : ℕ
  pub commit_term : ℕ

abbrev pub mark : ApplyData → Mark
mark a = record { term = a.term; commit_index = a.commit_index; commit_term = a.commit_term }

abbrev pub move : ℕ → ApplyData → (ℕ → Mark) → ℕ → Mark
move g a m g' = if g == g' then mark a else m g'

abbrev pub start : ℕ → Mark
start g = record { term = 0; commit_index = 0; commit_term = 0 }

pending_at-insert :
    (g r g' r' : ℕ) (a : ApplyData) (m : PendingApplys)
    → pending_at g' r' (insert_pending_apply g r a m)
      ≡ (if g == g' && r == r' then pending_at g' r' m ++ a ∷ [] else pending_at g' r' m)
unfolding pending_at insert_pending_apply
pending_at-insert g r g' r' a [] = ground arith
pending_at-insert g r g' r' a (((h, s), applys) ∷ m) =
    ground (arith, pending_at-insert g r g' r' a m)

-- Every group has one replica on the node: `r` names it.
module _ (r : ℕ → ℕ) where
  -- The applys carry their own group and its replica, and no group falls back.
  abbrev pub Advance : (ℕ → Mark) → List (ℕ × ApplyData) → Type 0
  Advance m [] = Unit
  Advance m ((g, a) ∷ rest) =
      (a.replica_id ≡ r g)
      × (a.group_id ≡ g)
      × ((m g).term ≤ a.term)
      × ((m g).commit_index ≤ a.commit_index)
      × ((m g).commit_term ≤ a.commit_term)
      × Advance (move g a m) rest

  -- An open batch is of its group, and not past where the group has got.
  abbrev pub Open : (ℕ → Mark) → ℕ → Option ApplyData → Type 0
  Open m g none = Unit
  Open m g (some a) =
      (a.replica_id ≡ r g)
      × (a.group_id ≡ g)
      × (a.term ≤ (m g).term)
      × (a.commit_index ≤ (m g).commit_index)
      × (a.commit_term ≤ (m g).commit_term)

  -- Each group has one batch at most.
  abbrev pub Fits : (ℕ → Mark) → Map (Option ApplyData) → Type 0
  Fits m [] = Unit
  Fits m ((g, o) ∷ b) = (lookup g b ≡ none) × Open m g o × Fits m b

  move-Open :
      (m : ℕ → Mark) (g g' : ℕ) (a : ApplyData) (o : Option ApplyData)
      → g ≢ g'
      → Open m g' o
      → Open (move g a m) g' o
  move-Open m g g' a none ne h = tt
  move-Open m g g' a (some b) ne h = let e : (g == g') ≡ false = ground arith in rw e h

  move-Fits :
      (m : ℕ → Mark) (g : ℕ) (a : ApplyData) (b : Map (Option ApplyData))
      → lookup g b ≡ none
      → Fits m b
      → Fits (move g a m) b
  move-Fits m g a [] h f = tt
  move-Fits m g a ((g', o) ∷ b) h f =
      (f.0, move-Open m g g' a o (ground arith) f.1, move-Fits m g a b (ground arith) f.2)

  insert-Fits :
      (m : ℕ → Mark) (g : ℕ) (a x : ApplyData) (b : Map (Option ApplyData))
      → Open (move g a m) g (some x)
      → Fits m b
      → Fits (move g a m) (insert g (some x) b)
  insert-Fits m g a x [] h f = (refl, h, tt)
  insert-Fits m g a x ((g', o) ∷ b) h f = elim (Bool-cases (g' == g)) [
    | inl same ↦
        let e : g' ≡ g = ground arith in
        let free : lookup g b ≡ none = rw e at f.0 in rw same (free, h, move-Fits m g a b free f.2)
    | inr other ↦ rw other (
      ground (arith, lookup-insert g g' (some x) b),
      move-Open m g g' a o (ground arith) f.1,
      insert-Fits m g a x b h f.2,
    )
  ]

  lookup-Open :
      (m : ℕ → Mark) (g : ℕ) (a : ApplyData) (b : Map (Option ApplyData))
      → Fits m b
      → lookup g b ≡ some (some a)
      → Open m g (some a)
  lookup-Open m g a [] f h = cc
  lookup-Open m g a ((g', o) ∷ b) f h = elim (Bool-cases (g' == g)) [
    | inl same ↦
        let e : g' ≡ g = ground arith in let eo : o ≡ some a = ground arith in rw (e, eo) at f.1
    | inr other ↦ lookup-Open m g a b f.2 (ground arith)
  ]

  pending_at_same :
      (g g' : ℕ) (a : ApplyData) (p : PendingApplys)
      → a.replica_id ≡ r g
      → g ≡ g'
      → pending_at g' (r g') (insert_pending_apply g a.replica_id a p)
        ≡ pending_at g' (r g') p ++ a ∷ []
  pending_at_same g g' a p own e =
      let own' : a.replica_id ≡ r g' = own ∙ ap r e in
      ground (arith, pending_at-insert g a.replica_id g' (r g') a p)

  pending_at_other :
      (g g' : ℕ) (a : ApplyData) (p : PendingApplys)
      → g ≢ g'
      → pending_at g' (r g') (insert_pending_apply g a.replica_id a p) ≡ pending_at g' (r g') p
  pending_at_other g g' a p ne = ground (arith, pending_at-insert g a.replica_id g' (r g') a p)

  pub record Inv (m : ℕ → Mark) (cfg : BatchConfig) (s : Batches) : Type 0 where
    pub fits : Fits m s.batch_applys
    pub idle : (cfg.batch_apply ≡ true) ⊎ (s.batch_applys ≡ [])

-- What is followed through the batching: the entries, or the proposals.
module _ {X : Type 0} (part : ApplyData → List X) where
  unfoldable pub content : List ApplyData → List X
  content [] = []
  content (a ∷ rest) = part a ++ content rest

  content-append : (xs ys : List ApplyData) → content (xs ++ ys) ≡ content xs ++ content ys
  unfolding content
  content-append [] ys = refl
  content-append (x ∷ xs) ys = rw (content-append xs ys, append_assoc)

  content_one : (a : ApplyData) → content (a ∷ []) ≡ part a
  unfolding content
  content_one a = append-nil (part a)

  -- In a map of batches, the part of a group's open batch.
  unfoldable pub open_part : Option (Option ApplyData) → List X
  open_part none = []
  open_part (some none) = []
  open_part (some (some a)) = part a

  -- What the messages bring for a group.
  unfoldable pub input : ℕ → List (ℕ × ApplyData) → List X
  input g [] = []
  input g ((g', a) ∷ rest) = if g' == g then part a ++ input g rest else input g rest

  -- What a group has to apply: the pending applys, and behind them the open batch.
  unfoldable pub flow : (r : ℕ → ℕ) → ℕ → Batches → List X
  flow r g s = content (pending_at g (r g) s.pending_applys) ++ open_part (lookup g s.batch_applys)

-- The applys of all messages, in the order in which they are met.
unfoldable pub all_applys : List (List (ℕ × ApplyData)) → List (ℕ × ApplyData)
all_applys [] = []
all_applys (applys ∷ msgs) = applys ++ all_applys msgs
