-- ===== src/Apply/Senders.antt =====
-- Which senders a search of the pending queue answers as stale, and which one it returns.
use oceanraft.Common.{
  ℕ, ◌<◌, ◌≡◌, ◌⊎◌, inl, inr, refl, ap, true, false, List, [], ◌∷◌, ◌++◌, append-nil, append_assoc,
  Option, some, All, ok, arith, Bool-cases,
}
use oceanraft.Types.Reply.{Replies}
use oceanraft.Apply.Pending.{
  PendingSender, PendingSenderQueue, is_later, reply_stale, remove_stales_from, remove_stales,
  find_normal, find_pending,
}

-- One stale reply to each sender that has a channel, in order.
unfoldable pub stale_replies : List PendingSender → Replies
stale_replies [] = []
stale_replies (p ∷ ps) = reply_stale p ++ stale_replies ps

-- The senders are of terms below `term`.
abbrev pub Older : ℕ → List PendingSender → Type 0
Older term = All (λ p. p.term < term)

find_normal-Older :
    (term index : ℕ) (old : List PendingSender) (ps : List PendingSender) {r : Option PendingSender}
    {rest : List PendingSender} {told : Replies}
    → Older term old
    → find_normal term index ps ≡ ok (r, rest, told)
    → find_normal term index (old ++ ps) ≡ ok (r, rest, stale_replies old ++ told)
unfolding find_normal stale_replies
find_normal-Older term index [] ps h e = e
find_normal-Older term index (p ∷ old) ps {r} {rest} {told} h e = ground (
  arith,
  find_normal-Older term index old ps h.1 e,
  append_assoc (reply_stale p) (stale_replies old) told,
)

-- When senders of older terms stand before the sender of the entry `(term, index)`, the search for
-- the entry answers each of them as stale, once and in order, and returns the entry's own sender.
pub find_pending_lem :
    (term index : ℕ) (old : List PendingSender) (p : PendingSender) (rest : List PendingSender)
    (q : PendingSenderQueue)
    → q.normals ≡ old ++ p ∷ rest
    → Older term old
    → p.term ≡ term
    → p.index ≡ index
    → find_pending term index false q ≡ ok (some p, record q { normals = rest }, stale_replies old)
unfolding find_pending find_normal
find_pending_lem term index old p rest q e h t i =
    let front : find_normal term index (p ∷ rest) ≡ ok (some p, rest, []) = ground arith in
    ground
      (arith, find_normal-Older term index old (p ∷ rest) h front, append-nil (stale_replies old))

remove_stales-Older :
    (index term : ℕ) (old rest : List PendingSender)
    → All (λ p. is_later p term index ≡ false) old
    → (rest ≡ [])
      ⊎ ((p : PendingSender) × (ps : List PendingSender) × (rest ≡ p ∷ ps)
          × (is_later p term index ≡ true))
    → remove_stales_from index term (old ++ rest) ≡ (rest, stale_replies old)
unfolding remove_stales_from stale_replies
remove_stales-Older index term [] rest h (inl e) = rw e refl
remove_stales-Older index term [] rest h (inr (p, ps, e, later)) = rw (e, later) refl
remove_stales-Older index term (p ∷ old) rest h f =
    ground (arith, remove_stales-Older index term old rest h.1 f)

-- A no-op entry answers as stale exactly the senders at the front of the queue that are not later
-- than the entry, each once and in order, and keeps the rest.
pub remove_stales_lem :
    (index term : ℕ) (q : PendingSenderQueue)
    → (old rest : List PendingSender) × (q.normals ≡ old ++ rest)
      × All (λ p. is_later p term index ≡ false) old
      × ((rest ≡ [])
          ⊎ ((p : PendingSender) × (ps : List PendingSender) × (rest ≡ p ∷ ps)
              × (is_later p term index ≡ true)))
      × (remove_stales index term q ≡ (record q { normals = rest }, stale_replies old))
unfolding remove_stales
remove_stales_lem index term q =
    let (old, rest, e, h, f) = cut q.normals in
    (old, rest, e, h, f, ground (arith, remove_stales-Older index term old rest h f))
  where
    cut :
        (ps : List PendingSender)
        → (old rest : List PendingSender) × (ps ≡ old ++ rest)
          × All (λ p. is_later p term index ≡ false) old
          × ((rest ≡ [])
              ⊎ ((p : PendingSender) × (ps : List PendingSender) × (rest ≡ p ∷ ps)
                  × (is_later p term index ≡ true)))
    cut [] = ([], [], refl, tt, inl refl)
    cut (p ∷ ps) = elim (Bool-cases (is_later p term index)) [
      | inl later ↦ ([], p ∷ ps, refl, tt, inr (p, ps, refl, later))
      | inr now ↦ let (old, rest, e, h, f) = cut ps in (p ∷ old, rest, ap (◌∷◌ p) e, (now, h), f)
    ]
