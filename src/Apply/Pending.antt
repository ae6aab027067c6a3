-- ===== src/Apply/Pending.antt =====
-- oceanraft/src/apply.rs, `PendingSenderQueue`, and how `ApplyDelegate` fills and searches it.
-- `try_gc` gives back capacity, which no call observes.
use oceanraft.Common.{
  ℕ, Bool, ◌&&◌, ◌||◌, List, [], ◌∷◌, ◌++◌, Option, none, some, ltb, ◌==◌, if◌then◌else◌, Outcome,
  ok, panic, ◌>>=◌,
}
use oceanraft.Types.Errors.{Error, ProposeError, propose}
use oceanraft.Types.Reply.{Sender, Replies, reply}
use oceanraft.Proposal.Queue.{Proposal}

pub record PendingSender : Type 0 where
  pub index : ℕ
  pub term : ℕ
  pub tx : Option Sender

pub record PendingSenderQueue : Type 0 where
  pub normals : List PendingSender
  pub conf_change : Option PendingSender

unfoldable pub new : PendingSenderQueue
new = record { normals = []; conf_change = none }

unfoldable pub push_normal : PendingSender → PendingSenderQueue → PendingSenderQueue
push_normal p q = record q { normals = q.normals ++ p ∷ [] }

-- `(cmd.term, cmd.index) > (term, index)`
abbrev pub is_later : PendingSender → ℕ → ℕ → Bool
is_later p term index = ltb term p.term || p.term == term && ltb index p.index

-- `pop_normal`, on the queue's list.
unfoldable pub pop_normal : ℕ → ℕ → List PendingSender → Option PendingSender × List PendingSender
pop_normal index term [] = (none, [])
pop_normal index term (p ∷ ps) = if is_later p term index then (none, p ∷ ps) else (some p, ps)

-- A stale sender is told its own term, and term 0 for the current one.
abbrev pub reply_stale : PendingSender → Replies
reply_stale p = reply p.tx (propose (ProposeError.stale p.term 0))

-- The loop `while let Some(p) = self.pop_normal(index, term)`: each round takes the front off.
unfoldable pub remove_stales_from : ℕ → ℕ → List PendingSender → List PendingSender × Replies
remove_stales_from index term [] = ([], [])
remove_stales_from index term (p ∷ ps) =
    if is_later p term index
    then (p ∷ ps, [])
    else (let (rest, replies) = remove_stales_from index term ps in
        (rest, reply_stale p ++ replies))

unfoldable pub remove_stales : ℕ → ℕ → PendingSenderQueue → PendingSenderQueue × Replies
unfolding remove_stales_from
remove_stales index term q =
    let (rest, replies) = remove_stales_from index term q.normals in
    (record q { normals = rest }, replies)

unfoldable pub set_conf_change : PendingSender → PendingSenderQueue → PendingSenderQueue
set_conf_change p q = record q { conf_change = some p }

unfoldable pub take_conf_change : PendingSenderQueue → Option PendingSender × PendingSenderQueue
take_conf_change q = (q.conf_change, record q { conf_change = none })

-- A conf change that is still pending is answered as stale.
unfoldable pub set_pending_conf_change :
    PendingSender → PendingSenderQueue → PendingSenderQueue × Replies
unfolding take_conf_change set_conf_change
set_pending_conf_change p q =
    let (old, q') = take_conf_change q in
    (set_conf_change p q', elim old [ none ↦ [] | some o ↦ reply_stale o ])

unfoldable pub push_pending_proposals :
    List Proposal → PendingSenderQueue → PendingSenderQueue × Replies
unfolding set_pending_conf_change push_normal
push_pending_proposals [] q = (q, [])
push_pending_proposals (p ∷ ps) q =
    let sender : PendingSender = record { index = p.index; term = p.term; tx = p.tx } in
    let (q₁, told) =
      if p.is_conf_change then set_pending_conf_change sender q else (push_normal sender q, []) in
    let (q₂, told') = push_pending_proposals ps q₁ in (q₂, told ++ told')

-- A pending conf change of another entry is forgotten.
unfoldable pub find_pending_conf_change :
    ℕ → ℕ → PendingSenderQueue → Option PendingSender × PendingSenderQueue
unfolding take_conf_change
find_pending_conf_change term index q =
    let (p, q') = take_conf_change q in
    (
      elim p [
        | none ↦ none
        | some p' ↦ if p'.term == term && p'.index == index then some p' else none
      ],
      q',
    )

-- The loop of `find_pending` for a normal entry, over `pop_normal`.
unfoldable pub find_normal :
    ℕ → ℕ → List PendingSender → Outcome Error (Option PendingSender × List PendingSender × Replies)
find_normal term index [] = ok (none, [], [])
find_normal term index (p ∷ ps) =
    if is_later p term index
    then ok (none, p ∷ ps, [])
    else if p.term == term
    then if p.index == index then ok (some p, ps, []) else panic
    else do
      (found, rest, replies) ← find_normal term index ps
      ok (found, rest, reply_stale p ++ replies)

unfoldable pub find_pending :
    ℕ
    → ℕ
    → Bool
    → PendingSenderQueue
    → Outcome Error (Option PendingSender × PendingSenderQueue × Replies)
unfolding find_pending_conf_change find_normal
find_pending term index is_conf_change q =
    if is_conf_change
    then (let (p, q') = find_pending_conf_change term index q in ok (p, q', []))
    else do
      (found, rest, replies) ← find_normal term index q.normals
      ok (found, record q { normals = rest }, replies)
