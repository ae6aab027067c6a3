-- ===== src/Apply/Batch.antt =====
-- oceanraft/src/msg.rs, `ApplyData`, and the batching of oceanraft/src/apply.rs, `ApplyWorker`.
-- A hash map is walked in the order of its association list: the code may not depend on it.
use oceanraft.Common.{
  ℕ, ◌+◌, Bool, true, false, not, ◌&&◌, ◌||◌, List, [], ◌∷◌, ◌++◌, Option, none, some, ltb, leb,
  ◌==◌, if◌then◌else◌, Map, lookup, insert, Outcome, ok, panic, ◌>>=◌,
}
use oceanraft.Types.{Entry}
use oceanraft.Types.Errors.{Error}
use oceanraft.Proposal.Queue.{Proposal}

pub record ApplyData : Type 0 where
  pub replica_id : ℕ
  pub group_id : ℕ
  pub term : ℕ
  pub commit_index : ℕ
  pub commit_term : ℕ
  pub entries : List Entry
  pub entries_size : ℕ
  pub proposals : List Proposal

-- The assertions at the head of `try_batch`.
abbrev pub can_join : ApplyData → ApplyData → Bool
can_join self that =
    self.replica_id == that.replica_id
    && self.group_id == that.group_id
    && leb self.term that.term
    && leb self.commit_index that.commit_index
    && leb self.commit_term that.commit_term

-- The whole of both, as `self` afterwards.
abbrev pub joined : ApplyData → ApplyData → ApplyData
joined self that = record self {
  term = that.term;
  commit_index = that.commit_index;
  commit_term = that.commit_term;
  entries = self.entries ++ that.entries;
  entries_size = self.entries_size + that.entries_size;
  proposals = self.proposals ++ that.proposals;
}

-- The result, and `self` and `that` after the call.
unfoldable pub try_batch : ApplyData → ApplyData → ℕ → Outcome Error (Bool × ApplyData × ApplyData)
try_batch self that max_batch_size =
    if can_join self that
    then if max_batch_size == 0 || ltb max_batch_size (self.entries_size + that.entries_size)
      then ok (false, self, that)
      else ok (true, joined self that, record that { entries = []; proposals = [] })
    else panic

-- A hash map whose keys are a group and a replica.
abbrev pub PendingApplys : Type 0
PendingApplys = List ((ℕ × ℕ) × List ApplyData)

unfoldable pub pending_at : ℕ → ℕ → PendingApplys → List ApplyData
pending_at g r [] = []
pending_at g r (((g', r'), applys) ∷ m) = if g' == g && r' == r then applys else pending_at g r m

unfoldable pub insert_pending_apply : ℕ → ℕ → ApplyData → PendingApplys → PendingApplys
insert_pending_apply g r apply [] = ((g, r), apply ∷ []) ∷ []
insert_pending_apply g r apply (((g', r'), applys) ∷ m) =
    if g' == g && r' == r
    then ((g', r'), applys ++ apply ∷ []) ∷ m
    else ((g', r'), applys) ∷ insert_pending_apply g r apply m

-- The fields of the configuration that batching reads.
pub record BatchConfig : Type 0 where
  pub batch_apply : Bool
  pub batch_size : ℕ

-- The two maps that `batch_msgs` builds.
pub record Batches : Type 0 where
  pub pending_applys : PendingApplys
  pub batch_applys : Map (Option ApplyData)

-- One apply of a message, for a group whose batch is open.
unfoldable pub join_or_flush : ℕ → ℕ → ApplyData → ApplyData → Batches → Outcome Error Batches
unfolding try_batch insert_pending_apply
join_or_flush size group_id batch apply s = do
  (joins, batch', apply') ← try_batch batch apply size
  ok (
      if joins
      then record s { batch_applys = insert group_id (some batch') s.batch_applys }
      else record {
        pending_applys = insert_pending_apply group_id apply'.replica_id batch' s.pending_applys;
        batch_applys = insert group_id (some apply') s.batch_applys;
      })

-- One apply of a message.
unfoldable pub batch_one : BatchConfig → ℕ × ApplyData → Batches → Outcome Error Batches
unfolding join_or_flush insert_pending_apply
batch_one cfg (group_id, apply) s =
    if not cfg.batch_apply
    then ok (record s {
      pending_applys = insert_pending_apply group_id apply.replica_id apply s.pending_applys;
    })
    else elim (lookup group_id s.batch_applys) [
      | none ↦ ok (record s { batch_applys = insert group_id (some apply) s.batch_applys })
      | some none ↦ ok (record s { batch_applys = insert group_id (some apply) s.batch_applys })
      | some (some batch) ↦ join_or_flush cfg.batch_size group_id batch apply s
    ]

unfoldable pub batch_all : BatchConfig → List (ℕ × ApplyData) → Batches → Outcome Error Batches
unfolding batch_one
batch_all cfg [] s = ok s
batch_all cfg (a ∷ applys) s = do s' ← batch_one cfg a s; batch_all cfg applys s'

unfoldable pub batch_messages :
    BatchConfig → List (List (ℕ × ApplyData)) → Batches → Outcome Error Batches
unfolding batch_all
batch_messages cfg [] s = ok s
batch_messages cfg (applys ∷ msgs) s = do s' ← batch_all cfg applys s; batch_messages cfg msgs s'

-- The open batches that are left go behind the pending ones.
unfoldable pub flush_batches : Map (Option ApplyData) → PendingApplys → PendingApplys
unfolding insert_pending_apply
flush_batches [] pending = pending
flush_batches ((group_id, none) ∷ m) pending = flush_batches m pending
flush_batches ((group_id, some batch) ∷ m) pending =
    flush_batches m (insert_pending_apply group_id batch.replica_id batch pending)

-- A message is the list of its groups, each with what it applies.
unfoldable pub batch_msgs : BatchConfig → List (List (ℕ × ApplyData)) → Outcome Error PendingApplys
unfolding batch_messages flush_batches
batch_msgs cfg msgs = do
  s ← batch_messages cfg msgs (record { pending_applys = []; batch_applys = [] })
  ok (flush_batches s.batch_applys s.pending_applys)
