-- ===== src/Proposal/Reads.antt =====
-- oceanraft/src/proposal.rs, `ReadIndexQueue`, and `RaftGroup::on_reads_ready` of
-- oceanraft/src/group.rs. A uuid is the number of 128 bits that its bytes spell.
-- `flexbuffer_deserialize` is a parameter that returns nothing for invalid bytes.
use oceanraft.Common.{
  ℕ, zero, suc, ◌+◌, ◌-◌, List, [], ◌∷◌, ◌++◌, Option, none, some, ◌==◌, if◌then◌else◌, get_elem?,
  set, Outcome, ok, panic, ◌>>=◌,
}
use oceanraft.Types.Errors.{Error}
use oceanraft.Types.Reply.{Sender}

-- raft's `ReadState`.
pub record ReadState : Type 0 where
  pub index : ℕ
  pub request_ctx : List ℕ

pub record ReadIndexContext : Type 0 where
  pub uuid : ℕ
  pub context : Option (List ℕ)

pub record ReadIndexProposal : Type 0 where
  pub uuid : ℕ
  pub read_index : Option ℕ
  pub context : Option ReadIndexContext
  pub tx : Option Sender

pub record ReadIndexQueue : Type 0 where
  pub ready_cnt : ℕ
  pub handle_cnt : ℕ
  pub queue : List ReadIndexProposal

unfoldable pub new : ReadIndexQueue
new = record { ready_cnt = 0; handle_cnt = 0; queue = [] }

-- The counter of handled reads is unsigned: at zero the subtraction overflows, a panic where
-- overflow is checked.
unfoldable pub push_front : ReadIndexProposal → ReadIndexQueue → Outcome Error ReadIndexQueue
push_front p q =
    if q.handle_cnt == 0
    then panic
    else ok (record {
      ready_cnt = q.ready_cnt + 1;
      handle_cnt = q.handle_cnt - 1;
      queue = q.queue ++ p ∷ [];
    })

unfoldable pub push_back : ReadIndexProposal → ReadIndexQueue → ReadIndexQueue
push_back p q = record q { queue = q.queue ++ p ∷ [] }

-- `queue.pop_front().expect(..)`
unfoldable pub take_front :
    List ReadIndexProposal → Outcome Error (ReadIndexProposal × List ReadIndexProposal)
take_front [] = panic
take_front (p ∷ ps) = ok (p, ps)

unfoldable pub pop_front :
    ReadIndexQueue → Outcome Error (Option ReadIndexProposal × ReadIndexQueue)
unfolding take_front
pop_front q = if q.ready_cnt == 0 then ok (none, q) else do
  (item, rest) ← take_front q.queue
  ok (
    some item,
    record { ready_cnt = q.ready_cnt - 1; handle_cnt = q.handle_cnt + 1; queue = rest },
  )

-- One round of the loop, once the context of the read state is decoded: the proposal behind the
-- ready ones is marked ready if it has the uuid.
unfoldable pub mark_ready : ℕ → ReadIndexContext → ReadIndexQueue → ReadIndexQueue
mark_ready index ctx q = elim (get_elem? q.queue q.ready_cnt) [
  | none ↦ q
  | some read ↦
      if read.uuid == ctx.uuid
      then record q {
        ready_cnt = q.ready_cnt + 1;
        queue =
            set q.queue q.ready_cnt (record read { read_index = some index; context = some ctx });
      }
      else q
]

-- What the client of a read is sent: the context that it gave, if any.
abbrev pub answer : ReadIndexProposal → List (Sender × Option (List ℕ))
answer p = elim p.tx [
  | none ↦ []
  | some tx ↦ (tx, elim p.context [ none ↦ none | some ctx ↦ ctx.context ]) ∷ []
]

module _ (decode : List ℕ → Option ReadIndexContext) where
  unfoldable pub advance_reads : List ReadState → ReadIndexQueue → Outcome Error ReadIndexQueue
  unfolding mark_ready
  advance_reads [] q = ok q
  advance_reads (rs ∷ rss) q = elim (decode rs.request_ctx) [
    | none ↦ panic
    | some ctx ↦ advance_reads rss (mark_ready rs.index ctx q)
  ]

-- The loop that answers every ready read. Each round takes one off the ready ones, so one more
-- round than there are ready ones is enough; `none` means that the rounds ran out.
unfoldable pub serve_ready :
    ℕ → ReadIndexQueue → Outcome Error (Option (List (Sender × Option (List ℕ)) × ReadIndexQueue))
unfolding pop_front
serve_ready zero q = ok none
serve_ready (suc fuel) q = do
  (popped, q') ← pop_front q
  elim popped [
    | none ↦ ok (some ([], q'))
    | some p ↦ do
      rest ← serve_ready fuel q'
      ok (elim rest [ none ↦ none | some (sent, q₂) ↦ some (answer p ++ sent, q₂) ])
  ]

-- `on_reads_ready`
unfoldable pub on_reads_ready :
    (List ℕ → Option ReadIndexContext)
    → List ReadState
    → ReadIndexQueue
    → Outcome Error (Option (List (Sender × Option (List ℕ)) × ReadIndexQueue))
unfolding advance_reads serve_ready
on_reads_ready decode rss q = do q' ← advance_reads decode rss q; serve_ready (q'.ready_cnt + 1) q'
