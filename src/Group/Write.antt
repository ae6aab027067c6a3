-- ===== src/Group/Write.antt =====
-- oceanraft/src/group.rs, `RaftGroup::handle_write`: what raft has made ready goes to the log
-- storage of the group, whose state is `L`. The ready itself, and how raft takes note that it is
-- written, are raft's.
use oceanraft.Common.{ℕ, List, [], ◌∷◌, ◌++◌, Option, none, some, Outcome, ok, err, panic}
use oceanraft.Common.{Bool, true, false, not, ◌&&◌, ◌==◌, if◌then◌else◌}
use oceanraft.Types.{Entry, HardState, Snapshot}
use oceanraft.Types.Errors.{StorageError}
use oceanraft.Types.Message.{Message, MultiRaftMessage}
use oceanraft.Types.Reply.{Replies}
use oceanraft.Apply.Batch.{ApplyData}
use oceanraft.Replica.Store.{MultiRaftStorage}
use oceanraft.Transport.{Routes, send_messages}
use oceanraft.Group.State.{set_commit_index}
use oceanraft.Group.Raft.{RawNode, RaftGroup}
use oceanraft.Group.Create.{handle_can_apply_entries}

pub record Ready : Type 0 where
  pub snapshot : Snapshot
  pub entries : List Entry
  pub hs : Option HardState
  pub persisted_messages : List Message

pub record LightReady : Type 0 where
  pub commit_index : Option ℕ
  pub messages : List Message
  pub committed_entries : List Entry

-- What a call on the log storage ends in, and the log as the call leaves it, also where it fails.
abbrev pub Logged : Type 0 → Type 0
Logged L = Outcome StorageError (Unit {0}) × L

-- The calls of `Storage` and `StorageExt` that a write needs.
pub record LogStore (L : Type 0) : Type 0 where
  pub install_snapshot : Snapshot → L → Logged L
  pub append : List Entry → L → Logged L
  pub set_hardstate : HardState → L → Logged L
  pub set_hardstate_commit : ℕ → L → Logged L
  pub term : ℕ → L → Outcome StorageError ℕ

abbrev pub is_nil : List ℕ → Bool
is_nil [] = true
is_nil (x ∷ xs) = false

-- `*ready.snapshot() == Snapshot::default()`
unfoldable pub is_default_snapshot : Snapshot → Bool
is_default_snapshot s =
    is_nil s.payload
    && s.metadata.index == 0
    && s.metadata.term == 0
    && is_nil s.metadata.conf_state.voters
    && is_nil s.metadata.conf_state.learners
    && is_nil s.metadata.conf_state.voters_outgoing
    && is_nil s.metadata.conf_state.learners_next
    && not s.metadata.conf_state.auto_leave

-- A snapshot that is not the default one is installed.
unfoldable pub when_snapshot : {L : Type 0} → Snapshot → (Snapshot → L → Logged L) → L → Logged L
unfolding is_default_snapshot
when_snapshot s f l = if is_default_snapshot s then (ok tt, l) else f s l

-- An optional step of a write.
abbrev pub when_some {ℓ} : {A : Type ℓ} {L : Type 0} → Option A → (A → L → Logged L) → L → Logged L
when_some none f l = (ok tt, l)
when_some (some a) f l = f a l

abbrev pub when_entries : {L : Type 0} → List Entry → (List Entry → L → Logged L) → L → Logged L
when_entries [] f l = (ok tt, l)
when_entries (e ∷ es) f l = f (e ∷ es) l

-- What a write reads and changes; a failing step leaves what the steps before it have written.
pub record Writer (S N L : Type 0) : Type 0 where
  pub group : RaftGroup N
  pub ready : Option Ready
  pub log : L
  pub routes : Routes S

module _ {S N L : Type 0} (raw : RawNode N) (store : LogStore L) (st : MultiRaftStorage S)
    (size : Entry → ℕ) (advance_append : Ready → N → LightReady × N) where
  abbrev pub Written : Type 0
  Written =
      Outcome StorageError (Option (ApplyData × Replies) × List MultiRaftMessage) × Writer S N L

  -- A step on the log: the writer goes on with the new log, or ends where it stands.
  unfoldable pub on_log : Logged L → (Writer S N L → Written) → Writer S N L → Written
  on_log (ok _, l) next w = next (record w { log = l })
  on_log (err e, l) next w = (err e, record w { log = l })
  on_log (panic, l) next w = (panic, record w { log = l })

  -- Messages are sent only if there are any.
  unfoldable pub send_some :
      ℕ → List Message → (List MultiRaftMessage → Writer S N L → Written) → Writer S N L → Written
  send_some node_id [] next w = next [] w
  send_some node_id (m ∷ ms) next w =
      elim (send_messages st node_id w.group.group_id (m ∷ ms) w.routes) [
        | panic ↦ (panic, w)
        | err e ↦ (panic, w)
        | ok (sent, routes) ↦ next sent (record w { routes = routes })
      ]

  -- The entries that raft commits with the write become an apply.
  unfoldable pub apply_some : ℕ → List Entry → List MultiRaftMessage → Writer S N L → Written
  unfolding handle_can_apply_entries
  apply_some replica_id [] sent w = (ok (none, sent), w)
  apply_some replica_id (e ∷ es) sent w =
      let (created, g) =
        handle_can_apply_entries raw size (λ i. store.term i w.log) replica_id (e ∷ es) w.group in
      (
        elim created [ panic ↦ panic | err x ↦ err x | ok apply ↦ ok (some apply, sent) ],
        record w { group = g },
      )

  -- What raft gives back once the write is noted.
  unfoldable pub note_commit_index : Option ℕ → (Writer S N L → Written) → Writer S N L → Written
  unfolding on_log set_commit_index
  note_commit_index none next w = next w
  note_commit_index (some commit) next w =
      on_log (store.set_hardstate_commit commit w.log)
        (λ w'. next (record w' {
          group = record w'.group { shared_state = set_commit_index commit w'.group.shared_state };
        }))
        (record w { group = record w.group { commit_index = commit } })

  unfoldable pub after_append : ℕ → ℕ → Ready → List MultiRaftMessage → Writer S N L → Written
  unfolding note_commit_index send_some apply_some
  after_append node_id replica_id ready sent w =
      let (light, n) = advance_append ready w.group.raft_group in
      note_commit_index light.commit_index
        (λ w₁.
          send_some node_id light.messages
            (λ sent' w₂. apply_some replica_id light.committed_entries (sent ++ sent') w₂) w₁)
        (record w { group = record w.group { raft_group = n } })

  -- Raft is handed the ready without the entries and the messages that were taken from it.
  unfoldable pub write_ready : ℕ → ℕ → Ready → Writer S N L → Written
  unfolding when_snapshot on_log send_some after_append
  write_ready node_id replica_id ready w =
      on_log (when_snapshot ready.snapshot store.install_snapshot w.log)
        (λ w₁.
          on_log (when_entries ready.entries store.append w₁.log)
            (λ w₂.
              on_log (when_some ready.hs store.set_hardstate w₂.log)
                (λ w₃.
                  send_some node_id ready.persisted_messages
                    (after_append node_id replica_id
                      (record ready { entries = []; persisted_messages = [] }))
                    w₃)
                w₂)
            w₁)
        w

  -- The ready is taken out of the request first; a request without one is a panic.
  unfoldable pub handle_write : ℕ → ℕ → Writer S N L → Written
  unfolding write_ready
  handle_write node_id replica_id w = elim w.ready [
    | none ↦ (panic, w)
    | some ready ↦ write_ready node_id replica_id ready (record w { ready = none })
  ]
