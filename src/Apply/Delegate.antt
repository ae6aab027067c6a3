-- ===== src/Apply/Delegate.antt =====
-- oceanraft/src/apply.rs, `ApplyDelegate`: from committed entries to calls of the state machine.
-- The decoders are prost's and flexbuffers', `into_v2` is raft's, and `commit` is what the node
-- actor answers to a committed membership change: parameters, in the record `Codec`.
-- The state machine is the application's: its call is part of the result.
use oceanraft.Common.{
  ℕ, Bool, true, false, not, ◌&&◌, ◌||◌, List, [], ◌∷◌, ◌++◌, Option, none, some, ltb,
  if◌then◌else◌, last, Outcome, ok, err, panic, ◌>>=◌,
}
use oceanraft.Types.{
  Entry, EntryType, entry_normal, entry_conf_change, entry_conf_change_v2, ConfState,
}
use oceanraft.Types.Errors.{Error}
use oceanraft.Types.Membership.{
  ConfChange, ConfChangeV2, ConfChangeTransition, MembershipChangeData, MembershipRequestContext,
  CommitMembership,
}
use oceanraft.Types.Reply.{Sender, Replies, reply}
use oceanraft.Group.State.{GroupState, new as default_state}
use oceanraft.Apply.Batch.{ApplyData}
use oceanraft.Apply.Rsm.{Apply, no_op, normal, membership}
use oceanraft.Apply.Pending.{
  PendingSender, PendingSenderQueue, remove_stales, push_pending_proposals, find_pending,
}

pub record LocalApplyState : Type 0 where
  pub applied_term : ℕ
  pub applied_index : ℕ

pub record Codec (W : Type 0) : Type 0 where
  pub decode_request : List ℕ → Outcome Error W
  pub decode_conf_change : List ℕ → Outcome Error ConfChange
  pub decode_conf_change_v2 : List ℕ → Outcome Error ConfChangeV2
  pub decode_optional_context : List ℕ → Outcome Error (Option MembershipRequestContext)
  pub decode_context : List ℕ → Outcome Error MembershipRequestContext
  pub into_v2 : ConfChange → ConfChangeV2
  pub commit : CommitMembership → Outcome Error ConfState

abbrev pub is_nil {ℓ} : {A : Type ℓ} → List A → Bool
is_nil [] = true
is_nil (x ∷ xs) = false

abbrev pub is_auto : ConfChangeTransition → Bool
is_auto ConfChangeTransition.auto = true
is_auto t = false

abbrev pub is_v2 : EntryType → Bool
is_v2 entry_conf_change_v2 = true
is_v2 t = false

-- `Option::take`
abbrev pub take_option {ℓ} : {A : Type ℓ} → Option A → Option A × Option A
take_option o = (o, none)

abbrev pub context_data : Option MembershipRequestContext → Option MembershipChangeData
context_data none = none
context_data (some c) = some c.change_data

abbrev pub context_user : Option MembershipRequestContext → Option (List ℕ)
context_user none = none
context_user (some c) = c.user_ctx

abbrev pub sender_of : Option PendingSender → Option Sender
sender_of none = none
sender_of (some p) = p.tx

module _ {W : Type 0} (codec : Codec W) where
  unfoldable pub parse_by :
      EntryType → Entry → Outcome Error (ConfChangeV2 × Option MembershipRequestContext)
  parse_by entry_normal ent = panic
  parse_by entry_conf_change ent = do
    conf_change ← codec.decode_conf_change ent.payload
    ctx ← codec.decode_optional_context ent.context
    ok (codec.into_v2 conf_change, ctx)
  parse_by entry_conf_change_v2 ent = do
    ccv2 ← codec.decode_conf_change_v2 ent.payload
    if is_auto ccv2.transition && is_nil ccv2.changes
        then ok (ccv2, none)
        else (do ctx ← codec.decode_context ent.context; ok (ccv2, some ctx))

  unfoldable pub parse_conf_change :
      Entry → Outcome Error (ConfChangeV2 × Option MembershipRequestContext)
  unfolding parse_by
  parse_conf_change ent = parse_by ent.entry_type ent

  -- What an entry comes to: a call for the state machine, the queue, and the replies sent.
  abbrev pub Handled : Type 0
  Handled = Option (Apply W) × PendingSenderQueue × Replies

  -- Once the change is parsed: it is committed to the node, and then handed on. The context is
  -- taken for its data, and looked at once more for the user's part.
  unfoldable pub commit_conf_change :
      ℕ
      → Entry
      → Option Sender
      → ConfChangeV2
      → Option MembershipRequestContext
      → PendingSenderQueue
      → Outcome Error Handled
  commit_conf_change group_id ent tx conf_change request_ctx q =
      elim (codec.commit (record {
        group_id = group_id;
        index = ent.index;
        term = ent.term;
        conf_change = conf_change;
        change_request = context_data request_ctx;
      })) [
        | panic ↦ panic
        | err e ↦ ok (none, q, reply tx e)
        | ok conf_state ↦
            let (taken, left) = take_option request_ctx in
            ok (
              some (
                  membership (record {
                    group_id = group_id;
                    index = ent.index;
                    term = ent.term;
                    change_data = context_data taken;
                    ctx = context_user left;
                    conf_state = conf_state;
                    tx = tx;
                  })),
              q,
              [],
            )
      ]

  unfoldable pub handle_conf_change : ℕ → Entry → PendingSenderQueue → Outcome Error Handled
  unfolding parse_conf_change commit_conf_change find_pending
  handle_conf_change group_id ent q =
      if is_nil ent.payload && not (is_v2 ent.entry_type)
      then ok
          (some (no_op (record { group_id = group_id; index = ent.index; term = ent.term })), q, [])
      else do
        (pending, q', told) ← find_pending ent.term ent.index true q
        elim (parse_conf_change ent) [
          | panic ↦ panic
          | err e ↦ ok (none, q', told ++ reply (sender_of pending) e)
          | ok (conf_change, ctx) ↦
              commit_conf_change group_id ent (sender_of pending) conf_change ctx q'
        ]

  unfoldable pub handle_normal : ℕ → Entry → PendingSenderQueue → Outcome Error Handled
  unfolding remove_stales find_pending
  handle_normal group_id ent q =
      if is_nil ent.payload
      then (let (q', told) = remove_stales ent.index ent.term q in
          ok (
            some (no_op (record { group_id = group_id; index = ent.index; term = ent.term })),
            q',
            told,
          ))
      else do
        (pending, q', told) ← find_pending ent.term ent.index false q
        elim (codec.decode_request ent.payload) [
          | panic ↦ panic
          | err e ↦ panic
          | ok request ↦ ok (
            some (
                normal (record {
                  group_id = group_id;
                  index = ent.index;
                  term = ent.term;
                  request = request;
                  context = if is_nil ent.context then none else some ent.context;
                  is_conf_change = false;
                  tx = sender_of pending;
                })),
            q',
            told,
          )
        ]

  unfoldable pub handle_by : EntryType → ℕ → Entry → PendingSenderQueue → Outcome Error Handled
  unfolding handle_normal handle_conf_change
  handle_by entry_normal group_id ent q = handle_normal group_id ent q
  handle_by entry_conf_change group_id ent q = handle_conf_change group_id ent q
  handle_by entry_conf_change_v2 group_id ent q = handle_conf_change group_id ent q

  abbrev pub consed {ℓ} : {A : Type ℓ} → Option A → List A → List A
  consed none xs = xs
  consed (some x) xs = x ∷ xs

  -- The loop over the entries: the calls in the order of the entries.
  unfoldable pub handle_entries :
      ℕ
      → List Entry
      → PendingSenderQueue
      → Outcome Error (List (Apply W) × PendingSenderQueue × Replies)
  unfolding handle_by
  handle_entries group_id [] q = ok ([], q, [])
  handle_entries group_id (ent ∷ entries) q = do
    (apply, q₁, told) ← handle_by ent.entry_type group_id ent q
    (applys, q₂, told') ← handle_entries group_id entries q₁
    ok (consed apply applys, q₂, told ++ told')

  -- A call of the state machine, with the group, the replica, and always a default group state.
  pub record Call : Type 0 where
    pub group_id : ℕ
    pub replica_id : ℕ
    pub group_state : GroupState
    pub applys : List (Apply W)

  -- What `handle_apply` leaves: the senders, the applied state, the calls and the replies.
  pub record Applied : Type 0 where
    pub senders : PendingSenderQueue
    pub state : LocalApplyState
    pub calls : List Call
    pub replies : Replies

  -- The entries are not empty: `l` is the last.
  unfoldable pub apply_entries :
      Entry → ApplyData → PendingSenderQueue → LocalApplyState → Outcome Error Applied
  unfolding handle_entries push_pending_proposals
  apply_entries l apply q state = do
    let (q₁, told) = push_pending_proposals apply.proposals q
    (applys, q₂, told') ← handle_entries apply.group_id apply.entries q₁
    ok (record {
      senders = q₂;
      state = record { applied_index = l.index; applied_term = l.term };
      calls =
          record {
            group_id = apply.group_id;
            replica_id = apply.replica_id;
            group_state = default_state;
            applys = applys;
          }
          ∷ [];
      replies = told ++ told';
    })

  unfoldable pub handle_apply :
      ApplyData → PendingSenderQueue → LocalApplyState → Outcome Error Applied
  unfolding apply_entries
  handle_apply apply q state =
      if ltb apply.commit_index state.applied_index || ltb apply.commit_term state.applied_term
      then panic
      else elim (last apply.entries) [
        | none ↦ ok (record { senders = q; state = state; calls = []; replies = [] })
        | some l ↦ apply_entries l apply q state
      ]

  unfoldable pub handle_applys :
      List ApplyData → PendingSenderQueue → LocalApplyState → Outcome Error Applied
  unfolding handle_apply
  handle_applys [] q state = ok (record { senders = q; state = state; calls = []; replies = [] })
  handle_applys (apply ∷ applys) q state = do
    first ← handle_apply apply q state
    rest ← handle_applys applys first.senders first.state
    ok (record rest { calls = first.calls ++ rest.calls; replies = first.replies ++ rest.replies })
