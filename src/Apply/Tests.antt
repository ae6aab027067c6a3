-- ===== src/Apply/Tests.antt =====
-- Runs of oceanraft/src/apply.rs on small applys.
use oceanraft.Common.{
  ℕ, ◌≡◌, refl, true, false, List, [], ◌∷◌, map, Option, none, some, ◌+◌, ok, arith,
}
use oceanraft.Types.{Entry, EntryType, entry_normal, entry_conf_change, default_conf_state}
use oceanraft.Types.Reply.{Sender}
use oceanraft.Types.Membership.{
  ConfChange, ConfChangeV2, ConfChangeType, ConfChangeTransition, MembershipChangeData,
  MembershipRequestContext,
}
use oceanraft.Proposal.Queue.{Proposal}
use oceanraft.Group.State.{new as default_state}
use oceanraft.Apply.Batch.{ApplyData, PendingApplys, pending_at, BatchConfig, batch_msgs}
use oceanraft.Apply.Fifo.{Advance, start, all_applys}
use oceanraft.Apply.Fifo.Total.{
  entries_of, proposals_of, entries_for, proposals_for, batch_msgs_fifo,
}
use oceanraft.Apply.Rsm.{Apply, membership}
use oceanraft.Apply.Pending.{PendingSender, PendingSenderQueue}
use oceanraft.Apply.Delegate.{Codec, handle_apply, handle_conf_change, parse_conf_change}
use oceanraft.Apply.Delivery.{Ticket, ticket, own, foreign, done, handle_apply_lem}
use oceanraft.Apply.Context.{handle_conf_change_drops_context}

abbrev entry : EntryType → ℕ → ℕ → List ℕ → Entry
entry kind index term payload = record {
  entry_type = kind;
  term = term;
  index = index;
  payload = payload;
  context = [];
  sync_log = false;
}

abbrev proposal : ℕ → ℕ → Proposal
proposal index term = record { index = index; term = term; is_conf_change = false; tx = some index }

abbrev apply : ℕ → ℕ → List Entry → List Proposal → ApplyData
apply group index entries proposals = record {
  replica_id = group + 10;
  group_id = group;
  term = 2;
  commit_index = index;
  commit_term = 2;
  entries = entries;
  entries_size = 1;
  proposals = proposals;
}

-- Two groups on a node, and a third apply that joins the batch of the first group.
abbrev first : ApplyData
first = apply 1 4 (entry entry_normal 4 2 (1 ∷ []) ∷ []) (proposal 4 2 ∷ [])

abbrev other : ApplyData
other = apply 2 9 (entry entry_normal 9 2 (3 ∷ []) ∷ []) []

abbrev second : ApplyData
second = apply 1 5 (entry entry_normal 5 2 (2 ∷ []) ∷ []) []

abbrev messages : List (List (ℕ × ApplyData))
messages = ((1, first) ∷ (2, other) ∷ []) ∷ ((1, second) ∷ []) ∷ []

abbrev config : BatchConfig
config = record { batch_apply = true; batch_size = 8 }

messages-Advance : Advance (λ g. g + 10) start (all_applys messages)
unfolding all_applys
messages-Advance = (
  refl,
  refl,
  omega arith,
  omega arith,
  omega arith,
  (
    refl,
    refl,
    omega arith,
    omega arith,
    omega arith,
    (refl, refl, omega arith, omega arith, omega arith, tt),
  ),
)

batch_msgs_fifo_example :
    (p : PendingApplys) × (batch_msgs config messages ≡ ok p)
    × ((g : ℕ) → entries_of (pending_at g (g + 10) p) ≡ entries_for g messages)
    × ((g : ℕ) → proposals_of (pending_at g (g + 10) p) ≡ proposals_for g messages)
batch_msgs_fifo_example = batch_msgs_fifo (λ g. g + 10) config messages messages-Advance

abbrev sender : ℕ → ℕ → PendingSender
sender index term = record { index = index; term = term; tx = some index }

abbrev senders : PendingSenderQueue
senders = record { normals = sender 3 1 ∷ sender 4 2 ∷ sender 5 2 ∷ []; conf_change = none }

-- A request is its payload; a change of membership adds the node that its payload names.
abbrev change : MembershipChangeData
change = record { transition = ConfChangeTransition.auto; changes = []; replicas = [] }

abbrev context : MembershipRequestContext
context = record { change_data = change; user_ctx = some (6 ∷ []) }

abbrev add : ConfChange
add = record { change_type = ConfChangeType.add_node; node_id = 3; context = []; id = 0 }

abbrev add_v2 : ConfChangeV2
add_v2 = record {
  transition = ConfChangeTransition.auto;
  changes = record { change_type = ConfChangeType.add_node; node_id = 3 } ∷ [];
  context = [];
}

abbrev codec : Codec (List ℕ)
codec = record {
  decode_request = λ bytes. ok bytes;
  decode_conf_change = λ bytes. ok add;
  decode_conf_change_v2 = λ bytes. ok add_v2;
  decode_optional_context = λ bytes. ok (some context);
  decode_context = λ bytes. ok context;
  into_v2 = λ cc. add_v2;
  commit = λ c. ok default_conf_state;
}

abbrev idle : PendingSenderQueue
idle = record { normals = []; conf_change = none }

abbrev tickets : List Ticket
tickets =
    record { index = 4; term = 2; tx = some 4 } ∷ record { index = 5; term = 2; tx = none } ∷ []

abbrev whole : ApplyData
whole =
    apply 1 5 (entry entry_normal 4 2 (1 ∷ []) ∷ entry entry_normal 5 2 (2 ∷ []) ∷ [])
      (proposal 4 2 ∷ [])

handle_apply_lem_example :
    (applys : List (Apply (List ℕ))) × (handle_apply codec whole idle
        (record { applied_term = 2; applied_index = 3 })
      ≡ ok (record {
        senders = idle;
        state = record { applied_index = 5; applied_term = 2 };
        calls =
            record { group_id = 1; replica_id = 11; group_state = default_state; applys = applys }
            ∷ [];
        replies = [];
      }))
    × (map ticket applys ≡ tickets)
handle_apply_lem_example =
    handle_apply_lem codec whole (entry entry_normal 5 2 (2 ∷ [])) tickets idle
      (record { applied_term = 2; applied_index = 3 }) refl (omega arith) (omega arith) refl
      (refl, tt)
      (own _ (sender 4 2) (1 ∷ []) refl refl refl refl refl
        (foreign _ (2 ∷ []) refl refl refl tt done))

abbrev conf_entry : Entry
conf_entry = entry entry_conf_change 7 2 (3 ∷ [])

handle_conf_change_drops_context_example :
    (tx : Option Sender) × (q' : PendingSenderQueue) × (handle_conf_change codec 1 conf_entry idle
      ≡ ok (
        some (
            membership (record {
              group_id = 1;
              index = 7;
              term = 2;
              change_data = some change;
              ctx = none;
              conf_state = default_conf_state;
              tx = tx;
            })),
        q',
        [],
      ))
unfolding parse_conf_change
handle_conf_change_drops_context_example =
    handle_conf_change_drops_context codec 1 conf_entry idle add_v2 context (6 ∷ [])
      default_conf_state refl refl refl refl
