-- ===== src/Apply/Context.antt =====
-- What a membership change carries to the state machine: oceanraft/src/apply.rs,
-- `ApplyDelegate::handle_conf_change`.
use oceanraft.Common.{ℕ, ◌≡◌, refl, true, false, List, [], Option, none, some, ok}
use oceanraft.Types.{Entry, ConfState}
use oceanraft.Types.Membership.{ConfChangeV2, MembershipRequestContext}
use oceanraft.Types.Reply.{Sender}
use oceanraft.Apply.Rsm.{membership}
use oceanraft.Apply.Pending.{PendingSenderQueue, find_pending, find_pending_conf_change}
use oceanraft.Apply.Delegate.{
  Codec, is_nil, sender_of, parse_conf_change, commit_conf_change, handle_conf_change,
}

module _ {W : Type 0} (codec : Codec W) where
  find_pending-conf :
      (term index : ℕ) (q : PendingSenderQueue)
      → find_pending term index true q
        ≡ ok (
          (find_pending_conf_change term index q).0,
          (find_pending_conf_change term index q).1,
          [],
        )
  unfolding find_pending
  find_pending-conf term index q = refl

  commit_conf_change-ok :
      (g : ℕ) (e : Entry) (q : PendingSenderQueue) (cc_v2 : ConfChangeV2)
      (ctx : MembershipRequestContext) (cs : ConfState) (tx : Option Sender)
      → codec.commit (record {
        group_id = g;
        index = e.index;
        term = e.term;
        conf_change = cc_v2;
        change_request = some ctx.change_data;
      })
        ≡ ok cs
      → commit_conf_change codec g e tx cc_v2 (some ctx) q
        ≡ ok (
          some (
              membership (record {
                group_id = g;
                index = e.index;
                term = e.term;
                change_data = some ctx.change_data;
                ctx = none;
                conf_state = cs;
                tx = tx;
              })),
          q,
          [],
        )
  unfolding commit_conf_change
  commit_conf_change-ok g e q cc_v2 ctx cs tx committed = rw (committed, commit_conf_change) refl

  -- The bug in the hand-over of a membership change: the request context is taken before the user's
  -- part of it is read, so that the state machine never sees the context that the user gave.
  pub handle_conf_change_drops_context :
      (g : ℕ) (e : Entry) (q : PendingSenderQueue) (cc_v2 : ConfChangeV2)
      (ctx : MembershipRequestContext) (u : List ℕ) (cs : ConfState)
      → is_nil e.payload ≡ false
      → parse_conf_change codec e ≡ ok (cc_v2, some ctx)
      → ctx.user_ctx ≡ some u
      → codec.commit (record {
        group_id = g;
        index = e.index;
        term = e.term;
        conf_change = cc_v2;
        change_request = some ctx.change_data;
      })
        ≡ ok cs
      → (tx : Option Sender) × (q' : PendingSenderQueue) × (handle_conf_change codec g e q
          ≡ ok (
            some (
                membership (record {
                  group_id = g;
                  index = e.index;
                  term = e.term;
                  change_data = some ctx.change_data;
                  ctx = none;
                  conf_state = cs;
                  tx = tx;
                })),
            q',
            [],
          ))
  unfolding handle_conf_change
  handle_conf_change_drops_context g e q cc_v2 ctx u cs full parsed given committed =
      let tx = sender_of (find_pending_conf_change e.term e.index q).0 in
      let q' = (find_pending_conf_change e.term e.index q).1 in
      (
        tx,
        q',
        rw
            (
              full,
              find_pending-conf e.term e.index q,
              parsed,
              commit_conf_change-ok g e q' cc_v2 ctx cs tx committed,
            )
            refl,
      )
