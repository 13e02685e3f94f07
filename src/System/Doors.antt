-- ===== src/System/Doors.antt =====
-- The other events that store messages, run timers, sweep and restart keep the invariant.
use shopify_vitrina.Inbox.Grown.{agent_row, insert_agent-cases}
use shopify_vitrina.Base.{
  ℕ, ◌≡◌, refl, sym, subst, true, ◌||◌, List, [], ◌∷◌, any, All, All-map_to, Text, ==_refl, arith,
  inl, inr,
}
use shopify_vitrina.Inbox.Rows.{InboxRow, InboxInput, unsettled}
use shopify_vitrina.Inbox.Tables.{Inbox, in_flight, delete_stale, list_replayable}
use shopify_vitrina.Inbox.Valid.{IsValid}
use shopify_vitrina.Inbox.Calls
use shopify_vitrina.AdminSessions.Valid.{All-delete}
use shopify_vitrina.Batcher.Timers.{deliver_now, flush, fire_retry, replay_pending}
use shopify_vitrina.Batcher.Timers.Replay.{replay_pending-remembered}
use shopify_vitrina.Batcher.Process.{Deps, seconds}
use shopify_vitrina.System.{
  System, with_inbox, with_timers, receive_agent_message, restart_process, no_timers,
}
use shopify_vitrina.System.Kept.{
  Inv, pending-remembered, pending, held, pending-deliver_now, pending-flush, pending-fire_retry,
}
use shopify_vitrina.System.Receives.{new-Inv, timers-Inv}

pub receive_agent-Inv :
    (s : System) (now : ℕ) (key : Text) (input : InboxInput)
    → Inv s
    → Inv (receive_agent_message s now key input)
unfolding receive_agent_message
receive_agent-Inv s now key input v =
    elim (insert_agent-cases s.store.files.inbox (seconds now) key input) [
      | inl (b, e) ↦
          rw (e, receive_agent_message)
            (subst (λ q. Inv (record s { store = with_inbox s.store q.0 })) (sym e) v)
      | inr e ↦
          rw (e, receive_agent_message)
            (subst
              (λ q. Inv (record s {
                store = with_timers (with_inbox s.store q.0) (deliver_now s.store.timers key);
              }))
              (sym e)
              (new-Inv s (agent_row s.store.files.inbox (seconds now) key input)
                (deliver_now s.store.timers key) s.released (own s.store.files.inbox).0
                (rw
                  (
                    (own s.store.files.inbox).1,
                    pending-deliver_now key key s.store.timers,
                    ==_refl key,
                  )
                  refl)
                (λ k h. rw (pending-deliver_now k key s.store.timers, h) (ground arith))
                (subst (λ q. IsValid q.0) e
                  (unfold Calls.step in
                    Calls.step-IsValid s.store.files.inbox
                      (Calls.insert_agent (seconds now) key input) v.valid))
                v))
    ]
  where
    own :
        (db : Inbox)
        → ((agent_row db (seconds now) key input).id ≡ db.next_id)
          × ((agent_row db (seconds now) key input).conversation_key ≡ key)
    own db = unfold agent_row in (refl, refl)

pub flush-Inv :
    (s : System) (phone : Text)
    → Inv s
    → Inv (record s { store = with_timers s.store (flush s.store.timers phone) })
flush-Inv s phone v =
    timers-Inv s (flush s.store.timers phone) (λ key h. pending-flush key phone s.store.timers h) v

pub retry-Inv :
    (s : System) (key : Text)
    → Inv s
    → Inv (record s { store = with_timers s.store (fire_retry s.store.timers key) })
retry-Inv s key v =
    timers-Inv s (fire_retry s.store.timers key) (λ k h. pending-fire_retry k key s.store.timers h)
      v

pub sweep-Inv :
    (s : System) (now d f : ℕ)
    → Inv s
    → Inv (record s { store = with_inbox s.store (delete_stale s.store.files.inbox now d f).0 })
unfolding delete_stale
sweep-Inv s now d f v = record {
  valid =
      unfold Calls.step delete_stale in
      Calls.step-IsValid s.store.files.inbox (Calls.sweep now d f) v.valid;
  answered = All-delete _ _ _ (All-delete _ _ s.store.files.inbox.rows v.answered);
  owned =
      All-map_to _ _ (λ t a. All-delete _ _ _ (All-delete _ _ s.store.files.inbox.rows a)) s.turns
        v.owned;
  below = v.below;
}

present :
    (rs : List InboxRow)
    → All (λ r. unsettled r.status ≡ true → any (in_flight r.conversation_key) rs ≡ true) rs
present [] = tt
present (r ∷ rs) = (
  (λ e. ground (arith, ==_refl r.conversation_key)),
  All-map_to _ _ (λ q h e. ground (arith, h e)) rs (present rs),
)

pub restart-Inv :
    (d : Deps) (s : System) (now : ℕ) → IsValid s.store.files.inbox → Inv (restart_process d s now)
unfolding restart_process
restart-Inv d s now v = record {
  valid = v;
  answered =
      All-map_to _ _ (λ r h e. again r.id r.conversation_key (h e)) s.store.files.inbox.rows
        (present s.store.files.inbox.rows);
  owned = tt;
  below = tt;
}
  where
    again :
        (id : ℕ) (key : Text)
        → any (in_flight key) s.store.files.inbox.rows ≡ true
        → (pending key
              (replay_pending d.windows no_timers now (list_replayable s.store.files.inbox))
            || held id key [])
          ≡ true
    again id key h = ground (
      arith,
      replay_pending-remembered d.windows no_timers now s.store.files.inbox key,
      pending-remembered key
          (replay_pending d.windows no_timers now (list_replayable s.store.files.inbox)),
      h,
    )
