-- ===== src/Batcher/Timers/Replay.antt =====
-- A restart forgets no conversation.
use shopify_vitrina.Base.{
  ℕ, ◌≡◌, refl, ap, ◌∙◌, Bool, true, false, ◌||◌, Option, none, some, List, [], ◌∷◌, ◌++◌, any,
  if◌then◌else◌, Text, ◌==◌, ==→eq, Dict, lookup, insert, lookup-insert, select, arith,
}
use shopify_vitrina.Inbox.Rows.{MessageKind, text, InboxRow, is_agent, unsettled}
use shopify_vitrina.Inbox.Tables.{Inbox, in_flight, list_replayable}
use shopify_vitrina.Batcher.Timers.{
  Windows, PhoneBurst, Timers, schedule, deliver_now, next_burst, conversations_of,
  immediate_before, replay_all, replay_pending,
}

-- The batcher will come to a conversation: it has a burst, or was handed to the queue.
abbrev pub is_some : Option PhoneBurst → Bool
is_some none = false
is_some (some b) = true

abbrev pub remembered : Text → Timers → Bool
remembered key s = is_some (lookup key s.bursts) || any (λ q. q == key) s.queued

has_entry : Text → Dict Bool → Bool
has_entry key m = any (λ e. e.0 == key) m

has_entry-insert :
    (key k : Text) (b : Bool) (m : Dict Bool)
    → has_entry key (insert k b m) ≡ (k == key || has_entry key m)
unfolding has_entry insert
has_entry-insert key k b [] = refl
has_entry-insert key k b (e ∷ m) = ground (arith, has_entry-insert key k b m, ==→eq e.0 k)

has_entry-conversations_of :
    (key : Text) (m : Dict Bool) (rows : List InboxRow)
    → has_entry key (conversations_of m rows)
      ≡ (has_entry key m || any (λ r. r.conversation_key == key) rows)
unfolding conversations_of
has_entry-conversations_of key m [] = ground arith
has_entry-conversations_of key m (r ∷ rows) =
    has_entry-conversations_of key (insert r.conversation_key _ m) rows
    ∙ ground (
      arith,
      has_entry-insert key r.conversation_key
          (immediate_before (lookup r.conversation_key m) || is_agent r.principal_kind) m,
    )

pub any-snoc :
    (key k : Text) (ks : List Text)
    → any (λ q. q == key) (ks ++ k ∷ []) ≡ (any (λ q. q == key) ks || (k == key))
any-snoc key k [] = ground arith
any-snoc key k (q ∷ ks) = ground (arith, any-snoc key k ks)

pub remembered-deliver_now :
    (key k : Text) (s : Timers) → remembered key (deliver_now s k) ≡ (k == key || remembered key s)
unfolding deliver_now
remembered-deliver_now key k s = ground (arith, any-snoc key k s.queued)

pub remembered-schedule :
    (w : Windows) (key k : Text) (kind : MessageKind) (now : ℕ) (s : Timers)
    → remembered key (schedule w s k kind now) ≡ (k == key || remembered key s)
unfolding schedule
remembered-schedule w key k kind now s =
    rw (lookup-insert k key (next_burst w (lookup k s.bursts) kind now) s.bursts) (ground arith)

remembered-replay_all :
    (w : Windows) (key : Text) (now : ℕ) (s : Timers) (m : Dict Bool)
    → remembered key (replay_all w s now m) ≡ (remembered key s || has_entry key m)
unfolding replay_all has_entry
remembered-replay_all w key now s [] = ground arith
remembered-replay_all w key now s ((k, b) ∷ m) =
    remembered-replay_all w key now (if b then deliver_now s k else schedule w s k text now) m
    ∙ ground (arith, remembered-deliver_now key k s, remembered-schedule w key k text now s)

any-replayable :
    (key : Text) (rs : List InboxRow)
    → any (λ r. r.conversation_key == key) (select (λ r. unsettled r.status) rs)
      ≡ any (in_flight key) rs
any-replayable key [] = refl
any-replayable key (r ∷ rs) = ground (arith, any-replayable key rs)

-- After the replay of what a restart finds in the inbox, a conversation has a burst or is queued
-- exactly if it had before, or one of its rows is not settled.
pub replay_pending-remembered :
    (w : Windows) (s : Timers) (now : ℕ) (db : Inbox) (key : Text)
    → remembered key (replay_pending w s now (list_replayable db))
      ≡ (remembered key s || any (in_flight key) db.rows)
unfolding replay_pending list_replayable has_entry
replay_pending-remembered w s now db key =
    remembered-replay_all w key now s
      (conversations_of [] (select (λ r. unsettled r.status) db.rows))
    ∙ ap (λ b. remembered key s || b)
        (has_entry-conversations_of key [] (select (λ r. unsettled r.status) db.rows)
          ∙ any-replayable key db.rows)
