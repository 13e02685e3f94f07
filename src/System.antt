-- ===== src/System.antt =====
-- The batcher at work, over server/src/inbox/batcher.ts and its callers: the doors that store
-- messages, the timers, the queue and the turns, one event at a time. `queued` of the timers holds
-- what still waits in the queue. A job that waits may start at any time, so the runs here are those
-- of server/src/inbox/queue.ts, which keeps the jobs of a conversation in turn, and more; Chained
-- has that queue itself. Times are milliseconds.
pub mod Kept
pub mod Rows
pub mod Receives
pub mod Doors
pub mod Turns
pub mod Starts
pub mod Never
pub mod Chained
pub mod Taken
pub mod Open
pub mod Apart
mod Examples
use shopify_vitrina.Base.{
  ℕ, ◌/◌, Bool, true, false, ◌&&◌, ◌||◌, Option, none, some, List, [], ◌∷◌, if◌then◌else◌, any,
  Text, ◌==◌,
}
use shopify_vitrina.Turn.{Role}
use shopify_vitrina.Inbox.{
  Inbox, InboxRow, InboxInput, insert_agent_message, delete_stale, list_replayable,
}
use shopify_vitrina.Batcher.Timers.{Timers, deliver_now, flush, fire_retry, stop, replay_pending}
use shopify_vitrina.Batcher.Process.{Deps, Store, Running, begin_batch, finish_batch, seconds}
use shopify_vitrina.Webhook.{InboundMessage, Door, handle_inbound}

pub record System : Type 0 where
  pub store : Store
  pub released : List Text
  -- The turns that run.
  pub turns : List Running

pub data Event : Type 0 where
  -- A message at the WhatsApp door, with the digest of its event.
  receive : ℕ → Text → InboundMessage → Event
  -- A message at the agent door, with its conversation.
  receive_agent : ℕ → Text → InboxInput → Event
  -- The silence or the cap of a burst, and a retry, come due.
  close_burst : Text → Event
  retry : Text → Event
  -- The queue comes to a conversation; a turn of it returns or throws.
  start : ℕ → Text → Event
  finish : ℕ → Text → Bool → Event
  -- The sweep of old rows, with the days it keeps.
  sweep : ℕ → ℕ → ℕ → Event
  -- The process dies, and a new one replays the inbox.
  restart : ℕ → Event

abbrev pub with_inbox : Store → Inbox → Store
with_inbox s db = record s { files = record s.files { inbox = db } }

abbrev pub with_timers : Store → Timers → Store
with_timers s t = record s { timers = t }

unfoldable pub receive_message : Deps → (Text → Role) → System → ℕ → Text → InboundMessage → System
receive_message d role_for s now digest m =
    let door =
      handle_inbound d.windows role_for
        (record { inbox = s.store.files.inbox; timers = s.store.timers; released = s.released }) now
        digest m in
    record s {
      store = with_timers (with_inbox s.store door.inbox) door.timers;
      released = door.released;
    }

-- The row of an accepted message is run at once.
unfoldable pub receive_agent_message : System → ℕ → Text → InboxInput → System
receive_agent_message s now key input =
    let (db, out) = insert_agent_message s.store.files.inbox (seconds now) key input in
    elim out.row [
      | none ↦ record s { store = with_inbox s.store db }
      | some r ↦ record s {
        store = with_timers (with_inbox s.store db) (deliver_now s.store.timers key);
      }
    ]

abbrev pub of_key : Text → Running → Bool
of_key key t = t.key == key

-- The first of its kind, and what is left without it.
unfoldable pub take_first {ℓ} : {A : Type ℓ} → (A → Bool) → List A → Option A
take_first p [] = none
take_first p (x ∷ xs) = let rest = take_first p xs in if p x then some x else rest

unfoldable pub drop_first {ℓ} : {A : Type ℓ} → (A → Bool) → List A → List A
drop_first p [] = []
drop_first p (x ∷ xs) = let rest = drop_first p xs in if p x then xs else x ∷ rest

abbrev add_turn : Option Running → List Running → List Running
add_turn none ts = ts
add_turn (some t) ts = t ∷ ts

-- A job of the conversation starts, if one waits.
unfoldable pub start_job : Deps → System → ℕ → Text → System
start_job d s now key =
    let waiting = record s.store.timers {
      queued = drop_first (λ k. k == key) s.store.timers.queued;
    } in
    let (store, running) = begin_batch d (with_timers s.store waiting) now key in
    if any (λ k. k == key) s.store.timers.queued
    then record s { store = store; turns = add_turn running s.turns }
    else s

unfoldable pub finish_turn : System → ℕ → Text → Bool → System
finish_turn s now key returned = elim (take_first (of_key key) s.turns) [
  | none ↦ s
  | some t ↦ record s {
    store = finish_batch s.store now t returned;
    turns = drop_first (of_key key) s.turns;
  }
]

abbrev pub no_timers : Timers
no_timers = record { bursts = []; retries = []; queued = [] }

-- The timers, the queue and the turns are lost; files and tables stay.
unfoldable pub restart_process : Deps → System → ℕ → System
restart_process d s now = record s {
  store =
      with_timers s.store
        (replay_pending d.windows no_timers now (list_replayable s.store.files.inbox));
  turns = [];
}

unfoldable pub step : Deps → (Text → Role) → System → Event → System
step d role_for s (receive now digest m) = receive_message d role_for s now digest m
step d role_for s (receive_agent now key input) = receive_agent_message s now key input
step d role_for s (close_burst phone) = record s {
  store = with_timers s.store (flush s.store.timers phone);
}
step d role_for s (retry key) = record s {
  store = with_timers s.store (fire_retry s.store.timers key);
}
step d role_for s (start now key) = start_job d s now key
step d role_for s (finish now key returned) = finish_turn s now key returned
step d role_for s (sweep now done_days failed_days) = record s {
  store =
      with_inbox s.store (delete_stale s.store.files.inbox (seconds now) done_days failed_days).0;
}
step d role_for s (restart now) = restart_process d s now

unfoldable pub run : Deps → (Text → Role) → System → List Event → System
run d role_for s [] = s
run d role_for s (e ∷ es) = run d role_for (step d role_for s e) es
