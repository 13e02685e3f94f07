-- ===== src/Batcher/Timers.antt =====
-- The timers of `InboxBatcher`: `schedule`, `deliverNow`, `replayPending`, `stop`, `flush` and
-- `armRetry`. A timer is the millisecond at which it is due; the timers' callbacks are `flush` and
-- `fire_retry`. `queued` is what has been handed to the queue, in order.
pub mod Burst
pub mod Replay
use shopify_vitrina.Base.{
  ℕ, ◌+◌, ◌-◌, Bool, true, false, ◌&&◌, ◌||◌, not, Option, none, some, List, [], ◌∷◌, ◌++◌,
  if◌then◌else◌, length, Text, Dict, lookup, insert, remove, max,
}
use shopify_vitrina.Inbox.Rows.{MessageKind, text, media, InboxRow, is_agent}
use shopify_vitrina.Batcher.Prompt.{is_media}

abbrev pub retry_delay_ms : ℕ
retry_delay_ms = 30_000

-- The four windows of `InboxBatcherDeps`.
pub record Windows : Type 0 where
  pub debounce_ms : ℕ
  pub max_wait_ms : ℕ
  pub media_debounce_ms : ℕ
  pub media_max_wait_ms : ℕ

pub record PhoneBurst : Type 0 where
  pub silence : ℕ
  pub cap : ℕ
  pub has_media : Bool
  pub started_at : ℕ

pub record Timers : Type 0 where
  pub bursts : Dict PhoneBurst
  pub retries : Dict ℕ
  pub queued : List Text

unfoldable pub arm_silence : Windows → Bool → ℕ → ℕ
arm_silence w has_media now = now + (if has_media then w.media_debounce_ms else w.debounce_ms)

-- `Math.max(0, mediaMaxWaitMs - (now - startedAt))` is a subtraction that stops at 0.
unfoldable pub upgraded_cap : Windows → ℕ → ℕ → ℕ
upgraded_cap w started_at now = now + (w.media_max_wait_ms + started_at - now)

unfoldable pub continue_burst : Windows → PhoneBurst → MessageKind → ℕ → PhoneBurst
continue_burst w b kind now =
    let upgraded = is_media kind && not b.has_media in
    let has_media = upgraded || b.has_media in
    record {
      silence = arm_silence w has_media now;
      cap = if upgraded then upgraded_cap w b.started_at now else b.cap;
      has_media = has_media;
      started_at = b.started_at;
    }

unfoldable pub open_burst : Windows → MessageKind → ℕ → PhoneBurst
open_burst w kind now = record {
  silence = arm_silence w (is_media kind) now;
  cap = now + (if is_media kind then w.media_max_wait_ms else w.max_wait_ms);
  has_media = is_media kind;
  started_at = now;
}

abbrev pub next_burst : Windows → Option PhoneBurst → MessageKind → ℕ → PhoneBurst
next_burst w none kind now = open_burst w kind now
next_burst w (some b) kind now = continue_burst w b kind now

unfoldable pub schedule : Windows → Timers → Text → MessageKind → ℕ → Timers
schedule w s phone kind now = record s {
  bursts = insert phone (next_burst w (lookup phone s.bursts) kind now) s.bursts;
}

unfoldable pub deliver_now : Timers → Text → Timers
deliver_now s key = record s { queued = s.queued ++ key ∷ [] }

unfoldable pub flush : Timers → Text → Timers
flush s phone = elim (lookup phone s.bursts) [
  | none ↦ s
  | some b ↦ record s { bursts = remove phone s.bursts; queued = s.queued ++ phone ∷ [] }
]

unfoldable pub arm_retry : Timers → Text → ℕ → Timers
arm_retry s key now = elim (lookup key s.retries) [
  | some due ↦ s
  | none ↦ record s { retries = insert key (now + retry_delay_ms) s.retries }
]

-- The callback of a retry's timer.
unfoldable pub fire_retry : Timers → Text → Timers
fire_retry s key =
    let s' = record s { retries = remove key s.retries } in
    elim (lookup key s.bursts) [ some b ↦ s' | none ↦ deliver_now s' key ]

unfoldable pub stop : Timers → Timers
stop s = record s { bursts = []; retries = [] }

unfoldable pub pending_phones : Timers → ℕ
pending_phones s = length s.bursts

-- `conversations`, the map from a conversation to whether it is run at once.
abbrev immediate_before : Option Bool → Bool
immediate_before none = false
immediate_before (some b) = b

unfoldable pub conversations_of : Dict Bool → List InboxRow → Dict Bool
conversations_of m [] = m
conversations_of m (r ∷ rows) =
    conversations_of
      (insert r.conversation_key
        (immediate_before (lookup r.conversation_key m) || is_agent r.principal_kind) m)
      rows

unfoldable pub replay_all : Windows → Timers → ℕ → Dict Bool → Timers
replay_all w s now [] = s
replay_all w s now ((key, immediate) ∷ m) =
    replay_all w (if immediate then deliver_now s key else schedule w s key text now) now m

-- On the rows of `listReplayableInbox`.
unfoldable pub replay_pending : Windows → Timers → ℕ → List InboxRow → Timers
replay_pending w s now rows = replay_all w s now (conversations_of [] rows)
