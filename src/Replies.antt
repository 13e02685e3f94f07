-- ===== src/Replies.antt =====
-- Where the caller of an agent waits for its answer: server/src/egress/agent-reply.ts. A promise is
-- a number; `settled` has what became of each, and `posted` the callbacks that were sent. The timer
-- of a waiter stands and falls with its entry of the map, and its time is left out.
pub mod Past
pub mod Verdicts
pub mod Answered
mod Examples
use shopify_vitrina.Base.{
  ℕ, suc, Bool, true, false, Option, none, some, List, [], ◌∷◌, ◌++◌, if◌then◌else◌, eqb, Text,
  Dict, lookup, insert, remove,
}
use shopify_vitrina.Turn.{truthy}

pub data Verdict : Type 0 where
  replied : Text → Verdict
  timed_out : Verdict
  turn_failed : Verdict

pub record Callback : Type 0 where
  pub url : Text
  pub conversation_key : Text
  pub reply : Text

pub record AgentReplies : Type 0 where
  pub waiters : Dict ℕ
  pub settled : List (ℕ × Verdict)
  pub posted : List Callback
  -- The next promise.
  pub next : ℕ

pub record ReplyRoute : Type 0 where
  pub conversation_key : Text
  pub reply_to : Option Text

unfoldable pub verdict : ℕ → List (ℕ × Verdict) → Option Verdict
verdict p [] = none
verdict p (entry ∷ entries) =
    let later = verdict p entries in if eqb entry.0 p then some entry.1 else later

-- A promise is settled once.
unfoldable pub settle : ℕ → Verdict → List (ℕ × Verdict) → List (ℕ × Verdict)
settle p v entries = elim (verdict p entries) [ none ↦ (p, v) ∷ entries | some w ↦ entries ]

abbrev with_waiter : AgentReplies → Text → AgentReplies
with_waiter r key = record r { waiters = insert key r.next r.waiters; next = suc r.next }

-- `none` for a ConversationBusyError.
unfoldable pub register : AgentReplies → Text → Option (AgentReplies × ℕ)
register r key = elim (lookup key r.waiters) [
  | none ↦ some (with_waiter r key, r.next)
  | some p ↦ none
]

-- The waiter is dropped from the map, and its promise settled.
unfoldable pub settle_waiter : AgentReplies → Text → ℕ → Verdict → AgentReplies
settle_waiter r key p v = record r {
  waiters = remove key r.waiters;
  settled = settle p v r.settled;
}

unfoldable pub release : AgentReplies → Text → ℕ → AgentReplies
release r key p = elim (lookup key r.waiters) [
  | none ↦ r
  | some current ↦ if eqb current p then record r { waiters = remove key r.waiters } else r
]

-- The timer of the conversation's waiter comes due.
unfoldable pub time_out : AgentReplies → Text → AgentReplies
time_out r key = elim (lookup key r.waiters) [ none ↦ r | some p ↦ settle_waiter r key p timed_out ]

-- With whether it returns; `fetch` says whether the answer is ok.
unfoldable pub post_callback :
    Option (Callback → Bool) → AgentReplies → Callback → AgentReplies × Bool
post_callback none r c = (r, false)
post_callback (some fetch) r c = (record r { posted = r.posted ++ c ∷ [] }, fetch c)

unfoldable pub deliver :
    Option (Callback → Bool) → AgentReplies → ReplyRoute → Text → AgentReplies × Bool
deliver fetch r route reply = elim (lookup route.conversation_key r.waiters) [
  | none ↦ elim (truthy route.reply_to) [
    | none ↦ (r, true)
    | some url ↦
        post_callback fetch r
          (record { url = url; conversation_key = route.conversation_key; reply = reply })
  ]
  | some p ↦ (settle_waiter r route.conversation_key p (replied reply), true)
]

unfoldable pub fail : AgentReplies → Text → AgentReplies
fail r key = elim (lookup key r.waiters) [ none ↦ r | some p ↦ settle_waiter r key p turn_failed ]
