-- ===== src/System/Chained.antt =====
-- The batcher at work with the queue of server/src/inbox/queue.ts in full: a conversation that is
-- handed to the queue becomes a job of it, a turn belongs to the job that runs it, and the job
-- settles when its turn ends. Times are milliseconds.
use shopify_vitrina.Base.{
  ℕ, Bool, ◌&&◌, not, Option, none, some, List, [], ◌∷◌, if◌then◌else◌, map, eqb, Text,
}
use shopify_vitrina.Turn.{Role}
use shopify_vitrina.Inbox.{InboxInput}
use shopify_vitrina.Inbox.Ids.{includes}
use shopify_vitrina.Batcher.Process.{Deps, Store, Running, begin_batch, finish_batch}
use shopify_vitrina.Webhook.{InboundMessage}
use shopify_vitrina.Queue.{Job, PerConversationQueue, enqueue, find_job, ready, begin, settle}
use shopify_vitrina.Queue.Serial.{empty_queue}
use shopify_vitrina.System.{
  System, receive, receive_agent, close_burst, retry, sweep, restart, step, take_first, drop_first,
  with_timers,
}

pub record Turn : Type 0 where
  pub job : Job
  pub running : Running

pub record Chained : Type 0 where
  pub store : Store
  pub released : List Text
  pub turns : List Turn
  pub queue : PerConversationQueue

pub data Happening : Type 0 where
  message : ℕ → Text → InboundMessage → Happening
  agent_message : ℕ → Text → InboxInput → Happening
  burst_due : Text → Happening
  retry_due : Text → Happening
  swept : ℕ → ℕ → ℕ → Happening
  restarted : ℕ → Happening
  -- The runtime comes to a job; the turn of a job returns or throws.
  job_begins : ℕ → ℕ → Happening
  job_ends : ℕ → ℕ → Bool → Happening

unfoldable pub enqueue_all : PerConversationQueue → List Text → PerConversationQueue
enqueue_all q [] = q
enqueue_all q (key ∷ keys) = enqueue_all (enqueue q key) keys

-- What the timers have handed over is in the queue.
abbrev pub chain : System → List Turn → PerConversationQueue → Chained
chain s turns q = record {
  store = with_timers s.store (record s.store.timers { queued = [] });
  released = s.released;
  turns = turns;
  queue = enqueue_all q s.store.timers.queued;
}

abbrev pub as_system : Chained → System
as_system c = record {
  store = c.store;
  released = c.released;
  turns = map (λ t. t.running) c.turns;
}

-- The job, if it has not been started and what it was chained to has settled.
unfoldable pub startable : ℕ → PerConversationQueue → Option Job
startable id q = elim (find_job id q.jobs) [
  | none ↦ none
  | some j ↦ if ready q.settled j && not (includes id q.started) then some j else none
]

-- `processBatch` up to its turn; without one, the job has settled.
abbrev pub begun : Chained → Job → Store × Option Running → Chained
begun c j (store, none) = record c { store = store; queue = settle (begin c.queue j.id) j.id }
begun c j (store, some r) = record c {
  store = store;
  turns = record { job = j; running = r } ∷ c.turns;
  queue = begin c.queue j.id;
}

unfoldable pub begin_job : Deps → Chained → ℕ → ℕ → Chained
begin_job d c now id = elim (startable id c.queue) [
  | none ↦ c
  | some j ↦ begun c j (begin_batch d c.store now j.key)
]

abbrev pub of_job : ℕ → Turn → Bool
of_job id t = eqb t.job.id id

unfoldable pub end_job : Chained → ℕ → ℕ → Bool → Chained
end_job c now id returned = elim (take_first (of_job id) c.turns) [
  | none ↦ c
  | some t ↦ record c {
    store = finish_batch c.store now t.running returned;
    turns = drop_first (of_job id) c.turns;
    queue = settle c.queue t.job.id;
  }
]

unfoldable pub advance : Deps → (Text → Role) → Chained → Happening → Chained
advance d role_for c (message now digest m) =
    chain (step d role_for (as_system c) (receive now digest m)) c.turns c.queue
advance d role_for c (agent_message now key input) =
    chain (step d role_for (as_system c) (receive_agent now key input)) c.turns c.queue
advance d role_for c (burst_due phone) =
    chain (step d role_for (as_system c) (close_burst phone)) c.turns c.queue
advance d role_for c (retry_due key) =
    chain (step d role_for (as_system c) (retry key)) c.turns c.queue
advance d role_for c (swept now done_days failed_days) =
    chain (step d role_for (as_system c) (sweep now done_days failed_days)) c.turns c.queue
advance d role_for c (restarted now) =
    chain (step d role_for (as_system c) (restart now)) [] empty_queue
advance d role_for c (job_begins now id) = begin_job d c now id
advance d role_for c (job_ends now id returned) = end_job c now id returned

unfoldable pub advances : Deps → (Text → Role) → Chained → List Happening → Chained
advances d role_for c [] = c
advances d role_for c (h ∷ hs) = advances d role_for (advance d role_for c h) hs
