-- ===== src/Queue.antt =====
-- The queue of server/src/inbox/queue.ts. A job is known by the number of its promise; `after` is
-- the tail that it was chained to, `none` for a promise that is resolved. What the runtime does
-- with the promises is `begin`, `settle` and `clean`.
pub mod Links
pub mod Serial
pub mod Ready
mod Examples
use shopify_vitrina.Base.{
  ℕ, suc, Bool, true, false, ◌&&◌, Option, none, some, List, [], ◌∷◌, if◌then◌else◌, eqb, Text,
  Dict, lookup, insert, remove,
}
use shopify_vitrina.Inbox.Ids.{includes}

pub record Job : Type 0 where
  pub id : ℕ
  pub key : Text
  pub after : Option ℕ

pub record PerConversationQueue : Type 0 where
  pub tails : Dict ℕ
  -- The newest first.
  pub jobs : List Job
  pub started : List ℕ
  pub settled : List ℕ
  pub next : ℕ

unfoldable pub enqueue : PerConversationQueue → Text → PerConversationQueue
enqueue q key = record q {
  tails = insert key q.next q.tails;
  jobs = record { id = q.next; key = key; after = lookup key q.tails } ∷ q.jobs;
  next = suc q.next;
}

unfoldable pub find_job : ℕ → List Job → Option Job
find_job id [] = none
find_job id (j ∷ js) = let later = find_job id js in if eqb j.id id then some j else later

-- `previous` has settled.
unfoldable pub ready : List ℕ → Job → Bool
ready settled j = elim j.after [ none ↦ true | some p ↦ includes p settled ]

-- `previous.then(job, job)` runs the job.
unfoldable pub begin : PerConversationQueue → ℕ → PerConversationQueue
begin q id = elim (find_job id q.jobs) [
  | none ↦ q
  | some j ↦ if ready q.settled j then record q { started = id ∷ q.started } else q
]

-- The job resolves or rejects.
unfoldable pub settle : PerConversationQueue → ℕ → PerConversationQueue
settle q id = if includes id q.started then record q { settled = id ∷ q.settled } else q

abbrev is_tail : ℕ → Option ℕ → Bool
is_tail id none = false
is_tail id (some p) = eqb p id

-- The callback on the tail.
unfoldable pub clean : PerConversationQueue → ℕ → PerConversationQueue
clean q id = elim (find_job id q.jobs) [
  | none ↦ q
  | some j ↦
      if includes id q.settled && is_tail id (lookup j.key q.tails)
      then record q { tails = remove j.key q.tails }
      else q
]
