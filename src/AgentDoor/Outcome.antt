-- ===== src/AgentDoor/Outcome.antt =====
-- What a POST to the agents' door comes to.
use shopify_vitrina.Base.{ℕ, ◌≡◌, true, false, none, some, Text, ◌==◌, lookup}
use shopify_vitrina.AgentRegistry.{AgentCredential, find_agent_by_token}
use shopify_vitrina.Replies.{Verdict, replied, timed_out}
use shopify_vitrina.Replies
use shopify_vitrina.AgentDoor.{
  DoorDeps, DoorState, MessageBody, Request, ErrorCode, refused, exchange_of, valid_body,
  callback_allowed, hop_of, bearer_token, no_reply_in_time, turn_failed, Response, refusal,
  accepted_call, answered, Wait,
}
use shopify_vitrina.AgentDoor.Exchanged.{MayReach, Stored, SameWaiters, Unchanged}
use shopify_vitrina.AgentDoor.Opened.{Grounds, Opened}

-- The answer that a verdict calls for.
abbrev pub answer_of : Verdict → Text → Text → Text → Response
answer_of (replied text) target key turn_key = answered text target key turn_key
answer_of timed_out target key turn_key = refusal 504 (refused no_reply_in_time)
answer_of Replies.turn_failed target key turn_key = refusal 502 (refused turn_failed)

-- The wait is over: the caller is told what became of its promise, and its spot is free.
abbrev pub Ended : Text → Text → ℕ → Text → DoorState × Verdict → DoorState × Response → Type 0
Ended target key p turn_key waited out =
    (out.0.inbox ≡ waited.0.inbox)
    × (out.0.timers ≡ waited.0.timers)
    × (lookup key out.0.replies.waiters ≡ some p → ⊥)
    × ((k : Text)
        → (key == k) ≡ false
        → lookup k out.0.replies.waiters ≡ lookup k waited.0.replies.waiters)
    × (out.1 ≡ answer_of waited.1 target key turn_key)

module _ (d : DoorDeps) (wait : Wait) (s : DoorState) (now : ℕ) (uuid uuid' : Text)
    (q : Request) where
  -- Of a known agent that may reach the target, with a valid body.
  abbrev pub Admitted : AgentCredential → MessageBody → Type 0
  Admitted c b =
      (find_agent_by_token d.codec d.registry (bearer_token d.to_lower_case q.authorization)
        ≡ some c)
      × (q.body ≡ some b)
      × (valid_body b ≡ true)
      × MayReach d c q.target (hop_of b.hop)

  -- Refused at once; called back later; or answered after a wait.
  abbrev pub Refused : DoorState × Response → Type 0
  Refused out =
      (status : ℕ) × (code : ErrorCode) × (out.1 ≡ refusal status code)
      × Unchanged s out.0
      × Grounds d s now uuid uuid' q

  abbrev pub CalledBack : DoorState × Response → Type 0
  CalledBack out =
      (c : AgentCredential) × (b : MessageBody) × (url : Text) × (key : Text) × (turn_key : Text)
      × Admitted c b
      × (b.reply_to ≡ some url)
      × (callback_allowed d.parse_url url c.callback_prefix ≡ true)
      × Stored s now uuid' (exchange_of c q.target b uuid) b.reply_to out.0 key turn_key
      × SameWaiters s out.0
      × (out.1 ≡ accepted_call key turn_key)

  abbrev pub Waited : DoorState × Response → Type 0
  Waited out =
      (c : AgentCredential) × (b : MessageBody) × (key : Text) × (turn_key : Text) × (p : ℕ)
      × (s' : DoorState) × Admitted c b
      × (b.reply_to ≡ none)
      × Stored s now uuid' (exchange_of c q.target b uuid) b.reply_to s' key turn_key
      × (lookup key s.replies.waiters ≡ none)
      × (lookup key s'.replies.waiters ≡ some p)
      × Ended q.target key p turn_key (wait s' key p) out
