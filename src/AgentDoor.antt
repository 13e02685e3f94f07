-- ===== src/AgentDoor.antt =====
-- The agents' door: server/src/inbox/a2a.ts with server/src/a2a-protocol.ts. A POST is `post`:
-- `open_post` up to the moment its caller waits for the answer, whatever goes on at the door while it
-- waits (`wait`), and `close_post` after it. Times are milliseconds.
pub mod Rules
pub mod Keys
pub mod Exchanged
pub mod Opened
pub mod Outcome
mod Examples
unfoldable pub use Rules.*
use shopify_vitrina.Base.{
  ℕ, suc, ◌⊎◌, inl, inr, is_empty, zero, ◌+◌, ◌/◌, max, Bool, true, false, ◌&&◌, ◌||◌, not, Option,
  none, some, List, [], ◌∷◌, ◌++◌, if◌then◌else◌, any, eqb, leb, ltb, length, Text, str, ◌==◌, trim,
  is_digit, starts_with, drop, take, index_of, lookup,
}
use shopify_vitrina.Turn.{truthy}
use shopify_vitrina.Inbox.Rows.{InboxInput, InboxRow, agent}
use shopify_vitrina.Inbox.Tables.{Inbox, AgentInsert, insert_agent_message}
use shopify_vitrina.Batcher.Timers.{Timers, deliver_now}
use shopify_vitrina.AgentRegistry.{AgentCredential, RegistryRow, Codec, find_agent_by_token}
use shopify_vitrina.Replies.{AgentReplies, Verdict, replied, timed_out, register, release}
use shopify_vitrina.Replies

-- The body, once the schema has taken it.
pub record MessageBody : Type 0 where
  pub text : Text
  pub correlation_id : Option Text
  pub message_id : Option Text
  pub reply_to : Option Text
  pub hop : Option ℕ

-- `body` is `none` where the schema refuses it.
pub record Request : Type 0 where
  pub target : Text
  pub authorization : Option Text
  pub body : Option MessageBody

pub data ErrorCode : Type 0 where
  unauthorized invalid_request reply_to_not_allowed : ErrorCode
  refused : RefusalCode → ErrorCode

-- What a POST comes to before anybody waits: an answer, or what is awaited, `waiting` having the
-- conversation, the promise and the turn's key.
pub data Answer : Type 0 where
  error : ℕ → ErrorCode → Answer
  accepted : Text → Text → Answer
  waiting : Text → ℕ → Text → Answer

pub record DoorState : Type 0 where
  pub inbox : Inbox
  pub timers : Timers
  pub replies : AgentReplies

pub record ExchangeInput : Type 0 where
  pub caller : Text
  pub target : Text
  pub text : Text
  pub hop : ℕ
  pub correlation_id : Text
  pub message_id : Option Text

abbrev or_uuid : Option Text → Text → Text
or_uuid none uuid = uuid
or_uuid (some s) uuid = s

unfoldable pub exchange_dedupe_key : ExchangeInput → Text → Text
exchange_dedupe_key input uuid =
    agent_conversation_prefix
    ++ input.caller
    ++ b':' ∷ input.target
    ++ b':' ∷ or_uuid input.message_id uuid

unfoldable pub key_of : ExchangeInput → Text
key_of input = agent_conversation_key input.caller input.target input.correlation_id

unfoldable pub exchange_row : ExchangeInput → Option Text → Text → InboxInput
exchange_row input reply_to uuid = record {
  dedupe_key = exchange_dedupe_key input uuid;
  phone = [];
  agent_text = input.text;
  kind = none;
  audio_path = none;
  media_ref = none;
  media_kind = none;
  media_mime = none;
  media_name = none;
  media_sent_at = none;
  agent_id = some input.target;
  principal_kind = some agent;
  principal_id = some input.caller;
  conversation_key = some (key_of input);
  reply_to = reply_to;
  hop = some input.hop;
}

abbrev pub busy_error : Answer
busy_error = error (sync_refusal_status conversation_busy) (refused conversation_busy)

abbrev pub duplicate_error : Answer
duplicate_error = error (sync_refusal_status duplicate_message) (refused duplicate_message)

-- The row of the insertion, or the error.
abbrev inserted_or : Bool → Option InboxRow → Answer ⊎ InboxRow
inserted_or true row = inl busy_error
inserted_or false none = inl duplicate_error
inserted_or false (some r) = inr r

-- A caller that is called back, on what the insertion returned.
unfoldable pub called_back : DoorState → Text → Inbox × AgentInsert → DoorState × Answer
called_back s key (db, out) = elim (inserted_or out.busy out.row) [
  | inl e ↦ (record s { inbox = db }, e)
  | inr r ↦ (record s { inbox = db; timers = deliver_now s.timers key }, accepted key r.dedupe_key)
]

unfoldable pub post_for_callback : DoorState → ℕ → Text → ExchangeInput → Text → DoorState × Answer
post_for_callback s now uuid input url =
    called_back s (key_of input) (
      insert_agent_message s.inbox (now / 1000) (key_of input) (exchange_row input (some url) uuid))

-- A caller that waits, its promise being parked.
unfoldable pub await_turn : DoorState → Text → ℕ → Inbox × AgentInsert → DoorState × Answer
await_turn s key p (db, out) = elim (inserted_or out.busy out.row) [
  | inl e ↦ (record s { inbox = db; replies = release s.replies key p }, e)
  | inr r ↦ (record s { inbox = db; timers = deliver_now s.timers key }, waiting key p r.dedupe_key)
]

unfoldable pub run_parked : DoorState → ℕ → Text → ExchangeInput → ℕ → DoorState × Answer
run_parked s now uuid input p =
    await_turn s (key_of input) p
      (insert_agent_message s.inbox (now / 1000) (key_of input) (exchange_row input none uuid))

unfoldable pub run_sync_exchange : DoorState → ℕ → Text → ExchangeInput → DoorState × Answer
run_sync_exchange s now uuid input = elim (register s.replies (key_of input)) [
  | none ↦ (s, busy_error)
  | some (replies, p) ↦ run_parked (record s { replies = replies }) now uuid input p
]

pub data ExchangeResult : Type 0 where
  ok : Text → Text → Text → ExchangeResult
  not_ok : RefusalCode → Text → ExchangeResult

-- The end of the wait, with the verdict on the promise.
unfoldable pub end_exchange : DoorState → Text → ℕ → Text → Verdict → DoorState × ExchangeResult
end_exchange s key p turn_key (replied reply) =
    (record s { replies = release s.replies key p }, ok reply key turn_key)
end_exchange s key p turn_key timed_out =
    (record s { replies = release s.replies key p }, not_ok no_reply_in_time key)
end_exchange s key p turn_key Replies.turn_failed =
    (record s { replies = release s.replies key p }, not_ok turn_failed key)

abbrev matches_identifier : Option Text → Bool
matches_identifier none = true
matches_identifier (some s) = is_identifier s

unfoldable pub valid_body : MessageBody → Bool
valid_body body =
    not (is_empty (trim body.text))
    && leb (length (trim body.text)) max_text_chars
    && matches_identifier body.correlation_id
    && matches_identifier body.message_id

abbrev pub hop_of : Option ℕ → ℕ
hop_of none = 1
hop_of (some hop) = max hop 1

unfoldable pub exchange_of : AgentCredential → Text → MessageBody → Text → ExchangeInput
exchange_of credential target body uuid = record {
  caller = credential.agent_id;
  target = target;
  text = trim body.text;
  hop = hop_of body.hop;
  correlation_id = or_uuid body.correlation_id uuid;
  message_id = body.message_id;
}

-- A callback, where one is named, must be allowed.
unfoldable pub reply_by :
    DoorDeps
    → DoorState
    → ℕ
    → Text
    → AgentCredential
    → ExchangeInput
    → Option Text
    → DoorState × Answer
reply_by d s now uuid credential input none = run_sync_exchange s now uuid input
reply_by d s now uuid credential input (some url) =
    if callback_allowed d.parse_url url credential.callback_prefix
    then post_for_callback s now uuid input url
    else (s, error 403 reply_to_not_allowed)

unfoldable pub post_admitted :
    DoorDeps
    → DoorState
    → ℕ
    → Text
    → Text
    → AgentCredential
    → Text
    → MessageBody
    → DoorState × Answer
post_admitted d s now uuid uuid' credential target body =
    reply_by d s now uuid' credential (exchange_of credential target body uuid) body.reply_to

unfoldable pub post_body :
    DoorDeps
    → DoorState
    → ℕ
    → Text
    → Text
    → AgentCredential
    → Text
    → MessageBody
    → DoorState × Answer
post_body d s now uuid uuid' credential target body =
    if not (valid_body body)
    then (s, error 400 invalid_request)
    else elim (admit_exchange credential.agent_id target (hop_of body.hop) credential.reach
        d.is_known_agent) [
          | some refusal ↦ (s, error refusal.status (refused refusal.error))
          | none ↦ post_admitted d s now uuid uuid' credential target body
        ]

-- Of a caller that is known.
unfoldable pub post_known :
    DoorDeps
    → DoorState
    → ℕ
    → Text
    → Text
    → AgentCredential
    → Text
    → Option MessageBody
    → DoorState × Answer
post_known d s now uuid uuid' credential target none = (s, error 400 invalid_request)
post_known d s now uuid uuid' credential target (some body) =
    post_body d s now uuid uuid' credential target body

-- POST /agents/:id/messages up to its wait, with two fresh UUIDs.
unfoldable pub open_post : DoorDeps → DoorState → ℕ → Text → Text → Request → DoorState × Answer
open_post d s now uuid uuid' request =
    elim (find_agent_by_token d.codec d.registry
      (bearer_token d.to_lower_case request.authorization)) [
        | none ↦ (s, error 401 unauthorized)
        | some credential ↦ post_known d s now uuid uuid' credential request.target request.body
      ]

-- The answer to the request; a reply has the agent, the conversation and the turn's key.
pub data Response : Type 0 where
  refusal : ℕ → ErrorCode → Response
  accepted_call : Text → Text → Response
  answered : Text → Text → Text → Text → Response

unfoldable pub response_to : Text → DoorState × ExchangeResult → DoorState × Response
response_to target turn = (turn.0, of_result turn.1)
  where
    of_result : ExchangeResult → Response
    of_result (ok text key turn_key) = answered text target key turn_key
    of_result (not_ok reason key) = refusal (sync_refusal_status reason) (refused reason)

-- What the door is when the promise has settled, and with what.
abbrev pub Wait : Type 0
Wait = DoorState → Text → ℕ → DoorState × Verdict

unfoldable pub close_post : Wait → Text → DoorState × Answer → DoorState × Response
close_post wait target (s, error status code) = (s, refusal status code)
close_post wait target (s, accepted key turn_key) = (s, accepted_call key turn_key)
close_post wait target (s, waiting key p turn_key) =
    let (s', v) = wait s key p in response_to target (end_exchange s' key p turn_key v)

unfoldable pub post : DoorDeps → Wait → DoorState → ℕ → Text → Text → Request → DoorState × Response
post d wait s now uuid uuid' request =
    close_post wait request.target (open_post d s now uuid uuid' request)
