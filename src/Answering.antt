-- ===== src/Answering.antt =====
-- What a turn does, from the batcher's call on: `onMessage` and `onBatchFailure` of
-- server/src/index.ts, the responder of
-- server/src/egress/responder.ts, and upsertContact of server/src/data/repo.ts. The agent, the send
-- over WhatsApp and the texts are parameters. Times are milliseconds; the tables keep seconds.
pub mod Gated
pub mod Unsent
pub mod Failed
mod Examples
use shopify_vitrina.Base.{
  ℕ, ◌/◌, Bool, true, false, ◌&&◌, ◌||◌, not, Option, none, some, List, [], ◌∷◌, ◌++◌,
  if◌then◌else◌, Text, Dict, lookup, insert,
}
use shopify_vitrina.Turn.{
  Role, owner, customer, role_eq, Principal, agent, Envelope, TurnContext, truthy,
}
use shopify_vitrina.Turn
use shopify_vitrina.Conversation.{Messages, record_outbound_message}
use shopify_vitrina.Handoffs.{HandoffTable, is_conversation_paused}
use shopify_vitrina.RateLimit.{
  RateLimiter, RateDecision, ok, phone_limited, global_limited, check, should_notify,
}
use shopify_vitrina.Alerts.{Alert, record_success, record_failure}
use shopify_vitrina.AdminSessions.{
  Sessions, AdminSession, whatsapp, issue_admin_session, revoke_admin_session,
}
use shopify_vitrina.Replies.{AgentReplies, Callback, deliver, fail}

pub record Contact : Type 0 where
  pub name : Option Text
  pub role : Role
  pub last_seen_at : ℕ

-- What a turn may change.
pub record Server : Type 0 where
  pub contacts : Dict Contact
  pub messages : Messages
  pub handoffs : HandoffTable
  pub sessions : Sessions
  pub limiter : RateLimiter
  pub alert : Alert
  pub replies : AgentReplies
  -- The WhatsApp messages that were sent, with their phones.
  pub sent : List (Text × Text)

pub record Services : Type 0 where
  pub echo_mode : Bool
  pub customer_agent_enabled : Bool
  pub role_for : Text → Role
  -- Whether the channel takes the message.
  pub sends : Text → Text → Bool
  pub fetch : Option (Callback → Bool)
  pub reply_digest : Text → Text → Text → Option Text → Text
  pub hash_token : Text → Text
  pub from_hex : Text → List ℕ
  pub is_admin_link_request : Text → Bool
  pub admin_link_message : Text → Text
  pub recorded_placeholder : Text
  pub echo_reply : Text → Text
  pub customer_unavailable_notice : Text
  pub rate_limit_notice : Text
  pub agent_error_apology : Text
  -- `none` where it throws.
  pub run_agent_turn : Server → TurnContext → Text → Server × Option Text

abbrev name_of : Option Contact → Option Text
name_of none = none
name_of (some c) = c.name

unfoldable pub upsert_contact : Dict Contact → ℕ → Text → Role → Dict Contact
upsert_contact contacts now phone role =
    insert phone
      (record { name = name_of (lookup phone contacts); role = role; last_seen_at = now }) contacts

abbrev pub is_owner : Option Role → Bool
is_owner none = false
is_owner (some role) = role_eq role owner

module _ (v : Services) (now : ℕ) (e : Envelope) where
  unfoldable pub record_safely : Server → Text → Text → Server
  record_safely s key body = record s {
    messages =
        (record_outbound_message v.reply_digest s.messages (now / 1000) (record {
          conversation_key = key;
          agent_id = e.agent_id;
          turn_key = e.turn_key;
          body = body;
          kind = none;
          occurred_at = none;
          sent_by = none;
        })).0;
  }

  -- `channel.sendText`
  unfoldable pub send_text : Server → Text → Text → Server × Bool
  send_text s phone body =
      if v.sends phone body
      then (record s { sent = s.sent ++ (phone, body) ∷ [] }, true)
      else (s, false)

  abbrev recorded : Text → Text → Server × Bool → Server × Bool
  recorded key body (s, true) = (record_safely s key body, true)
  recorded key body (s, false) = (s, false)

  -- `respond.deliver`, with whether it returns.
  unfoldable pub respond : Principal → Server → Text → Server × Bool
  respond (Turn.whatsapp phone) s body = recorded phone body (send_text s phone body)
  respond (agent caller) s body =
      let (replies, returned) =
        deliver v.fetch s.replies
          (record { conversation_key = e.conversation_key; reply_to = e.reply_to }) body in
      recorded e.conversation_key body (record s { replies = replies }, returned)

  -- A notice, whose failure is swallowed.
  abbrev notify : Server → Text → Server × Bool
  notify s body = ((respond e.principal s body).0, true)

  abbrev succeeded : Server × Bool → Server × Bool
  succeeded (s, true) = (record s { alert = record_success s.alert }, true)
  succeeded (s, false) = (s, false)

  abbrev answered : Server × Option Text → Server × Bool
  answered (s, none) = (s, false)
  answered (s, some reply) = succeeded (respond e.principal s reply)

  -- The turn of the agent, and its reply.
  unfoldable pub answer : Server → TurnContext → Server × Bool
  answer s ctx = answered (v.run_agent_turn s ctx e.text)

  -- An admin's link, by a fresh token.
  unfoldable pub send_admin_link : Server → Text → Text → Server × Bool
  send_admin_link s phone token =
      elim (issue_admin_session v.hash_token v.from_hex s.sessions (now / 1000) phone whatsapp
        token) [
          | none ↦ (s, false)
          | some (sessions, session) ↦
              if v.sends phone (v.admin_link_message token)
              then (
                record_safely
                    (record s {
                      sessions = sessions;
                      sent = s.sent ++ (phone, v.admin_link_message token) ∷ [];
                    })
                    e.conversation_key v.recorded_placeholder,
                true,
              )
              else (
                record s { sessions = (revoke_admin_session sessions (now / 1000) session.id).0 },
                true,
              )
        ]

  -- The decision of the limiter, with its state.
  unfoldable pub limited : Server → TurnContext → Text → RateLimiter × RateDecision → Server × Bool
  limited s ctx phone (l, ok) = answer (record s { limiter = l }) ctx
  limited s ctx phone (l, global_limited) = (record s { limiter = l }, true)
  limited s ctx phone (l, phone_limited) =
      let (l', first) = should_notify l phone now in
      if first
      then notify (record s { limiter = l' }) v.rate_limit_notice
      else (record s { limiter = l' }, true)

  -- The gates of a person, whose contact is up to date.
  unfoldable pub on_person : Server → Text → TurnContext → Text → Server × Bool
  on_person s token ctx phone =
      if is_owner ctx.role && v.is_admin_link_request e.text
      then send_admin_link s phone token
      else if is_conversation_paused s.handoffs e.conversation_key e.agent_id
      then (s, true)
      else if is_owner ctx.role
      then answer s ctx
      else if not v.customer_agent_enabled
      then notify s v.customer_unavailable_notice
      else limited s ctx phone (check s.limiter phone now)

  unfoldable pub seen : Server → Text → Server
  seen s phone = record s {
    contacts = upsert_contact s.contacts (now / 1000) phone (v.role_for phone);
  }

  unfoldable pub on_message_of : Principal → Server → Text → TurnContext → Server × Bool
  on_message_of (Turn.whatsapp phone) s token ctx =
      if v.echo_mode
      then respond (Turn.whatsapp phone) (seen s phone) (v.echo_reply e.text)
      else on_person (seen s phone) token ctx phone
  on_message_of (agent caller) s token ctx =
      if v.echo_mode then respond (agent caller) s (v.echo_reply e.text) else answer s ctx

  -- With whether it returns.
  unfoldable pub on_message : Server → Text → TurnContext → Server × Bool
  on_message s token ctx = on_message_of e.principal s token ctx

-- The route of a reply, from the context of a failed turn.
abbrev envelope_of_context : TurnContext → Envelope
envelope_of_context ctx = record {
  principal = ctx.principal;
  agent_id = ctx.agent_id;
  conversation_key = ctx.conversation_key;
  text = [];
  turn_key = ctx.turn_key;
  reply_to = none;
  hop = ctx.hop;
}

module _ (v : Services) (now : ℕ) where
  abbrev apologize : Option Text → Server → TurnContext → Server
  apologize none s ctx = s
  apologize (some phone) s ctx =
      (respond v now (envelope_of_context ctx) ctx.principal s v.agent_error_apology).0

  unfoldable pub tell_failure : Principal → Server → TurnContext → Server
  tell_failure (agent caller) s ctx = record s { replies = fail s.replies ctx.conversation_key }
  tell_failure (Turn.whatsapp phone) s ctx = apologize (truthy ctx.phone) s ctx

  -- `onBatchFailure`, with whether the owners are alerted.
  unfoldable pub on_batch_failure : Server → TurnContext → Bool → Server × Bool
  on_batch_failure s ctx final =
      let (alert, raised) = record_failure s.alert now in
      let s' = record s { alert = alert } in
      (if final then tell_failure ctx.principal s' ctx else s', raised)
