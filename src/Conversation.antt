-- ===== src/Conversation.antt =====
-- The conversation record of server/src/data/repo.ts: the table `conversation_messages`. Times are
-- seconds, as in `datetime('now')`.
pub mod Again
mod Examples
use shopify_vitrina.Base.{
  ℕ, ◌+◌, Bool, true, false, ◌&&◌, Option, none, some, List, [], ◌∷◌, ◌++◌, if◌then◌else◌, any,
  length, ltb, Text, str, ◌==◌, select, delete,
}
use shopify_vitrina.Inbox.Rows.{MessageKind, text, InboxRow, or_else}
use shopify_vitrina.Batcher.Prompt.{decimal}

pub data MessageDirection : Type 0 where
  inbound outbound : MessageDirection

pub record ConversationMessage : Type 0 where
  pub id : ℕ
  pub dedupe_key : Text
  pub direction : MessageDirection
  pub conversation_key : Text
  pub agent_id : Text
  pub body : Text
  pub kind : MessageKind
  pub turn_key : Text
  pub source_inbox_id : Option ℕ
  pub occurred_at : ℕ
  pub recorded_at : ℕ
  pub sent_by : Option Text

pub record Messages : Type 0 where
  pub rows : List ConversationMessage
  pub next_id : ℕ

abbrev pub has_key : Text → ConversationMessage → Bool
has_key k m = m.dedupe_key == k

-- `INSERT OR IGNORE`, with the number of changes; the id is the table's to give.
unfoldable pub insert_or_ignore : Messages → ConversationMessage → Messages × ℕ
insert_or_ignore db m = if any (has_key m.dedupe_key) db.rows then (db, 0) else (
  record { rows = db.rows ++ record m { id = db.next_id } ∷ []; next_id = db.next_id + 1 },
  1,
)

unfoldable pub inbound_dedupe_key : ℕ → Text
inbound_dedupe_key inbox_id = str "in:" ++ decimal inbox_id

-- One message of a batch as the record keeps it, under the arrival of its own row.
abbrev pub inbound_message : Text → Text → ℕ → InboxRow → ConversationMessage
inbound_message agent_id turn_key now row = record {
  id = 0;
  dedupe_key = inbound_dedupe_key row.id;
  direction = inbound;
  conversation_key = row.conversation_key;
  agent_id = agent_id;
  body = row.agent_text;
  kind = row.kind;
  turn_key = turn_key;
  source_inbox_id = some row.id;
  occurred_at = row.received_at;
  recorded_at = now;
  sent_by = none;
}

unfoldable pub record_inbound_messages : Messages → ℕ → Text → Text → List InboxRow → Messages × ℕ
record_inbound_messages db now agent_id turn_key [] = (db, 0)
record_inbound_messages db now agent_id turn_key (row ∷ rows) =
    let (db', n) = insert_or_ignore db (inbound_message agent_id turn_key now row) in
    let (db'', m) = record_inbound_messages db' now agent_id turn_key rows in (db'', n + m)

pub record OutboundInput : Type 0 where
  pub conversation_key : Text
  pub agent_id : Text
  pub turn_key : Text
  pub body : Text
  pub kind : Option MessageKind
  pub occurred_at : Option ℕ
  pub sent_by : Option Text

-- The digest of `JSON.stringify([conversationKey, turnKey, body, sentBy])` is a parameter.
module _ (digest : Text → Text → Text → Option Text → Text) where
  unfoldable pub outbound_dedupe_key : Text → Text → Text → Option Text → Text
  outbound_dedupe_key key turn_key body sent_by = str "out:" ++ digest key turn_key body sent_by

  abbrev pub outbound_message : ℕ → OutboundInput → ConversationMessage
  outbound_message now input = record {
    id = 0;
    dedupe_key = outbound_dedupe_key input.conversation_key input.turn_key input.body input.sent_by;
    direction = outbound;
    conversation_key = input.conversation_key;
    agent_id = input.agent_id;
    body = input.body;
    kind = or_else input.kind text;
    turn_key = input.turn_key;
    source_inbox_id = none;
    occurred_at = or_else input.occurred_at now;
    recorded_at = now;
    sent_by = input.sent_by;
  }

  unfoldable pub record_outbound_message : Messages → ℕ → OutboundInput → Messages × Bool
  record_outbound_message db now input =
      let (db', n) = insert_or_ignore db (outbound_message now input) in (db', ltb 0 n)

abbrev pub of_conversation : Text → Text → ConversationMessage → Bool
of_conversation key agent_id m = m.conversation_key == key && m.agent_id == agent_id

unfoldable pub delete_conversation_messages : Messages → Text → Text → Messages × ℕ
delete_conversation_messages db key agent_id = (
  record db { rows = delete (of_conversation key agent_id) db.rows },
  length (select (of_conversation key agent_id) db.rows),
)
