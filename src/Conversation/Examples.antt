-- ===== src/Conversation/Examples.antt =====
-- The theorems on the conversation record at two messages and a reply.
use shopify_vitrina.Base.{ℕ, ◌≡◌, some, none, [], ◌∷◌, Text, str}
use shopify_vitrina.Inbox.Rows.{InboxRow, text, pending, whatsapp}
use shopify_vitrina.Conversation.{Messages, record_inbound_messages}
use shopify_vitrina.Conversation.Again.{record_inbound_messages-again}

abbrev row : ℕ → Text → InboxRow
row id words = record {
  id = id;
  dedupe_key = words;
  phone = str "573001";
  agent_text = words;
  kind = text;
  audio_path = none;
  media_ref = none;
  media_kind = none;
  media_mime = none;
  media_name = none;
  media_sent_at = none;
  agent_id = none;
  principal_kind = whatsapp;
  principal_id = some (str "573001");
  conversation_key = str "573001";
  reply_to = none;
  hop = 0;
  status = pending;
  attempts = 0;
  received_at = 5;
  processed_at = none;
}

abbrev no_messages : Messages
no_messages = record { rows = []; next_id = 1 }

record_inbound_messages-again_example :
    let db' =
      (record_inbound_messages no_messages 10
        (str "ventas")
        (str "a1")
        (row 1 (str "hola") ∷ [])).0 in
    record_inbound_messages db' 20
      (str "ventas")
      (str "a1")
      (row 1 (str "hola") ∷ row 2 (str "precio") ∷ [])
    ≡ record_inbound_messages db' 20 (str "ventas") (str "a1") (row 2 (str "precio") ∷ [])
record_inbound_messages-again_example =
    record_inbound_messages-again no_messages 10 20 (str "ventas") (str "ventas") (str "a1")
      (str "a1") (row 1 (str "hola") ∷ []) (row 2 (str "precio") ∷ [])
