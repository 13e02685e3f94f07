-- ===== src/Batcher/Process/Examples.antt =====
-- The theorems on the processing of a batch at one message whose turn throws.
use shopify_vitrina.Base.{refl, Bool, false, some, none, [], ◌∷◌, Text, str, arith}
use shopify_vitrina.Turn.{customer, Envelope, TurnContext}
use shopify_vitrina.Inbox.{Inbox, InboxRow, text, pending, whatsapp}
use shopify_vitrina.Inbox.Valid.{IsValid}
use shopify_vitrina.Batcher.Process.{Deps, Store, process_batch}
use shopify_vitrina.Batcher.Process.Settled.{Settled, selected}
use shopify_vitrina.Batcher.Process.Outcome.{Answered, process_batch-Answered}

abbrev ana : Text
ana = str "573001"

-- After two attempts.
abbrev row : InboxRow
row = record {
  id = 1;
  dedupe_key = str "a1";
  phone = ana;
  agent_text = str "hola";
  kind = text;
  audio_path = none;
  media_ref = none;
  media_kind = none;
  media_mime = none;
  media_name = none;
  media_sent_at = none;
  agent_id = none;
  principal_kind = whatsapp;
  principal_id = some ana;
  conversation_key = ana;
  reply_to = none;
  hop = 0;
  status = pending;
  attempts = 2;
  received_at = 5;
  processed_at = none;
}

abbrev inbox1 : Inbox
inbox1 = record { rows = row ∷ []; next_id = 2 }

abbrev deps : Deps
deps = record {
  windows = record {
    debounce_ms = 4_000;
    max_wait_ms = 20_000;
    media_debounce_ms = 12_000;
    media_max_wait_ms = 60_000;
  };
  route = λ phone. (customer, str "vitrina-ventas");
  media = none;
  transcribe = none;
}

abbrev store : Store
store = record {
  files = record { inbox = inbox1; photos = record { rows = []; next_id = 1 }; unlinked = [] };
  messages = record { rows = []; next_id = 1 };
  timers = record { bursts = []; retries = []; queued = [] };
  failures = [];
}

abbrev throws_always : Envelope → TurnContext → Store → Store × Bool
throws_always e c s = (s, false)

inbox1-IsValid : IsValid inbox1
inbox1-IsValid = record { ids = (refl, tt); below = (omega arith, tt); keys = (refl, tt) }

process_batch-Answered_example :
    Answered ana (process_batch deps throws_always store 9_000 15_000 ana)
process_batch-Answered_example =
    process_batch-Answered deps throws_always store 9_000 15_000 ana inbox1-IsValid
      (λ e c t. selected ana t.files.inbox.rows)
