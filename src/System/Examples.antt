-- ===== src/System/Examples.antt =====
-- The batcher at work on one waiting message, whose turn throws, and on a crash.
use shopify_vitrina.Base.{◌≡◌, refl, true, false, some, none, List, [], ◌∷◌, Text, str, arith}
use shopify_vitrina.Turn.{Role, customer}
use shopify_vitrina.Inbox.{Inbox, InboxRow, pending, whatsapp}
use shopify_vitrina.Inbox.Rows
use shopify_vitrina.Inbox.Valid.{IsValid}
use shopify_vitrina.Webhook.{InboundMessage, text}
use shopify_vitrina.Batcher.Process.{Deps}
use shopify_vitrina.Batcher.Process.Declines.{Unsettled}
use shopify_vitrina.System.{
  System, Event, receive, close_burst, start, finish, restart, run, restart_process, no_timers,
}
use shopify_vitrina.Queue.Serial.{empty_queue}
use shopify_vitrina.System.Chained.{
  Chained, Happening, message, burst_due, restarted, job_begins, job_ends, advance, advances,
}
use shopify_vitrina.System.Taken.{Apart}
use shopify_vitrina.System.Kept.{kept}
use shopify_vitrina.System.Never.{run-kept}

abbrev ana : Text
ana = str "573001"

abbrev waiting_row : InboxRow
waiting_row = record {
  id = 1;
  dedupe_key = str "msg:a1";
  phone = ana;
  agent_text = str "hola";
  kind = Rows.text;
  audio_path = none;
  media_ref = none;
  media_kind = none;
  media_mime = none;
  media_name = none;
  media_sent_at = none;
  agent_id = none;
  principal_kind = whatsapp;
  principal_id = some ana;
  conversation_key = ana;
  reply_to = none;
  hop = 0;
  status = pending;
  attempts = 1;
  received_at = 5;
  processed_at = none;
}

abbrev inbox1 : Inbox
inbox1 = record { rows = waiting_row ∷ []; next_id = 2 }

abbrev deps : Deps
deps = record {
  windows = record {
    debounce_ms = 4_000;
    max_wait_ms = 20_000;
    media_debounce_ms = 12_000;
    media_max_wait_ms = 60_000;
  };
  route = λ phone. (customer, str "vitrina-ventas");
  media = none;
  transcribe = none;
}

abbrev all_customers : Text → Role
all_customers phone = customer

abbrev down : System
down = record {
  store = record {
    files = record { inbox = inbox1; photos = record { rows = []; next_id = 1 }; unlinked = [] };
    messages = record { rows = []; next_id = 1 };
    timers = no_timers;
    failures = [];
  };
  released = [];
  turns = [];
}

abbrev second : InboundMessage
second = record {
  from = ana;
  kind = text;
  id = some (str "a2");
  agent_text = str "tienen camisetas?";
  media = none;
  sent_at = none;
}

-- The old message's turn throws while a second one arrives, and is tried again; then a crash.
abbrev events : List Event
events =
    start 9_000 ana
    ∷ receive 9_500 (str "d2") second
    ∷ finish 10_000 ana false
    ∷ close_burst ana
    ∷ restart 11_000
    ∷ start 12_000 ana
    ∷ []

inbox1-IsValid : IsValid inbox1
inbox1-IsValid = record { ids = (refl, tt); below = (omega arith, tt); keys = (refl, tt) }

run-kept_example :
    Unsettled
      (λ id key.
        kept (run deps all_customers (restart_process deps down 8_000) events) id key ≡ true)
      (run deps all_customers (restart_process deps down 8_000) events).store.files.inbox
run-kept_example = run-kept deps all_customers down 8_000 events inbox1-IsValid

-- The same at work with the queue in full. The old message is handed over at once and its turn runs
-- while a second message comes, whose job does not begin before the turn has ended.
abbrev fresh : Chained
fresh = record { store = down.store; released = []; turns = []; queue = empty_queue }

abbrev happenings : List Happening
happenings =
    burst_due ana
    ∷ job_begins 9_000 1
    ∷ message 9_500 (str "d2") second
    ∷ burst_due ana
    ∷ job_begins 9_800 2
    ∷ job_ends 9_900 1 true
    ∷ job_begins 9_950 2
    ∷ []

abbrev at_work : List Happening → Chained
at_work hs = advances deps all_customers (advance deps all_customers fresh (restarted 8_000)) hs
