-- ===== src/Answering/Examples.antt =====
-- A customer whose conversation a human has, and an owner whose link does not arrive.
use shopify_vitrina.Answering.Failed.{Told, finish_batch-Told}
use shopify_vitrina.Batcher.Process.{Store, Running, Failure, finish_batch}
use shopify_vitrina.Replies.{verdict}
use shopify_vitrina.Base.{
  ltb, ◌++◌, ◌≡◌, ◌||◌, refl, true, false, Option, some, none, [], ◌∷◌, Text, str, ◌==◌, lookup,
}
use shopify_vitrina.Turn.{Role, owner, customer, Envelope, TurnContext, agent}
use shopify_vitrina.Turn
use shopify_vitrina.Handoffs.{Handoff, is_conversation_paused}
use shopify_vitrina.Answering.{Server, Services, on_message, send_admin_link, on_batch_failure}
use shopify_vitrina.Answering.Gated.{with_agent, is_gated, asks_for_link, on_message-gated}
use shopify_vitrina.Answering.Unsent.{live_sessions, send_admin_link-unsent}

abbrev ana : Text
ana = str "573001"

-- The channel takes nothing.
abbrev services : Services
services = record {
  echo_mode = false;
  customer_agent_enabled = true;
  role_for = λ phone. customer;
  sends = λ phone body. false;
  fetch = none;
  reply_digest = λ key turn_key body by. body;
  hash_token = λ t. t;
  from_hex = λ t. t;
  is_admin_link_request = λ t. t == str "panel";
  admin_link_message = λ t. t;
  recorded_placeholder = str "enlace";
  echo_reply = λ t. t;
  customer_unavailable_notice = str "no disponible";
  rate_limit_notice = str "espera";
  agent_error_apology = str "perdón";
  run_agent_turn = λ s ctx text. (s, some (str "hola"));
}

abbrev handoff : Handoff
handoff = record {
  id = 1;
  conversation_key = ana;
  agent_id = str "ventas";
  paused_by = str "573009";
  paused_at = 4;
  reason = none;
  lead_id = none;
  released_by = none;
  released_at = none;
}

abbrev server : Server
server = record {
  contacts = [];
  messages = record { rows = []; next_id = 1 };
  handoffs = record { rows = handoff ∷ []; next_id = 2 };
  sessions = record { rows = []; next_id = 1 };
  limiter = record {
    options = record { per_phone_per_hour = 20; global_per_day = 500 };
    per_phone = [];
    notice_sent_at = [];
    day_key = none;
    day_count = 0;
  };
  alert = record { threshold = 3; cooldown_ms = 60_000; failures = 0; last_alert_at = none };
  replies = record { waiters = []; settled = []; posted = []; next = 1 };
  sent = [];
}

abbrev envelope : Envelope
envelope = record {
  principal = Turn.whatsapp ana;
  agent_id = str "ventas";
  conversation_key = ana;
  text = str "hola";
  turn_key = str "a1";
  reply_to = none;
  hop = 0;
}

abbrev context : TurnContext
context = record {
  principal = Turn.whatsapp ana;
  phone = some ana;
  role = some customer;
  agent_id = str "ventas";
  conversation_key = ana;
  turn_key = str "a1";
  hop = 0;
}

abbrev throws : Server → TurnContext → Text → Server × Option Text
throws s ctx text = (s, none)

paused :
    (asks_for_link services 9_000 envelope server context ana
      || is_gated services 9_000 envelope server context ana)
    ≡ true
unfolding is_conversation_paused ◌==◌
paused = refl

on_message-gated_example :
    on_message (with_agent services throws) 9_000 envelope server (str "t1") context
    ≡ on_message services 9_000 envelope server (str "t1") context
on_message-gated_example =
    on_message-gated services throws 9_000 envelope server (str "t1") context ana refl refl paused

send_admin_link-unsent_example :
    live_sessions 20 (send_admin_link services 9_000 envelope server ana (str "t1")).0.sessions
    ≡ live_sessions 20 server.sessions
send_admin_link-unsent_example =
    send_admin_link-unsent services 9_000 envelope server ana (str "t1") 20 tt refl

abbrev key : Text
key = str "a2a:super:ventas:c1"

abbrev asked : TurnContext
asked = record {
  principal = agent (str "super");
  phone = none;
  role = none;
  agent_id = str "ventas";
  conversation_key = key;
  turn_key = str "m1";
  hop = 1;
}

abbrev parked : Server
parked = record server {
  replies = record { waiters = (key, 1) ∷ []; settled = []; posted = []; next = 2 };
}

key-parked : lookup key parked.replies.waiters ≡ some 1
unfolding lookup ◌==◌
key-parked = refl

unsettled : verdict 1 parked.replies.settled ≡ none
unfolding verdict
unsettled = refl

-- The third attempt.
abbrev last_try : Running
last_try = record {
  key = key;
  ids = 1 ∷ [];
  attempts = 3;
  envelope = record envelope { conversation_key = key; principal = agent (str "super") };
  context = asked;
}

abbrev store : Store
store = record {
  files = record {
    inbox = record { rows = []; next_id = 2 };
    photos = record { rows = []; next_id = 1 };
    unlinked = [];
  };
  messages = record { rows = []; next_id = 1 };
  timers = record { bursts = []; retries = []; queued = [] };
  failures = [];
}

finish_batch-Told_example :
    (f : Failure) × ((finish_batch store 9_000 last_try false).failures ≡ [] ++ f ∷ [])
    × Told key 1 (ltb 2 3) (on_batch_failure services 9_500 parked f.context f.final).0
finish_batch-Told_example =
    finish_batch-Told services store parked 9_000 9_500 last_try (str "super") 1 refl key-parked
      unsettled
