-- ===== src/Webhook/Examples.antt =====
-- A signed message delivered twice to an empty inbox.
use shopify_vitrina.Inbox.Tables.{has_key}
use shopify_vitrina.Base.{ℕ, true, false, any, ◌≡◌, List, [], ◌∷◌, some, none, Text, str}
use shopify_vitrina.Turn.{Role, customer}
use shopify_vitrina.Batcher.Timers.{Windows}
use shopify_vitrina.Webhook.{
  Door, Delivery, InboundMessage, text, post_webhook, verify_signature, invalid_signature,
}
use shopify_vitrina.Webhook.Again.{post_webhook-again, post_webhook-key}

abbrev message : InboundMessage
message = record {
  from = str "573001";
  kind = text;
  id = some (str "a1");
  agent_text = str "hola";
  media = none;
  sent_at = some 5;
}

abbrev delivery : Delivery
delivery = record {
  body = str "hola";
  signature = some (str "sha256=hola");
  digest = str "d1";
  items = message ∷ [];
}

abbrev windows : Windows
windows = record {
  debounce_ms = 4_000;
  max_wait_ms = 20_000;
  media_debounce_ms = 12_000;
  media_max_wait_ms = 60_000;
}

abbrev empty_door : Door
empty_door = record {
  inbox = record { rows = []; next_id = 1 };
  timers = record { bursts = []; retries = []; queued = [] };
  released = [];
}

abbrev own_hmac : Text → Text → Text
own_hmac secret body = body

abbrev own_decode : Text → List ℕ
own_decode hex = hex

abbrev all_customers : Text → Role
all_customers phone = customer

abbrev first_time : Door
first_time =
    (post_webhook own_hmac own_decode (str "s") windows all_customers empty_door 9_000 delivery).0

-- Before it comes again, another message has come.
abbrev other : Delivery
other = record delivery { digest = str "d2"; items = record message { id = some (str "a2") } ∷ [] }

abbrev between : Door
between =
    (post_webhook own_hmac own_decode (str "s") windows all_customers first_time 20_000 other).0

first_rows :
    (k : Text)
    → any (has_key k) first_time.inbox.rows ≡ true
    → any (has_key k) between.inbox.rows ≡ true
first_rows k h =
    post_webhook-key own_hmac own_decode (str "s") windows all_customers first_time 20_000 other k h

abbrev second_time : Door
second_time =
    (post_webhook own_hmac own_decode (str "s") windows all_customers between 70_000 delivery).0

post_webhook-again_example :
    (second_time.inbox ≡ between.inbox)
    × (second_time.timers ≡ between.timers)
    × (verify_signature own_hmac own_decode delivery.body delivery.signature (str "s") ≡ false
        → (first_time ≡ empty_door)
          × ((post_webhook own_hmac own_decode
                (str "s")
                windows
                all_customers
                empty_door
                9_000
                delivery).1
              ≡ invalid_signature))
post_webhook-again_example =
    post_webhook-again own_hmac own_decode (str "s") windows all_customers all_customers empty_door
      between 9_000 70_000 delivery first_rows
