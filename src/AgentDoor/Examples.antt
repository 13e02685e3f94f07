-- ===== src/AgentDoor/Examples.antt =====
-- A known agent asks another, and the conversations of two exchanges.
use shopify_vitrina.Replies.{deliver, replied}
use shopify_vitrina.Base.{◌≡◌, ◌≢◌, refl, some, none, true, [], ◌∷◌, str}
use shopify_vitrina.Assignments.{normalize_phone}
use shopify_vitrina.AgentRegistry.{Codec}
use shopify_vitrina.AgentDoor.{
  DoorDeps, DoorState, Request, Response, Wait, post, agent_conversation_key, is_identifier,
}
use shopify_vitrina.AgentDoor.Keys.{agent_conversation_key-own}

abbrev plain : Codec
plain = record {
  hash_agent_token = λ t. t;
  from_hex = λ t. t;
  stringify = λ xs. [];
  parse_array = λ s. some (some s ∷ []);
}

abbrev deps : DoorDeps
deps = record {
  codec = plain;
  registry =
      record {
        agent_id = str "super";
        token_hash = str "t1";
        reach = str "ventas";
        callback_prefix = none;
      }
      ∷ [];
  is_known_agent = λ id. true;
  parse_url = λ s. none;
  to_lower_case = λ s. s;
}

abbrev idle : DoorState
idle = record {
  inbox = record { rows = []; next_id = 1 };
  timers = record { bursts = []; retries = []; queued = [] };
  replies = record { waiters = []; settled = []; posted = []; next = 1 };
}

abbrev question : Request
question = record {
  target = str "ventas";
  authorization = some (str "bearer t1");
  body = some (record {
    text = str "hay camisetas?";
    correlation_id = some (str "c1");
    message_id = some (str "m1");
    reply_to = none;
    hop = none;
  });
}

-- The turn of the question replies while its caller waits.
abbrev in_stock : Wait
in_stock s key p = (
  record s {
    replies =
        (deliver none s.replies (record { conversation_key = key; reply_to = none }) (str "si")).0;
  },
  replied (str "si"),
)

abbrev answer : DoorState × Response
answer = post deps in_stock idle 5_000 (str "u1") (str "u2") question

super-is_identifier : is_identifier (str "super") ≡ true
unfolding is_identifier
super-is_identifier = refl

c1-is_identifier : is_identifier (str "c1") ≡ true
unfolding is_identifier
c1-is_identifier = refl

c2-is_identifier : is_identifier (str "c2") ≡ true
unfolding is_identifier
c2-is_identifier = refl

agent_conversation_key-own_example :
    (agent_conversation_key (str "super") (str "a:b") (str "c1")
        ≡ agent_conversation_key (str "super") (str "a") (str "c2")
      → (str "super" ≡ str "super") × (str "a:b" ≡ str "a") × (str "c1" ≡ str "c2"))
    × (agent_conversation_key (str "super") (str "a:b") (str "c1") ≢ normalize_phone (str "57300"))
agent_conversation_key-own_example =
    agent_conversation_key-own (str "super") (str "super") (str "a:b") (str "a") (str "c1")
      (str "c2") (str "57300") super-is_identifier super-is_identifier c1-is_identifier
      c2-is_identifier
