-- ===== src/AgentDoor/Rules.antt =====
-- The rules of the agents' door: conversation keys, identifiers, callbacks, tokens and admission, of
-- server/src/inbox/a2a.ts and server/src/a2a-protocol.ts.
use shopify_vitrina.Base.{
  ℕ, suc, Bool, true, false, ◌&&◌, ◌||◌, not, Option, none, some, List, [], ◌∷◌, ◌++◌,
  if◌then◌else◌, any, eqb, leb, ltb, length, Text, str, ◌==◌, trim, is_digit, starts_with, drop,
  take, index_of,
}
use shopify_vitrina.Turn.{truthy}
use shopify_vitrina.AgentRegistry.{RegistryRow, Codec}

abbrev pub agent_conversation_prefix : Text
agent_conversation_prefix = str "a2a:"

abbrev pub max_hop : ℕ
max_hop = 3

abbrev pub max_text_chars : ℕ
max_text_chars = 16_000

unfoldable pub agent_conversation_key : Text → Text → Text → Text
agent_conversation_key caller target correlation_id =
    agent_conversation_prefix ++ (caller ++ b':' ∷ (target ++ b':' ∷ correlation_id))

unfoldable pub is_agent_conversation_key : Text → Bool
is_agent_conversation_key key = starts_with agent_conversation_prefix key

-- `[A-Za-z0-9]`, and `[A-Za-z0-9._-]`.
abbrev pub is_alphanumeric : ℕ → Bool
is_alphanumeric c = is_digit c || (leb b'A' c && leb c b'Z') || (leb b'a' c && leb c b'z')

abbrev pub is_identifier_char : ℕ → Bool
is_identifier_char c = is_alphanumeric c || eqb c b'.' || eqb c b'_' || eqb c b'-'

abbrev pub every : (ℕ → Bool) → Text → Bool
every p [] = true
every p (c ∷ s) = p c && every p s

-- `IDENTIFIER.test`
unfoldable pub is_identifier : Text → Bool
is_identifier [] = false
is_identifier (c ∷ s) = is_alphanumeric c && leb (length s) 63 && every is_identifier_char s

pub data RefusalCode : Type 0 where
  reach_denied unknown_agent hop_limit_exceeded conversation_busy duplicate_message no_reply_in_time
        turn_failed :
      RefusalCode

pub record Refusal : Type 0 where
  pub status : ℕ
  pub error : RefusalCode

pub record Url : Type 0 where
  pub protocol : Text
  pub origin : Text

-- What the door is given; `parse_url` is `none` where `new URL` throws.
pub record DoorDeps : Type 0 where
  pub codec : Codec
  pub registry : List RegistryRow
  pub is_known_agent : Text → Bool
  pub parse_url : Text → Option Url
  pub to_lower_case : Text → Text

unfoldable pub same_origin : Option Url → Option Url → Bool
same_origin none _ = false
same_origin (some target) none = false
same_origin (some target) (some allowed) =
    (target.protocol == str "http:" || target.protocol == str "https:")
    && target.origin == allowed.origin

unfoldable pub callback_allowed : (Text → Option Url) → Text → Option Text → Bool
callback_allowed parse_url url prefix = elim (truthy prefix) [
  | none ↦ false
  | some p ↦ same_origin (parse_url url) (parse_url p) && starts_with p url
]

unfoldable pub bearer_token : (Text → Text) → Option Text → Option Text
bearer_token to_lower_case header = elim (truthy header) [
  | none ↦ none
  | some value ↦ elim (index_of b' ' value) [
    | none ↦ none
    | some separator ↦
        if to_lower_case (take separator value) == str "bearer"
        then truthy (some (trim (drop (suc separator) value)))
        else none
  ]
]

-- `reach.includes(target)`
unfoldable pub admit_exchange : Text → Text → ℕ → List Text → (Text → Bool) → Option Refusal
admit_exchange caller target hop reach is_known_agent =
    if caller == target
    then some (record { status = 403; error = reach_denied })
    else if not (any (λ id. id == target) reach)
    then some (record { status = 403; error = reach_denied })
    else if not (is_known_agent target)
    then some (record { status = 404; error = unknown_agent })
    else if ltb max_hop hop
    then some (record { status = 508; error = hop_limit_exceeded })
    else none

abbrev pub sync_refusal_status : RefusalCode → ℕ
sync_refusal_status conversation_busy = 409
sync_refusal_status duplicate_message = 409
sync_refusal_status no_reply_in_time = 504
sync_refusal_status turn_failed = 502
sync_refusal_status reach_denied = 403
sync_refusal_status unknown_agent = 404
sync_refusal_status hop_limit_exceeded = 508
