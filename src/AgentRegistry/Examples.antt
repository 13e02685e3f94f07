-- ===== src/AgentRegistry/Examples.antt =====
-- A caller's token is rotated beside that of another.
use shopify_vitrina.Base.{◌≡◌, refl, some, none, Option, List, [], ◌∷◌, Text, str, ◌==◌}
use shopify_vitrina.AgentRegistry.{
  AgentCredential, RegistryRow, Codec, find_agent_by_token, upsert_agent_credential, token_matches,
}
use shopify_vitrina.AgentRegistry.Tokens.{find-upsert, Others}

-- One id, in brackets; no escapes.
abbrev bracket : List Text → Text
bracket [] = str "[]"
bracket (x ∷ xs) = b'[' ∷ x

abbrev unbracket : Text → Option (List (Option Text))
unbracket [] = none
unbracket (c ∷ s) = some (some s ∷ [])

abbrev plain : Codec
plain = record {
  hash_agent_token = λ t. t;
  from_hex = λ t. t;
  stringify = bracket;
  parse_array = unbracket;
}

abbrev super : AgentCredential
super = record { agent_id = str "super"; reach = str "ventas" ∷ []; callback_prefix = none }

abbrev rows : List RegistryRow
rows =
    record {
      agent_id = str "otro";
      token_hash = str "t1";
      reach = str "[]";
      callback_prefix = none;
    }
    ∷ record {
      agent_id = str "super";
      token_hash = str "t2";
      reach = str "[]";
      callback_prefix = none;
    }
    ∷ []

rows-Others : Others plain super (str "t3") rows
unfolding token_matches ◌==◌
rows-Others = ((λ h. refl), ((λ h. refl), tt))

find-upsert_example :
    find_agent_by_token plain
      (upsert_agent_credential plain rows super (str "t3"))
      (some (str "t3"))
    ≡ some super
find-upsert_example = find-upsert plain super (str "t3") rows refl refl rows-Others
