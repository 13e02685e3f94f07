-- ===== src/AgentRegistry.antt =====
-- The credentials of the agents that may call: server/src/data/agent-registry.ts. The table
-- `agent_registry` is its rows; the hash, hexadecimal and JSON are parameters. The column
-- rotated_at, which nothing reads, is left out, as are the listing and the count.
pub mod Tokens
mod Examples
use shopify_vitrina.Base.{
  ℕ, Bool, true, false, ◌&&◌, Option, none, some, List, [], ◌∷◌, ◌++◌, if◌then◌else◌, any, eqb,
  length, Text, ◌==◌, update, delete,
}
use shopify_vitrina.Turn.{truthy}

pub record AgentCredential : Type 0 where
  pub agent_id : Text
  pub reach : List Text
  pub callback_prefix : Option Text

pub record RegistryRow : Type 0 where
  pub agent_id : Text
  pub token_hash : Text
  -- JSON.
  pub reach : Text
  pub callback_prefix : Option Text

pub record Codec : Type 0 where
  pub hash_agent_token : Text → Text
  pub from_hex : Text → List ℕ
  pub stringify : List Text → Text
  -- The elements of a parsed array, `none` for one that is not a string; `none` for what does not
  -- parse, or is no array.
  pub parse_array : Text → Option (List (Option Text))

abbrev pub of_agent : Text → RegistryRow → Bool
of_agent agent_id r = r.agent_id == agent_id

unfoldable pub row_of : Codec → AgentCredential → Text → RegistryRow
row_of c input token = record {
  agent_id = input.agent_id;
  token_hash = c.hash_agent_token token;
  reach = c.stringify input.reach;
  callback_prefix = input.callback_prefix;
}

unfoldable pub upsert_agent_credential :
    Codec → List RegistryRow → AgentCredential → Text → List RegistryRow
upsert_agent_credential c rows input token =
    if any (of_agent input.agent_id) rows
    then update (of_agent input.agent_id) (λ r. row_of c input token) rows
    else rows ++ row_of c input token ∷ []

unfoldable pub delete_agent_credential : List RegistryRow → Text → List RegistryRow × Bool
delete_agent_credential rows agent_id =
    (delete (of_agent agent_id) rows, any (of_agent agent_id) rows)

-- `filter((id) => typeof id === "string")`
unfoldable pub strings_of : List (Option Text) → List Text
strings_of [] = []
strings_of (none ∷ xs) = strings_of xs
strings_of (some s ∷ xs) = s ∷ strings_of xs

unfoldable pub to_credential : Codec → RegistryRow → AgentCredential
to_credential c r = record {
  agent_id = r.agent_id;
  reach = elim (c.parse_array r.reach) [ none ↦ [] | some xs ↦ strings_of xs ];
  callback_prefix = r.callback_prefix;
}

-- `timingSafeEqual` after the guard on the lengths.
unfoldable pub token_matches : Codec → List ℕ → RegistryRow → Bool
token_matches c presented r =
    eqb (length (c.from_hex r.token_hash)) (length presented)
    && c.from_hex r.token_hash == presented

-- The scan, on what it has found.
unfoldable pub scan : Codec → List ℕ → Option RegistryRow → List RegistryRow → Option RegistryRow
scan c presented found [] = found
scan c presented found (r ∷ rows) =
    scan c presented (if token_matches c presented r then some r else found) rows

unfoldable pub find_agent_by_token : Codec → List RegistryRow → Option Text → Option AgentCredential
find_agent_by_token c rows token = elim (truthy token) [
  | none ↦ none
  | some t ↦ elim (scan c (c.from_hex (c.hash_agent_token t)) none rows) [
    | none ↦ none
    | some r ↦ some (to_credential c r)
  ]
]
