-- ===== src/Turn.antt =====
-- What a turn is made of: server/src/inbox/envelope.ts, and `Role` and `TurnContext` of
-- server/src/types.ts. `sessionAfterTurn`, which a tool of the agent writes, is left out.
use shopify_vitrina.Base.{ℕ, Bool, true, false, Option, none, some, Text, [], ◌∷◌}

pub data Role : Type 0 where
  owner customer : Role

abbrev pub role_eq : Role → Role → Bool
role_eq owner owner = true
role_eq customer customer = true
role_eq _ _ = false

pub data Principal : Type 0 where
  whatsapp : Text → Principal
  agent : Text → Principal

abbrev pub principal_id : Principal → Text
principal_id (whatsapp phone) = phone
principal_id (agent agent_id) = agent_id

pub record Envelope : Type 0 where
  pub principal : Principal
  pub agent_id : Text
  pub conversation_key : Text
  pub text : Text
  pub turn_key : Text
  pub reply_to : Option Text
  pub hop : ℕ

pub record TurnContext : Type 0 where
  pub principal : Principal
  pub phone : Option Text
  pub role : Option Role
  pub agent_id : Text
  pub conversation_key : Text
  pub turn_key : Text
  pub hop : ℕ

-- What a test such as `if (!value)` lets through of a string or null.
abbrev pub truthy : Option Text → Option Text
truthy none = none
truthy (some []) = none
truthy (some (c ∷ s)) = some (c ∷ s)
