-- ===== src/Router.antt =====
-- server/src/router.ts: which agent answers, and as what. Of an agent's definition the router reads
-- its id and its roles.
pub mod Total
mod Examples
use shopify_vitrina.Base.{
  Bool, true, false, ◌&&◌, not, Option, none, some, List, [], ◌∷◌, if◌then◌else◌, Text, str, ◌==◌,
  any, is_empty,
}
use shopify_vitrina.Turn.{Role, owner, customer, role_eq}
use shopify_vitrina.Assignments.{Assignments, role_for_phone, normalize_phone}

pub record AgentDefinition : Type 0 where
  pub id : Text
  pub roles : List Role

-- The map `byRole`.
pub record ByRole : Type 0 where
  pub owner_agent : Option Text
  pub customer_agent : Option Text

unfoldable pub get_agent : ByRole → Role → Option Text
get_agent m owner = m.owner_agent
get_agent m customer = m.customer_agent

unfoldable pub set_agent : ByRole → Role → Text → ByRole
set_agent m owner id = record m { owner_agent = some id }
set_agent m customer id = record m { customer_agent = some id }

-- The two errors that the construction throws.
pub data BootError : Type 0 where
  claimed_twice : Role → Text → Text → BootError
  unclaimed : Role → BootError

pub data Boot {ℓ} (A : Type ℓ) : Type ℓ where
  ok : A → Boot A
  throws : BootError → Boot A

-- What follows a check that did not throw.
infixl 5 ◌>>=◌
abbrev pub ◌>>=◌ {ℓ κ} : {A : Type ℓ} {B : Type κ} → Boot A → (A → Boot B) → Boot B
throws problem >>= continue = throws problem
ok result >>= continue = continue result

unfoldable pub claim_role : ByRole → Text → Role → Boot ByRole
claim_role m id role = elim (get_agent m role) [
  | none ↦ ok (set_agent m role id)
  | some claimed ↦
      if claimed == id then ok (set_agent m role id) else throws (claimed_twice role claimed id)
]

unfoldable pub claim_roles : ByRole → Text → List Role → Boot ByRole
claim_roles m id [] = ok m
claim_roles m id (role ∷ roles) = do m' ← claim_role m id role; claim_roles m' id roles

unfoldable pub claim_all : ByRole → List AgentDefinition → Boot ByRole
claim_all m [] = ok m
claim_all m (d ∷ ds) = do m' ← claim_roles m d.id d.roles; claim_all m' ds

unfoldable pub require_role : ByRole → Role → Boot ByRole
require_role m role = elim (get_agent m role) [ none ↦ throws (unclaimed role) | some id ↦ ok m ]

unfoldable pub create_router : List AgentDefinition → Boot ByRole
create_router definitions = do
  m ← claim_all (record { owner_agent = none; customer_agent = none }) definitions
  m' ← require_role m owner
  require_role m' customer

-- The role, and `byRole.get(role)!`.
unfoldable pub route_whatsapp : ByRole → Assignments → Text → Role × Option Text
route_whatsapp m db phone = (role_for_phone db phone, get_agent m (role_for_phone db phone))

unfoldable pub agent_ids : Role → Text
agent_ids owner = str "vitrina-inventario"
agent_ids customer = str "vitrina-ventas"

-- The set of owner phones as a list.
unfoldable pub legacy_session_agent_id : List Text → Text → Text
legacy_session_agent_id owners phone =
    if any (λ p. p == normalize_phone phone) owners then agent_ids owner else agent_ids customer

-- `none` where it throws.
unfoldable pub refusing_legacy_agent_id : List Text → Text → Option Text
refusing_legacy_agent_id [] phone = none
refusing_legacy_agent_id (p ∷ owners) phone = some (legacy_session_agent_id (p ∷ owners) phone)
