-- ===== src/Router/Examples.antt =====
-- The theorem on the router at the two agents of the program.
use shopify_vitrina.Base.{◌≡◌, refl, true, some, List, [], ◌∷◌, any, Text, str, ◌==◌}
use shopify_vitrina.Turn.{owner, customer}
use shopify_vitrina.Router.{
  AgentDefinition, ByRole, ok, get_agent, set_agent, claim_role, claim_roles, claim_all,
  require_role, create_router, route_whatsapp,
}
use shopify_vitrina.Router.Total.{declares, Only, route_whatsapp-agent}

abbrev inventory : Text
inventory = str "vitrina-inventario"

abbrev sales : Text
sales = str "vitrina-ventas"

abbrev definitions : List AgentDefinition
definitions =
    record { id = inventory; roles = owner ∷ [] }
    ∷ record { id = sales; roles = customer ∷ [] }
    ∷ []

abbrev router : ByRole
router = record { owner_agent = some inventory; customer_agent = some sales }

boots : create_router definitions ≡ ok router
unfolding create_router claim_all claim_roles claim_role require_role get_agent set_agent ◌==◌
boots = refl

route_whatsapp-agent_example :
    let (role, agent) = route_whatsapp router [] (str "573001") in
    (id : Text) × (agent ≡ some id)
    × Only role id definitions
    × (any (declares role) definitions ≡ true)
route_whatsapp-agent_example = route_whatsapp-agent definitions router [] (str "573001") boots
