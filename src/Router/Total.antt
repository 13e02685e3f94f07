-- ===== src/Router/Total.antt =====
-- A router that boots sends every phone to the one agent that declares its role.
use shopify_vitrina.Base.{
  ◌≡◌, refl, sym, ◌∙◌, Bool, true, false, none, some, List, [], ◌∷◌, if◌then◌else◌, Text, ==→eq,
  any, arith, Bool-cases, Option-cases, inl, inr,
}
use shopify_vitrina.Turn.{Role, owner, customer, role_eq}
use shopify_vitrina.Assignments.{Assignments, role_for_phone}
use shopify_vitrina.Router.{
  AgentDefinition, ByRole, get_agent, set_agent, Boot, ok, throws, ◌>>=◌, claim_role, claim_roles,
  claim_all, require_role, create_router, route_whatsapp,
}

abbrev pub declares : Role → AgentDefinition → Bool
declares role d = any (role_eq role) d.roles

>>=-eq-ok :
    {A B : Type 0} (m : Boot A) (f : A → Boot B) (b : B)
    → (m >>= f) ≡ ok b
    → (a : A) × (m ≡ ok a) × (f a ≡ ok b)
>>=-eq-ok (ok a) f b h = (a, refl, h)
>>=-eq-ok (throws e) f b h = cc

-- The map after a role is claimed.
claim_role-get :
    (m m' : ByRole) (id : Text) (role r : Role)
    → claim_role m id role ≡ ok m'
    → get_agent m' r ≡ (if role_eq role r then some id else get_agent m r)
unfolding claim_role set_agent get_agent
claim_role-get m m' id owner owner h = ground arith
claim_role-get m m' id owner customer h = ground arith
claim_role-get m m' id customer owner h = ground arith
claim_role-get m m' id customer customer h = ground arith

claim_role-agrees :
    (m m' : ByRole) (id x : Text) (role : Role)
    → claim_role m id role ≡ ok m'
    → get_agent m role ≡ some x
    → x ≡ id
unfolding claim_role
claim_role-agrees m m' id x role h e = ground (arith, ==→eq x id)

role_eq→eq : (a b : Role) → role_eq a b ≡ true → a ≡ b
role_eq→eq owner owner h = refl
role_eq→eq owner customer h = cc
role_eq→eq customer owner h = cc
role_eq→eq customer customer h = refl

role_eq_sym : (a b : Role) → role_eq a b ≡ role_eq b a
role_eq_sym owner owner = refl
role_eq_sym owner customer = refl
role_eq_sym customer owner = refl
role_eq_sym customer customer = refl

-- What is claimed stays claimed.
claim_role-keeps :
    (m m' : ByRole) (id x : Text) (role r : Role)
    → claim_role m id role ≡ ok m'
    → get_agent m r ≡ some x
    → get_agent m' r ≡ some x
claim_role-keeps m m' id x role r h e =
    rw (claim_role-get m m' id role r h) (elim (Bool-cases (role_eq role r)) [
      | inl same ↦
          rw same (ground (arith, claim_role-agrees m m' id x role h, role_eq→eq role r same))
      | inr other ↦ rw other e
    ])

claim_roles-keeps :
    (m m' : ByRole) (id x : Text) (roles : List Role) (r : Role)
    → claim_roles m id roles ≡ ok m'
    → get_agent m r ≡ some x
    → get_agent m' r ≡ some x
unfolding claim_roles
claim_roles-keeps m m' id x [] r h e = ground arith
claim_roles-keeps m m' id x (role ∷ roles) r h e =
    let (m1, a, b) = >>=-eq-ok (claim_role m id role) (λ n. claim_roles n id roles) m' h in
    claim_roles-keeps m1 m' id x roles r b (claim_role-keeps m m1 id x role r a e)

claim_roles-sets :
    (m m' : ByRole) (id : Text) (roles : List Role) (r : Role)
    → claim_roles m id roles ≡ ok m'
    → any (role_eq r) roles ≡ true
    → get_agent m' r ≡ some id
unfolding claim_roles
claim_roles-sets m m' id [] r h e = cc
claim_roles-sets m m' id (role ∷ roles) r h e =
    let (m1, a, b) = >>=-eq-ok (claim_role m id role) (λ n. claim_roles n id roles) m' h in
    elim (Bool-cases (role_eq r role)) [
      | inl same ↦
          claim_roles-keeps m1 m' id id roles r b
            (claim_role-get m m1 id role r a ∙ (rw (role_eq_sym role r, same)))
      | inr other ↦ claim_roles-sets m1 m' id roles r b (ground arith)
    ]

claim_all-keeps :
    (m m' : ByRole) (ds : List AgentDefinition) (x : Text) (r : Role)
    → claim_all m ds ≡ ok m'
    → get_agent m r ≡ some x
    → get_agent m' r ≡ some x
unfolding claim_all
claim_all-keeps m m' [] x r h e = ground arith
claim_all-keeps m m' (d ∷ ds) x r h e =
    let (m1, a, b) = >>=-eq-ok (claim_roles m d.id d.roles) (λ n. claim_all n ds) m' h in
    claim_all-keeps m1 m' ds x r b (claim_roles-keeps m m1 d.id x d.roles r a e)

some→eq : (a b : Text) → some a ≡ some b → a ≡ b
some→eq a b h = cc

-- Every definition that declares the role has the id that the map gives.
abbrev pub Only : Role → Text → List AgentDefinition → Type 0
Only role id [] = Unit
Only role id (d ∷ ds) = (declares role d ≡ true → d.id ≡ id) × Only role id ds

claim_all-sets :
    (m m' : ByRole) (ds : List AgentDefinition) (x : Text) (r : Role)
    → claim_all m ds ≡ ok m'
    → get_agent m' r ≡ some x
    → Only r x ds
unfolding claim_all
claim_all-sets m m' [] x r h e = tt
claim_all-sets m m' (d ∷ ds) x r h e =
    let (m1, a, b) = >>=-eq-ok (claim_roles m d.id d.roles) (λ n. claim_all n ds) m' h in
    (
      λ k.
          some→eq _ _ (
            sym (claim_all-keeps m1 m' ds d.id r b (claim_roles-sets m m1 d.id d.roles r a k)) ∙ e),
      claim_all-sets m1 m' ds x r b e,
    )

claim_roles-origin :
    (m m' : ByRole) (id : Text) (roles : List Role) (r : Role)
    → claim_roles m id roles ≡ ok m'
    → any (role_eq r) roles ≡ false
    → get_agent m' r ≡ get_agent m r
unfolding claim_roles
claim_roles-origin m m' id [] r h e = ground arith
claim_roles-origin m m' id (role ∷ roles) r h e =
    let (m1, a, b) = >>=-eq-ok (claim_role m id role) (λ n. claim_roles n id roles) m' h in
    claim_roles-origin m1 m' id roles r b (ground arith)
    ∙ claim_role-get m m1 id role r a
    ∙ (ground (arith, role_eq_sym role r))

claim_all-origin :
    (m m' : ByRole) (ds : List AgentDefinition) (r : Role)
    → claim_all m ds ≡ ok m'
    → any (declares r) ds ≡ false
    → get_agent m' r ≡ get_agent m r
unfolding claim_all
claim_all-origin m m' [] r h e = ground arith
claim_all-origin m m' (d ∷ ds) r h e =
    let (m1, a, b) = >>=-eq-ok (claim_roles m d.id d.roles) (λ n. claim_all n ds) m' h in
    claim_all-origin m1 m' ds r b (ground arith)
    ∙ claim_roles-origin m m1 d.id d.roles r a (ground arith)

require_role-some :
    (m m' : ByRole) (r : Role)
    → require_role m r ≡ ok m'
    → (id : Text) × (get_agent m r ≡ some id) × (m' ≡ m)
unfolding require_role
require_role-some m m' r h = elim (Option-cases (get_agent m r)) [
  | inl e ↦ absurd (cc (rw (e, require_role) at h))
  | inr (id, e) ↦ (id, e, ground arith)
]

create_router-cases :
    (ds : List AgentDefinition) (m : ByRole)
    → create_router ds ≡ ok m
    → (claim_all (record { owner_agent = none; customer_agent = none }) ds ≡ ok m)
      × ((r : Role) → (id : Text) × (get_agent m r ≡ some id))
unfolding create_router
create_router-cases ds m h =
    let (a, e, k) =
      >>=-eq-ok (claim_all (record { owner_agent = none; customer_agent = none }) ds) _ m h in
    let (b, f, l) = >>=-eq-ok (require_role a owner) (λ n. require_role n customer) m k in
    let (own, g, same) = require_role-some a b owner f in
    let (cust, g', same') = require_role-some b m customer l in
    (cc, each own cust (rw (same', same) g) (rw same' g'))
  where
    each :
        (x y : Text)
        → get_agent m owner ≡ some x
        → get_agent m customer ≡ some y
        → (r : Role) → (id : Text) × (get_agent m r ≡ some id)
    each x y p q owner = (x, p)
    each x y p q customer = (y, q)

nothing :
    (r : Role) (id : Text)
    → some id ≡ get_agent (record { owner_agent = none; customer_agent = none }) r
    → ⊥
unfolding get_agent
nothing owner id e = cc
nothing customer id e = cc

-- If the definitions boot, every phone is routed to some agent: the one id that all definitions
-- which declare the phone's role share, and at least one does, whatever order they come in.
pub route_whatsapp-agent :
    (ds : List AgentDefinition) (m : ByRole) (db : Assignments) (phone : Text)
    → create_router ds ≡ ok m
    → let (role, agent) = route_whatsapp m db phone in
      (id : Text) × (agent ≡ some id) × Only role id ds × (any (declares role) ds ≡ true)
unfolding route_whatsapp
route_whatsapp-agent ds m db phone h =
    let (claimed, each) = create_router-cases ds m h in
    let (id, e) = each (role_for_phone db phone) in
    (id, e, claim_all-sets _ m ds id _ claimed e, declared (role_for_phone db phone) claimed e)
  where
    declared :
        (r : Role) {id : Text}
        → claim_all (record { owner_agent = none; customer_agent = none }) ds ≡ ok m
        → get_agent m r ≡ some id
        → any (declares r) ds ≡ true
    declared r c e = elim (Bool-cases (any (declares r) ds)) [
      | inl yes' ↦ yes'
      | inr no' ↦ absurd (nothing r _ (sym e ∙ claim_all-origin _ m ds r c no'))
    ]
