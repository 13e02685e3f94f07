-- ===== src/Assignments.antt =====
-- server/src/data/assignments.ts: who is an owner; with `normalizePhone` of server/src/config.ts.
-- The table is a map from its primary key to the role; `created_at`, which is only ever shown, is
-- left out.
pub mod Seeding
mod Examples
use shopify_vitrina.Base.{
  ℕ, suc, Bool, true, false, Option, none, some, List, [], ◌∷◌, ◌++◌, if◌then◌else◌, length, Text,
  ◌==◌, is_digit, is_empty, Dict, lookup, insert, remove, leb, ltb, eqb, ◌&&◌, ◌||◌,
}
use shopify_vitrina.Turn.{Role, owner, customer, role_eq}

-- `raw.replace(/[^\d]/g, "")`
unfoldable pub normalize_phone : Text → Text
normalize_phone [] = []
normalize_phone (c ∷ s) = let rest = normalize_phone s in if is_digit c then c ∷ rest else rest

-- The table `assignments`, by its primary key.
abbrev pub Assignments : Type 0
Assignments = Dict Role

abbrev pub or_customer : Option Role → Role
or_customer none = customer
or_customer (some r) = r

unfoldable pub role_for_phone : Assignments → Text → Role
role_for_phone db phone = or_customer (lookup (normalize_phone phone) db)

-- `none` where the function throws.
unfoldable pub assign_role : Assignments → Text → Role → Option Assignments
assign_role db phone role =
    if is_empty (normalize_phone phone) then none else some (insert (normalize_phone phone) role db)

abbrev present : Option Role → Bool
present none = false
present (some r) = true

unfoldable pub unassign_phone : Assignments → Text → Assignments × Bool
unassign_phone db phone =
    (remove (normalize_phone phone) db, present (lookup (normalize_phone phone) db))

unfoldable pub count_assigned_owners : Assignments → ℕ
count_assigned_owners [] = 0
count_assigned_owners ((phone, owner) ∷ db) = suc (count_assigned_owners db)
count_assigned_owners ((phone, customer) ∷ db) = count_assigned_owners db

-- `sort()` compares strings by their code units.
unfoldable pub before : Text → Text → Bool
before [] t = true
before (c ∷ s) [] = false
before (c ∷ s) (d ∷ t) = let rest = before s t in if eqb c d then rest else ltb c d

-- `[...new Set(…)].sort()`: inserted in order, once.
unfoldable pub insert_phone : Text → List Text → List Text
insert_phone p [] = p ∷ []
insert_phone p (q ∷ qs) =
    let later = insert_phone p qs in
    if p == q then q ∷ qs else if before p q then p ∷ q ∷ qs else q ∷ later

unfoldable pub wanted : List Text → List Text
wanted [] = []
wanted (p ∷ phones) =
    let rest = wanted phones in
    if is_empty (normalize_phone p) then rest else insert_phone (normalize_phone p) rest

pub record SeedReport : Type 0 where
  pub inserted : List Text
  pub unchanged : List Text
  pub disagreed : List (Text × Role)

-- One round of the loop.
unfoldable pub seed_phone : Assignments → SeedReport → Text → Assignments × SeedReport
seed_phone db report phone = elim (lookup phone db) [
  | none ↦ (insert phone owner db, record report { inserted = report.inserted ++ phone ∷ [] })
  | some owner ↦ (db, record report { unchanged = report.unchanged ++ phone ∷ [] })
  | some customer ↦ (db, record report { disagreed = report.disagreed ++ (phone, customer) ∷ [] })
]

unfoldable pub seed_all : Assignments → SeedReport → List Text → Assignments × SeedReport
seed_all db report [] = (db, report)
seed_all db report (p ∷ phones) =
    let (db', report') = seed_phone db report p in seed_all db' report' phones

unfoldable pub seed_owner_assignments : Assignments → List Text → Assignments × SeedReport
seed_owner_assignments db phones =
    seed_all db (record { inserted = []; unchanged = []; disagreed = [] }) (wanted phones)
