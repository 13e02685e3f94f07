-- ===== src/Assignments/Examples.antt =====
-- The theorems on assignments at two phones.
use shopify_vitrina.Base.{
  ◌≡◌, refl, some, List, [], ◌∷◌, if◌then◌else◌, Text, str, ◌==◌, lookup, insert,
}
use shopify_vitrina.Turn.{owner, customer}
use shopify_vitrina.Assignments.{
  Assignments, normalize_phone, role_for_phone, assign_role, seed_owner_assignments,
}
use shopify_vitrina.Assignments.Seeding.{
  seeded, named, seed_owner_assignments-lookup, role_for_phone-assign,
}

-- A demoted owner.
abbrev demoted : Assignments
demoted = (str "573001", customer) ∷ []

abbrev phones : List Text
phones = str "+57 3001" ∷ str "573002" ∷ []

seed_owner_assignments-lookup_example :
    lookup (str "573001") (seed_owner_assignments demoted phones).0
    ≡ seeded (named (str "573001") phones) (lookup (str "573001") demoted)
seed_owner_assignments-lookup_example = seed_owner_assignments-lookup demoted phones (str "573001")

granted :
    assign_role demoted (str "+57 3002") owner
    ≡ some ((str "573001", customer) ∷ (str "573002", owner) ∷ [])
unfolding assign_role normalize_phone insert ◌==◌
granted = refl

role_for_phone-assign_example :
    role_for_phone ((str "573001", customer) ∷ (str "573002", owner) ∷ []) (str "573002") ≡ (
      if normalize_phone (str "+57 3002") == normalize_phone (str "573002")
      then owner
      else role_for_phone demoted (str "573002"))
role_for_phone-assign_example =
    role_for_phone-assign demoted ((str "573001", customer) ∷ (str "573002", owner) ∷ [])
      (str "+57 3002") (str "573002") owner granted
