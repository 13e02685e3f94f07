-- ===== src/Assignments/Seeding.antt =====
-- What the seeding of owners does to every phone.
use shopify_vitrina.Base.{
  ◌≡◌, refl, ap, ◌∙◌, Bool, true, false, ◌||◌, ◌&&◌, not, Option, none, some, List, [], ◌∷◌,
  if◌then◌else◌, any, Text, ◌==◌, ==→eq, is_empty, lookup, lookup-insert, arith, lookup-remove,
}
use shopify_vitrina.Turn.{Role, owner, customer}
use shopify_vitrina.Assignments.{
  Assignments, SeedReport, normalize_phone, role_for_phone, assign_role, unassign_phone,
  insert_phone, wanted, seed_phone, seed_all, seed_owner_assignments,
}

abbrev pub contains : Text → List Text → Bool
contains p ps = any (λ q. q == p) ps

contains-insert :
    (p q : Text) (qs : List Text) → contains p (insert_phone q qs) ≡ (q == p || contains p qs)
unfolding insert_phone
contains-insert p q [] = refl
contains-insert p q (r ∷ qs) = ground (arith, contains-insert p q qs, ==→eq q r)

-- A phone is named by the variable if it is the digits of an entry of it.
abbrev pub named : Text → List Text → Bool
named p phones = any (λ q. not (is_empty (normalize_phone q)) && normalize_phone q == p) phones

contains-wanted : (p : Text) (phones : List Text) → contains p (wanted phones) ≡ named p phones
unfolding wanted
contains-wanted p [] = refl
contains-wanted p (q ∷ phones) =
    ground (arith, contains-wanted p phones, contains-insert p (normalize_phone q) (wanted phones))

-- A missing row becomes an owner's; a row that is there stays.
abbrev pub seeded : Bool → Option Role → Option Role
seeded b (some r) = some r
seeded true none = some owner
seeded false none = none

seed_phone-lookup :
    (db : Assignments) (report : SeedReport) (p q : Text)
    → lookup q (seed_phone db report p).0 ≡ seeded (p == q) (lookup q db)
unfolding seed_phone
seed_phone-lookup db report p q = ground (arith, lookup-insert p q owner db, ==→eq p q)

seed_all-lookup :
    (db : Assignments) (report : SeedReport) (phones : List Text) (q : Text)
    → lookup q (seed_all db report phones).0 ≡ seeded (contains q phones) (lookup q db)
unfolding seed_all
seed_all-lookup db report [] q = ground arith
seed_all-lookup db report (p ∷ phones) q =
    seed_all-lookup (seed_phone db report p).0 (seed_phone db report p).1 phones q
    ∙ ap (seeded (contains q phones)) (seed_phone-lookup db report p q)
    ∙ seeded_seeded (p == q) (contains q phones) (lookup q db)
  where
    seeded_seeded : (a b : Bool) (o : Option Role) → seeded b (seeded a o) ≡ seeded (a || b) o
    seeded_seeded true b (some r) = refl
    seeded_seeded false b (some r) = refl
    seeded_seeded true b none = refl
    seeded_seeded false b none = refl

-- After the seeding, a phone that had a row has it still, with the same role, so that no demotion
-- is undone; a phone without one is an owner exactly if the variable names it.
pub seed_owner_assignments-lookup :
    (db : Assignments) (phones : List Text) (q : Text)
    → lookup q (seed_owner_assignments db phones).0 ≡ seeded (named q phones) (lookup q db)
unfolding seed_owner_assignments
seed_owner_assignments-lookup db phones q =
    seed_all-lookup db _ (wanted phones) q
    ∙ ap (λ b. seeded b (lookup q db)) (contains-wanted q phones)

-- A role is granted to the phone whose digits were given, and to no other: after an assignment that
-- does not throw every phone reads as that role if it has those digits, and as before if not.
pub role_for_phone-assign :
    (db db' : Assignments) (p q : Text) (r : Role)
    → assign_role db p r ≡ some db'
    → role_for_phone db' q
      ≡ (if normalize_phone p == normalize_phone q then r else role_for_phone db q)
unfolding assign_role role_for_phone
role_for_phone-assign db db' p q r h =
    ground (arith, lookup-insert (normalize_phone p) (normalize_phone q) r db)

-- A removal makes the phone with those digits a customer, and leaves every other as it was.
pub role_for_phone-unassign :
    (db : Assignments) (p q : Text)
    → role_for_phone (unassign_phone db p).0 q
      ≡ (if normalize_phone p == normalize_phone q then customer else role_for_phone db q)
unfolding unassign_phone role_for_phone
role_for_phone-unassign db p q =
    ground (arith, lookup-remove (normalize_phone p) (normalize_phone q) db)
