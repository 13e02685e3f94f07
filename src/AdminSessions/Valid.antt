-- ===== src/AdminSessions/Valid.antt =====
-- What any calls keep: ids are distinct, and every deadline is the one that its row's times give.
use shopify_vitrina.Base.{
  ℕ, ◌+◌, ◌<◌, ◌⊎◌, ◌≡◌, refl, Bool, true, false, ◌||◌, none, some, List, [], ◌∷◌, ◌++◌, map, eqb,
  All, All-map_to, select, update, delete, arith, Bool-cases, inl, inr,
}
use shopify_vitrina.Inbox.Ids.{includes, Distinct}
use shopify_vitrina.AdminSessions.{AdminSessionRow, Sessions, claim_ttl, session_ttl}

-- The deadline of a row: 15 minutes after its creation while nobody has claimed it; after a claim,
-- which came before that, 12 hours after the claim.
abbrev pub InTime : AdminSessionRow → Type 0
InTime r =
    (r.session.claimed_at ≡ none × r.session.expires_at ≡ r.session.created_at + claim_ttl)
    ⊎ ((at : ℕ) × (r.session.claimed_at ≡ some at)
        × (at < r.session.created_at + claim_ttl)
        × (r.session.expires_at ≡ at + session_ttl))

abbrev pub ids_of : List AdminSessionRow → List ℕ
ids_of = map (λ r. r.session.id)

pub record IsValid (db : Sessions) : Type 0 where
  pub ids : Distinct (ids_of db.rows)
  pub below : All (λ r. r.session.id < db.next_id) db.rows
  pub in_time : All InTime db.rows

-- Every row with the id of `r` is `r`.
abbrev pub Sole : AdminSessionRow → List AdminSessionRow → Type 0
Sole r = All (λ s. s.session.id ≡ r.session.id → s ≡ r)

pub All-both :
    {A : Type 0} (P Q : A → Type 0) (xs : List A) → All P xs → All Q xs → All (λ x. P x × Q x) xs
All-both P Q [] h k = tt
All-both P Q (x ∷ xs) h k = ((h.0, k.0), All-both P Q xs h.1 k.1)

pub All-select :
    {A : Type 0} (P : A → Type 0) (p : A → Bool) (xs : List A)
    → All P xs
    → All (λ x. P x × (p x ≡ true)) (select p xs)
All-select P p [] h = tt
All-select P p (x ∷ xs) h = elim (Bool-cases (p x)) [
  | inl e ↦ rw e ((h.0, e), All-select P p xs h.1)
  | inr e ↦ rw e (All-select P p xs h.1)
]

pub All-update :
    {A : Type 0} (P Q : A → Type 0) (p : A → Bool) (f : A → A) (xs : List A)
    → ((x : A) → P x → p x ≡ true → Q (f x))
    → ((x : A) → P x → p x ≡ false → Q x)
    → All P xs
    → All Q (update p f xs)
All-update P Q p f [] h k a = tt
All-update P Q p f (x ∷ xs) h k a = elim (Bool-cases (p x)) [
  | inl e ↦ rw e (h x a.0 e, All-update P Q p f xs h k a.1)
  | inr e ↦ rw e (k x a.0 e, All-update P Q p f xs h k a.1)
]

pub All-delete :
    {A : Type 0} (P : A → Type 0) (p : A → Bool) (xs : List A) → All P xs → All P (delete p xs)
All-delete P p [] h = tt
All-delete P p (x ∷ xs) h = ground (arith, All-delete P p xs h.1)

absent :
    (i : ℕ) (rs : List AdminSessionRow)
    → includes i (ids_of rs) ≡ false
    → All (λ s. s.session.id ≡ i → ⊥) rs
absent i [] h = tt
absent i (r ∷ rs) h = (λ e. ground arith, absent i rs (ground arith))

pub Sole-all : (rs : List AdminSessionRow) → Distinct (ids_of rs) → All (λ r. Sole r rs) rs
Sole-all [] d = tt
Sole-all (r ∷ rs) d = (
  (λ e. refl, All-map_to _ _ (λ s n e. absurd (n e)) rs (absent r.session.id rs d.0)),
  All-map_to _ _ (λ s h. (λ e. absurd (h.0 (cc)), h.1)) rs
      (All-both _ _ rs (absent r.session.id rs d.0) (Sole-all rs d.1)),
)

pub ids-update :
    (p : AdminSessionRow → Bool) (f : AdminSessionRow → AdminSessionRow) (rs : List AdminSessionRow)
    → ((r : AdminSessionRow) → (f r).session.id ≡ r.session.id)
    → ids_of (update p f rs) ≡ ids_of rs
ids-update p f [] k = refl
ids-update p f (r ∷ rs) k = ground (arith, k r, ids-update p f rs k)

pub includes-delete :
    (i : ℕ) (p : AdminSessionRow → Bool) (rs : List AdminSessionRow)
    → includes i (ids_of rs) ≡ false
    → includes i (ids_of (delete p rs)) ≡ false
includes-delete i p [] h = refl
includes-delete i p (r ∷ rs) h = ground (arith, includes-delete i p rs)

pub Distinct-delete :
    (p : AdminSessionRow → Bool) (rs : List AdminSessionRow)
    → Distinct (ids_of rs)
    → Distinct (ids_of (delete p rs))
Distinct-delete p [] d = tt
Distinct-delete p (r ∷ rs) d = elim (Bool-cases (p r)) [
  | inl e ↦ rw e (Distinct-delete p rs d.1)
  | inr e ↦ rw e (includes-delete r.session.id p rs d.0, Distinct-delete p rs d.1)
]

includes-snoc :
    (i : ℕ) (x : AdminSessionRow) (rs : List AdminSessionRow)
    → includes i (ids_of (rs ++ x ∷ [])) ≡ (includes i (ids_of rs) || eqb x.session.id i)
includes-snoc i x [] = ground arith
includes-snoc i x (r ∷ rs) = ground (arith, includes-snoc i x rs)

pub Distinct-snoc :
    (x : AdminSessionRow) (rs : List AdminSessionRow)
    → All (λ r. r.session.id < x.session.id) rs
    → Distinct (ids_of rs)
    → Distinct (ids_of (rs ++ x ∷ []))
Distinct-snoc x [] b d = (refl, tt)
Distinct-snoc x (r ∷ rs) b d =
    (ground (arith, includes-snoc r.session.id x rs), Distinct-snoc x rs b.1 d.1)
