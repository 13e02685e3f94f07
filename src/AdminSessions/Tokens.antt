-- ===== src/AdminSessions/Tokens.antt =====
-- Which tokens open a session.
use shopify_vitrina.Base.{
  ℕ, ◌≡◌, refl, ◌∙◌, sym, Bool, true, false, Option, none, some, List, [], ◌∷◌, any, head?, All,
  All-map_to, Text, select, update, arith, Bool-cases, Option-cases, inl, inr,
}
use shopify_vitrina.Turn.{truthy}
use shopify_vitrina.AdminSessions.{
  AdminSession, AdminSessionRow, Sessions, live_at, has_id, unclaimed, claim, get_session, matches,
  find_match, claim_found, authenticate_token, authenticate_admin_session,
}
use shopify_vitrina.AdminSessions.Valid.{All-select}
use shopify_vitrina.AdminSessions.Deadlines.{find_match-all}

-- Whether a session was returned.
abbrev pub opened : Option AdminSession → Bool
opened none = false
opened (some s) = true

any-updated :
    (id : ℕ) (now : ℕ) (rs : List AdminSessionRow)
    → any (has_id id) (update (unclaimed id) (claim now) rs) ≡ any (has_id id) rs
any-updated id now [] = refl
any-updated id now (r ∷ rs) = ground (arith, any-updated id now rs)

head-some :
    (p : AdminSessionRow → Bool) (rs : List AdminSessionRow)
    → any p rs ≡ true
    → (x : AdminSessionRow) × (head? (select p rs) ≡ some x)
head-some p [] h = absurd (cc h)
head-some p (r ∷ rs) h = elim (Bool-cases (p r)) [
  | inl e ↦ (r, rw e refl)
  | inr e ↦ let (x, q) = head-some p rs (ground arith) in (x, rw e q)
]

get_session-opened :
    (rs : List AdminSessionRow) (id : ℕ)
    → any (has_id id) rs ≡ true
    → opened (get_session rs id) ≡ true
unfolding get_session
get_session-opened rs id h = let (x, e) = head-some (has_id id) rs h in rw (e, get_session) refl

-- Every row is in its table.
present : (rs : List AdminSessionRow) → All (λ r. any (has_id r.session.id) rs ≡ true) rs
present [] = tt
present (r ∷ rs) = (ground arith, All-map_to _ _ (λ s h. ground (arith, h)) rs (present rs))

module _ (hash : Text → Text) (decode : Text → List ℕ) where
  find_match-some :
      (presented : List ℕ) (found : AdminSessionRow) (rs : List AdminSessionRow)
      → (find_match hash decode presented (some found) rs ≡ none)
      → ⊥
  unfolding find_match
  find_match-some presented found [] h = cc
  find_match-some presented found (r ∷ rs) h = elim (Bool-cases (matches hash decode presented r)) [
    | inl e ↦ find_match-some presented r rs (rw e at h)
    | inr e ↦ find_match-some presented found rs (rw e at h)
  ]

  find_match-none :
      (presented : List ℕ) (rs : List AdminSessionRow)
      → find_match hash decode presented none rs ≡ none
      → any (matches hash decode presented) rs ≡ false
  unfolding find_match
  find_match-none presented [] h = refl
  find_match-none presented (r ∷ rs) h = elim (Bool-cases (matches hash decode presented r)) [
    | inl e ↦ absurd (find_match-some presented r rs (rw e at h))
    | inr e ↦ rw e (find_match-none presented rs (rw e at h))
  ]

  found-matches :
      (presented : List ℕ) (found : Option AdminSessionRow) (rs : List AdminSessionRow)
      (r : AdminSessionRow)
      → ((x : AdminSessionRow) → found ≡ some x → any (matches hash decode presented) rs ≡ true)
      → find_match hash decode presented found rs ≡ some r
      → any (matches hash decode presented) rs ≡ true
  unfolding find_match
  found-matches presented found [] r h e = h r e
  found-matches presented found (x ∷ rs) r h e =
      elim (Bool-cases (matches hash decode presented x)) [
        | inl t ↦ rw t refl
        | inr f ↦
            rw f (found-matches presented found rs r (λ y n. ground (arith, h y n)) (rw f at e))
      ]

  claim_found-opened :
      (db : Sessions) (now : ℕ) (found : AdminSessionRow)
      → any (has_id found.session.id) db.rows ≡ true
      → opened (claim_found hash decode db now found).1 ≡ true
  unfolding claim_found
  claim_found-opened db now found h = elim (Option-cases found.session.claimed_at) [
    | inl e ↦
        rw (e, claim_found)
          (get_session-opened _ found.session.id (any-updated found.session.id now db.rows ∙ h))
    | inr (at, e) ↦ rw (e, claim_found) refl
  ]

  authenticate_token-opened :
      (db : Sessions) (now : ℕ) (token : Text)
      → opened (authenticate_token hash decode db now token).1
        ≡ any (matches hash decode (decode (hash token))) (select (live_at now) db.rows)
  unfolding authenticate_token
  authenticate_token-opened db now token =
      elim (Option-cases
        (find_match hash decode (decode (hash token)) none (select (live_at now) db.rows))) [
          | inl e ↦ rw (e, authenticate_token) (sym (find_match-none (decode (hash token)) _ e))
          | inr (r, e) ↦
              let there =
                find_match-all hash decode (λ r. any (has_id r.session.id) db.rows ≡ true) _ none _
                  (λ r n. absurd (cc n))
                  (All-map_to _ _ (λ r h. h.0) _
                    (All-select _ (live_at now) db.rows (present db.rows)))
                  r e in
              let match = found-matches (decode (hash token)) none _ r (λ r n. absurd (cc n)) e in
              rw (e, authenticate_token) (claim_found-opened db now r there ∙ sym match)
        ]

-- Some live row keeps the hash of the token.
abbrev pub opens : (Text → Text) → (Text → List ℕ) → Sessions → ℕ → Option Text → Bool
opens hash decode db now token = elim (truthy token) [
  | none ↦ false
  | some t ↦ any (matches hash decode (decode (hash t))) (select (live_at now) db.rows)
]

-- A token is given a session exactly if it is not empty and some row that is neither revoked nor
-- past its deadline has the bytes of the token's hash.
pub authenticate_admin_session-opened :
    (hash : Text → Text) (decode : Text → List ℕ) (db : Sessions) (now : ℕ) (token : Option Text)
    → opened (authenticate_admin_session hash decode db now token).1
      ≡ opens hash decode db now token
unfolding authenticate_admin_session
authenticate_admin_session-opened hash decode db now token = elim (Option-cases (truthy token)) [
  | inl e ↦ rw (e, authenticate_admin_session, opens) refl
  | inr (t, e) ↦
      rw (e, authenticate_admin_session, opens) (authenticate_token-opened hash decode db now t)
]
