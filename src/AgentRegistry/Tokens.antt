-- ===== src/AgentRegistry/Tokens.antt =====
-- The caller that a token identifies.
use shopify_vitrina.Base.{
  ℕ, ◌≡◌, inl, inr, refl, ap, true, false, none, some, List, [], ◌∷◌, ◌++◌, map, any, All, eqb_refl,
  length, Text, ==_refl, update, arith, Bool-cases, is_empty,
}
use shopify_vitrina.Turn.{truthy}
use shopify_vitrina.AgentRegistry.{
  AgentCredential, RegistryRow, Codec, of_agent, row_of, upsert_agent_credential, strings_of,
  to_credential, token_matches, scan, find_agent_by_token,
}

module _ (c : Codec) (presented : List ℕ) where
  -- A row that matches, once found, is only replaced by one that matches.
  scan-all :
      (P : RegistryRow → Type 0) (rows : List RegistryRow) (r : RegistryRow)
      → P r
      → All (λ s. token_matches c presented s ≡ true → P s) rows
      → (s : RegistryRow) × (scan c presented (some r) rows ≡ some s) × P s
  unfolding scan
  scan-all P [] r p a = (r, refl, p)
  scan-all P (t ∷ rows) r p a = elim (Bool-cases (token_matches c presented t)) [
    | inl e ↦ rw e (scan-all P rows t (a.0 e) a.1)
    | inr e ↦ rw e (scan-all P rows r p a.1)
  ]

  scan-any :
      (P : RegistryRow → Type 0) (rows : List RegistryRow)
      → any (token_matches c presented) rows ≡ true
      → All (λ s. token_matches c presented s ≡ true → P s) rows
      → (s : RegistryRow) × (scan c presented none rows ≡ some s) × P s
  unfolding scan
  scan-any P [] h a = absurd (cc h)
  scan-any P (t ∷ rows) h a = elim (Bool-cases (token_matches c presented t)) [
    | inl e ↦ rw e (scan-all P rows t (a.0 e) a.1)
    | inr e ↦ rw e (scan-any P rows (rw e at h) a.1)
  ]

strings_of-some : (xs : List Text) → strings_of (map some xs) ≡ xs
unfolding strings_of
strings_of-some [] = refl
strings_of-some (x ∷ xs) = ap (λ ys. x ∷ ys) (strings_of-some xs)

module _ (c : Codec) (input : AgentCredential) (token : Text) where
  abbrev presented : List ℕ
  presented = c.from_hex (c.hash_agent_token token)

  row_of-matches : token_matches c presented (row_of c input token) ≡ true
  unfolding token_matches row_of
  row_of-matches = rw (eqb_refl (length presented), ==_refl presented) refl

  -- Rows that the upsert writes.
  abbrev New : RegistryRow → Type 0
  New r = r ≡ row_of c input token

  -- The other callers' tokens have other hashes.
  abbrev pub Others : List RegistryRow → Type 0
  Others rows =
      All (λ r. of_agent input.agent_id r ≡ false → token_matches c presented r ≡ false) rows

  updated-new :
      (rows : List RegistryRow)
      → Others rows
      → All
          (λ s. token_matches c presented s ≡ true → New s)
          (update (of_agent input.agent_id) (λ r. row_of c input token) rows)
  updated-new [] o = tt
  updated-new (r ∷ rows) o = elim (Bool-cases (of_agent input.agent_id r)) [
    | inl e ↦ rw e ((λ h. refl), updated-new rows o.1)
    | inr e ↦ rw e ((λ h. absurd (cc (h, o.0 e))), updated-new rows o.1)
  ]

  updated-any :
      (rows : List RegistryRow)
      → any (of_agent input.agent_id) rows ≡ true
      → any
          (token_matches c presented)
          (update (of_agent input.agent_id) (λ r. row_of c input token) rows)
        ≡ true
  updated-any [] h = h
  updated-any (r ∷ rows) h = elim (Bool-cases (of_agent input.agent_id r)) [
    | inl e ↦ rw (e, row_of-matches) refl
    | inr e ↦ rw e (ground (arith, updated-any rows (rw e at h)))
  ]

  added-new :
      (rows : List RegistryRow)
      → any (of_agent input.agent_id) rows ≡ false
      → Others rows
      → All (λ s. token_matches c presented s ≡ true → New s) (rows ++ row_of c input token ∷ [])
  added-new [] h o = ((λ e. refl), tt)
  added-new (r ∷ rows) h o =
      ((λ e. absurd (cc (e, o.0 (ground (arith, h))))), added-new rows (ground (arith, h)) o.1)

  added-any :
      (rows : List RegistryRow)
      → any (token_matches c presented) (rows ++ row_of c input token ∷ []) ≡ true
  added-any [] = rw row_of-matches refl
  added-any (r ∷ rows) = ground (arith, added-any rows)

  found :
      (rows : List RegistryRow)
      → Others rows
      → (s : RegistryRow) × (scan c presented none (upsert_agent_credential c rows input token)
          ≡ some s)
        × New s
  unfolding upsert_agent_credential
  found rows o = elim (Bool-cases (any (of_agent input.agent_id) rows)) [
    | inl e ↦ rw e (scan-any c presented New _ (updated-any rows e) (updated-new rows o))
    | inr e ↦ rw e (scan-any c presented New _ (added-any rows) (added-new rows e o))
  ]

  row-credential :
      c.parse_array (c.stringify input.reach) ≡ some (map some input.reach)
      → to_credential c (row_of c input token) ≡ input
  unfolding to_credential row_of
  row-credential e = rw (e, to_credential) (rw (strings_of-some input.reach) refl)

  -- A credential that is created or rotated is found again by its token, its reach and its callback
  -- prefix as they were given. The token is not empty, no other caller's has the bytes of its hash,
  -- and its reach survives JSON.
  pub find-upsert :
      (rows : List RegistryRow)
      → is_empty token ≡ false
      → c.parse_array (c.stringify input.reach) ≡ some (map some input.reach)
      → Others rows
      → find_agent_by_token c (upsert_agent_credential c rows input token) (some token) ≡ some input
  unfolding find_agent_by_token
  find-upsert rows n e o =
      let (s, p, q) = found rows o in
      rw (given token n, find_agent_by_token)
        (rw (p, find_agent_by_token) (rw q (ap some (row-credential e))))
    where
      given : (t : Text) → is_empty t ≡ false → truthy (some t) ≡ some t
      given [] h = absurd (cc h)
      given (x ∷ t) h = refl
