-- ===== src/AdminDeepLinks/Once.antt =====
-- A code opens one session.
use mathlib.Core.Option.{some-injective}
use shopify_vitrina.Base.{
  ℕ, ◌≡◌, refl, subst, Bool, true, false, Option, none, some, List, [], ◌∷◌, if◌then◌else◌, any,
  head?, All, All-map_to, Text, select, update, arith, Bool-cases, Option-cases, inl, inr,
}
use shopify_vitrina.AdminSessions.{AdminSession, whatsapp, issue_admin_session}
use shopify_vitrina.AdminSessions.Valid.{All-update, All-both, All-select}
use shopify_vitrina.AdminDeepLinks.{
  AdminDeepLink, AdminDeepLinkRow, Tables, Redemption, refused, thrown, redeemed, unused, open_at,
  has_id, used, code_matches, find_link, spend, redeem_code, redeem_admin_deep_link,
}
use shopify_vitrina.AdminDeepLinks.Calls.{Call, run, MintsOther, Spent, run-Spent}

-- At most one row passes the test.
abbrev pub AtMostOne : (AdminDeepLinkRow → Bool) → List AdminDeepLinkRow → Type 0
AtMostOne p [] = Unit
AtMostOne p (r ∷ rs) = (p r ≡ true → any p rs ≡ false) × AtMostOne p rs

-- Every row that passes the test is `r`.
abbrev Only : (AdminDeepLinkRow → Bool) → List AdminDeepLinkRow → AdminDeepLinkRow → Type 0
Only p rs r = All (λ s. p s ≡ true → s ≡ r) rs

none-pass :
    (p : AdminDeepLinkRow → Bool) (rs : List AdminDeepLinkRow)
    → any p rs ≡ false
    → All (λ s. p s ≡ true → ⊥) rs
none-pass p [] h = tt
none-pass p (r ∷ rs) h = (λ e. ground arith, none-pass p rs (ground arith))

AtMostOne-Only :
    (p : AdminDeepLinkRow → Bool) (rs : List AdminDeepLinkRow)
    → AtMostOne p rs
    → All (λ r. p r ≡ true → Only p rs r) rs
AtMostOne-Only p [] h = tt
AtMostOne-Only p (r ∷ rs) h = (
  λ e. (λ f. refl, All-map_to _ _ (λ s n f. absurd (n f)) rs (none-pass p rs (h.0 e))),
  All-map_to _ _ (λ s o e. (λ f. absurd (later s o e f), o.0 e)) rs
      (All-both _ _ rs (AtMostOne-Only p rs h.1) (passes p rs)),
)
  where
    passes :
        (q : AdminDeepLinkRow → Bool) (ss : List AdminDeepLinkRow)
        → All (λ s. q s ≡ true → any q ss ≡ true) ss
    passes q [] = tt
    passes q (s ∷ ss) =
        (λ e. rw e refl, All-map_to _ _ (λ t k e. ground (arith, k e)) ss (passes q ss))

    later :
        (s : AdminDeepLinkRow)
        → (p s ≡ true → Only p rs s) × (p s ≡ true → any p rs ≡ true)
        → p s ≡ true
        → p r ≡ true
        → ⊥
    later s o e f = cc (h.0 f, o.1 e)

module _ (hash : Text → Text) (decode : Text → List ℕ) (presented : List ℕ) where
  -- The row that is found passes the test, and so has what holds of all rows that do.
  find_link-all :
      (Q : AdminDeepLinkRow → Type 0) (found : Option AdminDeepLinkRow) (rs : List AdminDeepLinkRow)
      → ((r : AdminDeepLinkRow) → found ≡ some r → Q r)
      → All (λ r. code_matches hash decode presented r ≡ true → Q r) rs
      → (r : AdminDeepLinkRow) → find_link hash decode presented found rs ≡ some r
      → Q r
  unfolding find_link
  find_link-all Q found [] h a r e = h r e
  find_link-all Q found (x ∷ rs) h a r e =
      find_link-all Q (if code_matches hash decode presented x then some x else found) rs next a.1 r
        e
    where
      next :
          (y : AdminDeepLinkRow)
          → (if code_matches hash decode presented x then some x else found) ≡ some y
          → Q y
      next y e' = elim (Bool-cases (code_matches hash decode presented x)) [
        | inl t ↦ subst Q (some-injective _ _ (rw t at e')) (a.0 t)
        | inr f ↦ h y (rw f at e')
      ]

  find_link-none :
      (later : ℕ) (rs : List AdminDeepLinkRow)
      → All (λ r. code_matches hash decode presented r ≡ true → unused r ≡ false) rs
      → find_link hash decode presented none (select (open_at later) rs) ≡ none
  unfolding find_link
  find_link-none later [] a = refl
  find_link-none later (r ∷ rs) a = elim (Bool-cases (code_matches hash decode presented r)) [
    | inl e ↦ ground (arith, a.0 e, find_link-none later rs a.1)
    | inr e ↦ elim (Bool-cases (open_at later r)) [
      | inl o ↦ rw (o, find_link, e) (find_link-none later rs a.1)
      | inr o ↦ rw (o, find_link) (find_link-none later rs a.1)
    ]
  ]

  used-off :
      (now id : ℕ) (found : AdminDeepLinkRow) (rs : List AdminDeepLinkRow)
      → Only (code_matches hash decode presented) rs found
      → All
          (λ r. code_matches hash decode presented r ≡ true → unused r ≡ false)
          (update (has_id found.link.id) (used now id) rs)
  used-off now id found rs o =
      All-update _ _ (has_id found.link.id) (used now id) rs (λ r h e m. refl)
        (λ r h e m. absurd (off r (h m) e)) o
    where
      off : (r : AdminDeepLinkRow) → r ≡ found → has_id found.link.id r ≡ false → ⊥
      off r e f = ground (arith, e)

module _ (hash : Text → Text) (decode : Text → List ℕ) where
  IsOpened : Redemption → Type 0
  IsOpened refused = ⊥
  IsOpened thrown = ⊥
  IsOpened (redeemed l s) = Unit

  spend-Spent :
      (db : Tables) (now : ℕ) (code token : Text) (found : AdminDeepLinkRow)
      → Only (code_matches hash decode (decode (hash code))) db.links.rows found
      → IsOpened (spend hash decode db now found token).1
      → Spent hash decode code (spend hash decode db now found token).0
  unfolding spend Spent IsOpened
  spend-Spent db now code token found o =
      elim (Option-cases
        (issue_admin_session hash decode db.sessions now found.link.phone whatsapp token)) [
          | inl e ↦ rw (e, spend) (λ h. absurd h)
          | inr ((sessions, session), e) ↦
              rw (e, spend)
                (elim (Option-cases (
                  head? (
                    select (has_id found.link.id)
                      (update (has_id found.link.id) (used now session.id) db.links.rows)))) [
                        | inl n ↦ rw (n, spend) (λ h. absurd h)
                        | inr (r, n) ↦
                            rw (n, spend)
                              (λ h.
                                used-off hash decode (decode (hash code)) now session.id found
                                  db.links.rows o)
                      ])
        ]

  redeem_code-Spent :
      (db : Tables) (now : ℕ) (code token : Text)
      → AtMostOne (code_matches hash decode (decode (hash code))) db.links.rows
      → IsOpened (redeem_code hash decode db now code token).1
      → Spent hash decode code (redeem_code hash decode db now code token).0
  unfolding redeem_code
  redeem_code-Spent db now code token a =
      elim (Option-cases
        (find_link hash decode (decode (hash code)) none (select (open_at now) db.links.rows))) [
          | inl e ↦ rw (e, redeem_code) (λ h. absurd (unfold IsOpened in h))
          | inr (r, e) ↦
              rw (e, redeem_code)
                (spend-Spent db now code token r (
                  find_link-all hash decode (decode (hash code))
                    (Only (code_matches hash decode (decode (hash code))) db.links.rows) none _
                    (λ r n. absurd (cc n))
                    (All-map_to _ _ (λ r h. h.0) _
                      (All-select _ (open_at now) db.links.rows (AtMostOne-Only _ db.links.rows a)))
                    r e))
        ]

  redeem_code-refused :
      (db : Tables) (later : ℕ) (code token : Text)
      → Spent hash decode code db
      → (redeem_code hash decode db later code token).1 ≡ refused
  unfolding redeem_code Spent
  redeem_code-refused db later code token s =
      rw (find_link-none hash decode (decode (hash code)) later db.links.rows s, redeem_code) refl

-- A code that has opened a session is refused from then on, whatever links are minted, redeemed or
-- swept in between and whatever becomes of the sessions, at any time and whatever token is drawn. At
-- the first redemption no two rows have the bytes of its hash, and no code minted since has them.
pub redeem_admin_deep_link-once :
    (hash : Text → Text) (decode : Text → List ℕ) (db : Tables) (now later : ℕ)
    (code token token' : Text) (link : AdminDeepLink) (session : AdminSession) (calls : List Call)
    → AtMostOne (code_matches hash decode (decode (hash code))) db.links.rows
    → All (MintsOther hash decode code) calls
    → (redeem_admin_deep_link hash decode db now (some code) token).1 ≡ redeemed link session
    → (redeem_admin_deep_link hash decode
        (run hash decode (redeem_admin_deep_link hash decode db now (some code) token).0 calls)
        later
        (some code)
        token').1
      ≡ refused
unfolding redeem_admin_deep_link IsOpened
redeem_admin_deep_link-once hash decode db now later [] token token' link session calls a m h = refl
redeem_admin_deep_link-once hash decode db now later (c ∷ code) token token' link session calls a m
      h =
    redeem_code-refused hash decode _ later (c ∷ code) token' (
      run-Spent hash decode (c ∷ code) _ calls m
        (redeem_code-Spent hash decode db now (c ∷ code) token a (rw h tt)))
