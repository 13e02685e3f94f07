-- ===== src/AdminDeepLinks/Calls.antt =====
-- The calls on the table of deep links, and what they leave of a code that is spent.
use shopify_vitrina.Base.{
  All-append, ℕ, ◌≡◌, ◌≢◌, refl, true, false, Option, none, some, List, [], ◌∷◌, any, head?, All,
  Text, ==→eq, is_empty, select, update, arith, Bool-cases, Option-cases, inl, inr,
}
use shopify_vitrina.Turn.{truthy}
use shopify_vitrina.Assignments.{normalize_phone}
use shopify_vitrina.AdminSessions.{Sessions, whatsapp, issue_admin_session}
use shopify_vitrina.AdminSessions.Valid.{All-update, All-delete}
use shopify_vitrina.AdminDeepLinks.{
  AdminDeepLink, AdminDeepLinkRow, Links, Tables, DeepLinkInput, unused, open_at, has_id, used,
  has_hash, mint_admin_deep_link, code_matches, find_link, spend, redeem_code,
  redeem_admin_deep_link, dead_since, delete_stale_admin_deep_links,
}

pub data Call : Type 0 where
  mint : ℕ → DeepLinkInput → Text → Call
  redeem : ℕ → Option Text → Text → Call
  sweep : ℕ → ℕ → Call
  -- Whatever else becomes of the sessions.
  sessions_change : Sessions → Call

abbrev minted : Tables → Option (Links × AdminDeepLink) → Tables
minted db none = db
minted db (some (links, link)) = record db { links = links }

module _ (hash : Text → Text) (decode : Text → List ℕ) where
  unfoldable pub step : Tables → Call → Tables
  step db (mint now input code) =
      minted db (mint_admin_deep_link hash decode db.links now input code)
  step db (redeem now code token) = (redeem_admin_deep_link hash decode db now code token).0
  step db (sweep now days) = record db {
    links = (delete_stale_admin_deep_links db.links now days).0;
  }
  step db (sessions_change sessions) = record db { sessions = sessions }

  unfoldable pub run : Tables → List Call → Tables
  run db [] = db
  run db (c ∷ cs) = run (step db c) cs

  -- The call mints no code with the bytes of this one's hash.
  abbrev pub MintsOther : Text → Call → Type 0
  MintsOther code (mint now input code') = decode (hash code') ≢ decode (hash code)
  MintsOther code (redeem now code' token) = Unit
  MintsOther code (sweep now days) = Unit
  MintsOther code (sessions_change sessions) = Unit

  -- No row with the code is unused.
  unfoldable pub Spent : Text → Tables → Type 0
  Spent code db =
      All (λ r. code_matches hash decode (decode (hash code)) r ≡ true → unused r ≡ false)
        db.links.rows

  module _ (code : Text) (db : Tables) (h : Spent code db) where
    mint-Spent :
        (now : ℕ) (input : DeepLinkInput) (code' : Text)
        → decode (hash code') ≢ decode (hash code)
        → Spent code (minted db (mint_admin_deep_link hash decode db.links now input code'))
    unfolding Spent mint_admin_deep_link
    mint-Spent now input code' n = elim (Bool-cases (is_empty (normalize_phone input.phone))) [
      | inl e ↦ rw e h
      | inr e ↦ rw e (elim (Bool-cases (any (has_hash hash decode (hash code')) db.links.rows)) [
        | inl f ↦ rw f h
        | inr f ↦
            rw f
              (All-append _ db.links.rows _ h (λ m. absurd (n (==→eq _ _ (ground (arith, m)))), tt))
      ])
    ]

    spend-Spent :
        (now : ℕ) (found : AdminDeepLinkRow) (token : Text)
        → Spent code (spend hash decode db now found token).0
    unfolding spend Spent
    spend-Spent now found token =
        elim (Option-cases
          (issue_admin_session hash decode db.sessions now found.link.phone whatsapp token)) [
            | inl e ↦ rw (e, spend) h
            | inr ((sessions, session), e) ↦
                rw (e, spend)
                  (elim (Option-cases (
                    head? (
                      select (has_id found.link.id)
                        (update (has_id found.link.id) (used now session.id) db.links.rows)))) [
                          | inl n ↦ rw (n, spend) h
                          | inr (r, n) ↦
                              rw (n, spend)
                                (All-update _ _ (has_id found.link.id) (used now session.id)
                                  db.links.rows (λ r a m e. refl) (λ r a m. a) h)
                        ])
          ]

    redeem-Spent :
        (now : ℕ) (code' : Option Text) (token : Text)
        → Spent code (redeem_admin_deep_link hash decode db now code' token).0
    unfolding redeem_admin_deep_link redeem_code
    redeem-Spent now code' token = elim (Option-cases (truthy code')) [
      | inl e ↦ rw (e, redeem_admin_deep_link) h
      | inr (c, e) ↦
          rw (e, redeem_admin_deep_link)
            (elim (Option-cases
              (find_link hash decode (decode (hash c)) none (select (open_at now) db.links.rows))) [
                | inl f ↦ rw (f, redeem_code) h
                | inr (r, f) ↦ rw (f, redeem_code) (spend-Spent now r token)
              ])
    ]

  step-Spent :
      (code : Text) (db : Tables) (c : Call)
      → MintsOther code c
      → Spent code db
      → Spent code (step db c)
  unfolding step delete_stale_admin_deep_links Spent
  step-Spent code db (mint now input code') n h = mint-Spent code db h now input code' n
  step-Spent code db (redeem now code' token) n h = redeem-Spent code db h now code' token
  step-Spent code db (sweep now days) n h = All-delete _ (dead_since now days) db.links.rows h
  step-Spent code db (sessions_change sessions) n h = h

  pub run-Spent :
      (code : Text) (db : Tables) (cs : List Call)
      → All (MintsOther code) cs
      → Spent code db
      → Spent code (run db cs)
  unfolding run
  run-Spent code db [] a h = h
  run-Spent code db (c ∷ cs) a h = run-Spent code (step db c) cs a.1 (step-Spent code db c a.0 h)
