-- ===== src/AdminSessions/Deadlines.antt =====
-- Any sequence of calls on the sessions keeps the deadlines.
use mathlib.Core.Option.{some-injective}
use shopify_vitrina.Base.{
  ℕ, ◌+◌, ◌≡◌, refl, ap, subst, Bool, true, Option, none, some, List, [], ◌∷◌, ◌++◌, if◌then◌else◌,
  any, All, All-append, All-map_to, Text, is_empty, select, update, delete, arith, Bool-cases,
  Option-cases, inl, inr,
}
use shopify_vitrina.Turn.{truthy}
use shopify_vitrina.Assignments.{normalize_phone}
use shopify_vitrina.AdminSessions.{
  AdminIssuedVia, AdminSession, AdminSessionRow, Sessions, live_at, unclaimed, claim, revoke,
  new_session, has_hash, issue_admin_session, matches, find_match, claim_found, authenticate_token,
  authenticate_admin_session, revoke_admin_session, revoke_admin_sessions_for_phone,
  delete_stale_admin_sessions,
}
use shopify_vitrina.AdminSessions.Valid.{
  InTime, IsValid, Sole, Sole-all, All-both, All-select, All-update, All-delete, ids-update,
  Distinct-delete, Distinct-snoc,
}

-- A write that leaves id and times alone, such as a revocation.
revoked-IsValid :
    (p : AdminSessionRow → Bool) (now : ℕ) (db : Sessions)
    → IsValid db
    → IsValid (record db { rows = update p (revoke now) db.rows })
revoked-IsValid p now db v = record {
  ids = rw (ids-update p (revoke now) db.rows (λ r. refl)) v.ids;
  below = All-update _ _ p (revoke now) db.rows (λ r h e. h) (λ r h e. h) v.below;
  in_time = All-update _ _ p (revoke now) db.rows (λ r h e. h) (λ r h e. h) v.in_time;
}

deleted-IsValid :
    (p : AdminSessionRow → Bool) (db : Sessions)
    → IsValid db
    → IsValid (record db { rows = delete p db.rows })
deleted-IsValid p db v = record {
  ids = Distinct-delete p db.rows v.ids;
  below = All-delete _ p db.rows v.below;
  in_time = All-delete _ p db.rows v.in_time;
}

claim-InTime :
    (now : ℕ) (r : AdminSessionRow)
    → InTime r
    → live_at now r ≡ true
    → r.session.claimed_at ≡ none
    → InTime (claim now r)
claim-InTime now r (inl (n, e)) l c = inr (now, refl, ground arith, refl)
claim-InTime now r (inr (at, n, _, _)) l c = absurd (cc n)

claimed-IsValid :
    (now : ℕ) (found : AdminSessionRow) (db : Sessions)
    → IsValid db
    → Sole found db.rows
    → live_at now found ≡ true
    → IsValid (record db { rows = update (unclaimed found.session.id) (claim now) db.rows })
claimed-IsValid now found db v s l = record {
  ids = rw (ids-update (unclaimed found.session.id) (claim now) db.rows (λ r. refl)) v.ids;
  below = All-update _ _ _ (claim now) db.rows (λ r h e. h) (λ r h e. h) v.below;
  in_time =
      All-update _ _ _ (claim now) db.rows
        (λ r h e. claim-InTime now r h.0 (rw (h.1 (ground arith)) l) (ground arith)) (λ r h e. h.0)
        (All-both _ _ db.rows v.in_time s);
}

grown-IsValid :
    (x : AdminSessionRow) (db : Sessions)
    → x.session.id ≡ db.next_id
    → InTime x
    → IsValid db
    → IsValid (record { rows = db.rows ++ x ∷ []; next_id = db.next_id + 1 })
grown-IsValid x db e t v = record {
  ids = Distinct-snoc x db.rows (rw e v.below) v.ids;
  below =
      All-append _ db.rows _ (All-map_to _ _ (λ r h. omega arith) db.rows v.below)
        (omega (arith, e), tt);
  in_time = All-append _ db.rows _ v.in_time (t, tt);
}

module _ (hash : Text → Text) (decode : Text → List ℕ) where
  pub find_match-all :
      (Q : AdminSessionRow → Type 0) (presented : List ℕ) (found : Option AdminSessionRow)
      (rs : List AdminSessionRow)
      → ((r : AdminSessionRow) → found ≡ some r → Q r)
      → All Q rs
      → (r : AdminSessionRow) → find_match hash decode presented found rs ≡ some r
      → Q r
  unfolding find_match
  find_match-all Q presented found [] h a r e = h r e
  find_match-all Q presented found (x ∷ rs) h a r e =
      find_match-all Q presented (if matches hash decode presented x then some x else found) rs next
        a.1 r e
    where
      next :
          (y : AdminSessionRow)
          → (if matches hash decode presented x then some x else found) ≡ some y
          → Q y
      next y e' = elim (Bool-cases (matches hash decode presented x)) [
        | inl t ↦ subst Q (some-injective _ _ (rw t at e')) a.0
        | inr f ↦ h y (rw f at e')
      ]

  issued-IsValid :
      (db db' : Sessions) (s : AdminSession) (now : ℕ) (phone : Text) (via : AdminIssuedVia)
      (token : Text)
      → issue_admin_session hash decode db now phone via token ≡ some (db', s)
      → IsValid db
      → IsValid db'
  unfolding issue_admin_session
  issued-IsValid db db' s now phone via token h v =
      elim (Bool-cases (is_empty (normalize_phone phone))) [
        | inl e ↦ absurd (cc (rw e at h))
        | inr e ↦ elim (Bool-cases (any (has_hash hash decode (hash token)) db.rows)) [
          | inl f ↦ absurd (cc (rw (e, f) at h))
          | inr f ↦ subst IsValid (ap (λ p. p.0) (some-injective _ _ (rw (e, f) at h))) (
              grown-IsValid (new_session hash decode db now phone via token) db refl
                (inl (refl, refl)) v)
        ]
      ]

  found-IsValid :
      (db : Sessions) (now : ℕ) (found : AdminSessionRow)
      → Sole found db.rows
      → live_at now found ≡ true
      → IsValid db
      → IsValid (claim_found hash decode db now found).0
  unfolding claim_found
  found-IsValid db now found s l v = elim (Option-cases found.session.claimed_at) [
    | inl e ↦ rw (e, claim_found) (claimed-IsValid now found db v s l)
    | inr (at, e) ↦ rw (e, claim_found) v
  ]

  token-IsValid :
      (db : Sessions) (now : ℕ) (token : Text)
      → IsValid db
      → IsValid (authenticate_token hash decode db now token).0
  unfolding authenticate_token
  token-IsValid db now token v =
      elim (Option-cases
        (find_match hash decode (decode (hash token)) none (select (live_at now) db.rows))) [
          | inl e ↦ rw (e, authenticate_token) v
          | inr (r, e) ↦
              let q =
                find_match-all (λ r. Sole r db.rows × (live_at now r ≡ true)) _ none _
                  (λ r n. absurd (cc n))
                  (All-select _ (live_at now) db.rows (Sole-all db.rows v.ids)) r e in
              rw (e, authenticate_token) (found-IsValid db now r q.0 q.1 v)
        ]

  authenticated-IsValid :
      (db : Sessions) (now : ℕ) (token : Option Text)
      → IsValid db
      → IsValid (authenticate_admin_session hash decode db now token).0
  unfolding authenticate_admin_session
  authenticated-IsValid db now token v = elim (Option-cases (truthy token)) [
    | inl e ↦ rw (e, authenticate_admin_session) v
    | inr (t, e) ↦ rw (e, authenticate_admin_session) (token-IsValid db now t v)
  ]

pub data Call : Type 0 where
  issue : ℕ → Text → AdminIssuedVia → Text → Call
  authenticate : ℕ → Option Text → Call
  revoke_one : ℕ → ℕ → Call
  revoke_phone : ℕ → Text → Call
  sweep : ℕ → ℕ → Call

abbrev or_same : Sessions → Option (Sessions × AdminSession) → Sessions
or_same db none = db
or_same db (some (db', s)) = db'

module _ (hash : Text → Text) (decode : Text → List ℕ) where
  unfoldable pub step : Sessions → Call → Sessions
  step db (issue now phone via token) =
      or_same db (issue_admin_session hash decode db now phone via token)
  step db (authenticate now token) = (authenticate_admin_session hash decode db now token).0
  step db (revoke_one now id) = (revoke_admin_session db now id).0
  step db (revoke_phone now phone) = (revoke_admin_sessions_for_phone db now phone).0
  step db (sweep now days) = (delete_stale_admin_sessions db now days).0

  unfoldable pub run : Sessions → List Call → Sessions
  run db [] = db
  run db (c ∷ cs) = run (step db c) cs

  step-IsValid : (db : Sessions) (c : Call) → IsValid db → IsValid (step db c)
  unfolding step revoke_admin_session revoke_admin_sessions_for_phone delete_stale_admin_sessions
  step-IsValid db (issue now phone via token) v =
      elim (Option-cases (issue_admin_session hash decode db now phone via token)) [
        | inl e ↦ rw e v
        | inr ((db', s), e) ↦ rw e (issued-IsValid hash decode db db' s now phone via token e v)
      ]
  step-IsValid db (authenticate now token) v = authenticated-IsValid hash decode db now token v
  step-IsValid db (revoke_one now id) v = revoked-IsValid _ now db v
  step-IsValid db (revoke_phone now phone) v = revoked-IsValid _ now db v
  step-IsValid db (sweep now days) v = deleted-IsValid _ db v

  run-IsValid : (db : Sessions) (cs : List Call) → IsValid db → IsValid (run db cs)
  unfolding run
  run-IsValid db [] v = v
  run-IsValid db (c ∷ cs) v = run-IsValid (step db c) cs (step-IsValid db c v)

abbrev pub empty : Sessions
empty = record { rows = []; next_id = 1 }

-- Whatever calls are made, at whatever times, a session's deadline is 15 minutes after its creation
-- until it is claimed, and for good 12 hours after its one claim, which came within these 15
-- minutes: no use of a session extends it.
pub run-InTime :
    (hash : Text → Text) (decode : Text → List ℕ) (cs : List Call)
    → All InTime (run hash decode empty cs).rows
run-InTime hash decode cs =
    (run-IsValid hash decode empty cs (record { ids = tt; below = tt; in_time = tt })).in_time
