-- ===== src/Answering/Unsent.antt =====
-- The admin link and the sessions that are live.
use shopify_vitrina.Base.{
  ℕ, ◌/◌, ◌<◌, ◌≡◌, refl, true, false, none, List, [], ◌∷◌, ◌++◌, All, any, eqb_refl, is_empty,
  Text, select, update, arith, Bool-cases, inl, inr,
}
use shopify_vitrina.Turn.{Envelope}
use shopify_vitrina.Assignments.{normalize_phone}
use shopify_vitrina.AdminSessions.{
  AdminSessionRow, Sessions, whatsapp, issue_admin_session, revoke_admin_session, live_at,
  revocable, revoke, has_hash, new_session,
}
use shopify_vitrina.Answering.{Server, Services, send_admin_link}

abbrev pub live_sessions : ℕ → Sessions → List AdminSessionRow
live_sessions now db = select (live_at now) db.rows

revoked-select :
    (later now n : ℕ) (x : AdminSessionRow) (rows : List AdminSessionRow)
    → x.session.id ≡ n
    → x.session.revoked_at ≡ none
    → All (λ r. r.session.id < n) rows
    → select (live_at later) (update (revocable n) (revoke now) (rows ++ x ∷ []))
      ≡ select (live_at later) rows
revoked-select later now n x [] e u a = rw (last x e u) refl
  where
    last :
        (y : AdminSessionRow)
        → y.session.id ≡ n
        → y.session.revoked_at ≡ none
        → revocable n y ≡ true
    last y i j = rw (i, j, eqb_refl n) refl
revoked-select later now n x (r ∷ rows) e u a =
    rw (old a.0, revoked-select later now n x rows e u a.1) refl
  where
    old : r.session.id < n → revocable n r ≡ false
    old l = ground (arith, l)

module _ (v : Services) (now : ℕ) (e : Envelope) where
  -- If an admin link cannot be sent, the sessions that are live, then or later, are those that were
  -- so before; the table's ids are below the next.
  pub send_admin_link-unsent :
      (s : Server) (phone token : Text) (later : ℕ)
      → All (λ r. r.session.id < s.sessions.next_id) s.sessions.rows
      → v.sends phone (v.admin_link_message token) ≡ false
      → live_sessions later (send_admin_link v now e s phone token).0.sessions
        ≡ live_sessions later s.sessions
  unfolding send_admin_link issue_admin_session revoke_admin_session
  send_admin_link-unsent s phone token later below f =
      elim (Bool-cases (is_empty (normalize_phone phone))) [
        | inl a ↦ rw (a, send_admin_link) refl
        | inr a ↦
            elim (Bool-cases
              (any (has_hash v.hash_token v.from_hex (v.hash_token token)) s.sessions.rows)) [
                | inl b ↦ rw (a, b, send_admin_link) refl
                | inr b ↦
                    rw (a, b, f, send_admin_link)
                      (revoked-select later (now / 1000) s.sessions.next_id
                        (new_session v.hash_token v.from_hex s.sessions (now / 1000) phone whatsapp
                          token)
                        s.sessions.rows refl refl below)
              ]
      ]
