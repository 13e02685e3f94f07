-- ===== src/AdminSessions/Revoked.antt =====
-- Revocation by phone.
use shopify_vitrina.Base.{
  ℕ, ◌+◌, ◌≤◌, ◌≡◌, refl, Bool, List, [], ◌∷◌, length, Text, ◌==◌, select, update, delete, arith,
}
use shopify_vitrina.Assignments.{normalize_phone}
use shopify_vitrina.AdminSessions.{
  AdminSessionRow, Sessions, live_at, live_of, revoke, revoke_admin_sessions_for_phone,
  count_live_admin_sessions,
}

abbrev pub of_phone : Text → AdminSessionRow → Bool
of_phone phone r = r.session.phone == phone

revoked-live :
    (phone : Text) (now later : ℕ) (rs : List AdminSessionRow)
    → now ≤ later
    → select (live_at later) (update (live_of phone now) (revoke now) rs)
      ≡ delete (of_phone phone) (select (live_at later) rs)
revoked-live phone now later [] h = refl
revoked-live phone now later (r ∷ rs) h = ground (arith, revoked-live phone now later rs h)

length-live :
    (phone : Text) (now : ℕ) (rs : List AdminSessionRow)
    → length (delete (of_phone phone) (select (live_at now) rs))
        + length (select (live_of phone now) rs)
      ≡ length (select (live_at now) rs)
length-live phone now [] = refl
length-live phone now (r ∷ rs) = ground (arith, length-live phone now rs)

-- After a revocation by phone, the sessions that are live at that time or later are those that
-- would have been, less all of the phone's, whatever way the phone was written; and the number that
-- it returns is how many fewer are live at once.
pub revoke_admin_sessions_for_phone-live :
    (db : Sessions) (now later : ℕ) (phone : Text)
    → now ≤ later
    → let (db', n) = revoke_admin_sessions_for_phone db now phone in
      (select (live_at later) db'.rows
        ≡ delete (of_phone (normalize_phone phone)) (select (live_at later) db.rows))
      × (count_live_admin_sessions db' now + n ≡ count_live_admin_sessions db now)
unfolding revoke_admin_sessions_for_phone count_live_admin_sessions
revoke_admin_sessions_for_phone-live db now later phone h = (
  revoked-live (normalize_phone phone) now later db.rows h,
  rw (revoked-live (normalize_phone phone) now now db.rows (omega arith))
      (length-live (normalize_phone phone) now db.rows),
)
