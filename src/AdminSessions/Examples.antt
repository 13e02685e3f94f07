-- ===== src/AdminSessions/Examples.antt =====
-- The theorems on admin sessions at one session that is claimed and used again.
use shopify_vitrina.Base.{
  ◌+◌, ◌≡◌, refl, true, some, List, [], ◌∷◌, All, Text, str, ◌==◌, select, delete, arith,
}
use shopify_vitrina.Assignments.{normalize_phone}
use shopify_vitrina.AdminSessions.{
  Sessions, whatsapp, live_at, issue_admin_session, authenticate_admin_session, authenticate_token,
  claim_found, find_match, get_session, revoke_admin_sessions_for_phone, count_live_admin_sessions,
}
use shopify_vitrina.AdminSessions.Valid.{InTime}
use shopify_vitrina.AdminSessions.Deadlines.{
  Call, issue, authenticate, run, step, empty, run-InTime,
}
use shopify_vitrina.AdminSessions.Revoked.{of_phone, revoke_admin_sessions_for_phone-live}
use shopify_vitrina.AdminSessions.Tokens.{opened, opens, authenticate_admin_session-opened}

-- In place of the hash and its bytes, the token itself.
abbrev same : Text → Text
same t = t

abbrev calls : List Call
calls = issue 100 (str "+57 3001") whatsapp (str "k1") ∷ authenticate 200 (some (str "k1")) ∷ []

abbrev db1 : Sessions
db1 = run same same empty calls

-- After the claim the link still opens hours later.
used_again : opened (authenticate_admin_session same same db1 40_000 (some (str "k1"))).1 ≡ true
unfolding run step issue_admin_session authenticate_admin_session authenticate_token claim_found
    find_match get_session normalize_phone ◌==◌
used_again = refl

run-InTime_example : All InTime (run same same empty calls).rows
run-InTime_example = run-InTime same same calls

authenticate_admin_session-opened_example :
    opened (authenticate_admin_session same same db1 40_000 (some (str "k1"))).1
    ≡ opens same same db1 40_000 (some (str "k1"))
authenticate_admin_session-opened_example =
    authenticate_admin_session-opened same same db1 40_000 (some (str "k1"))

revoke_admin_sessions_for_phone-live_example :
    let (db', n) = revoke_admin_sessions_for_phone db1 300 (str "57 3001") in
    (select (live_at 400) db'.rows
      ≡ delete (of_phone (normalize_phone (str "57 3001"))) (select (live_at 400) db1.rows))
    × (count_live_admin_sessions db' 300 + n ≡ count_live_admin_sessions db1 300)
revoke_admin_sessions_for_phone-live_example =
    revoke_admin_sessions_for_phone-live db1 300 400 (str "57 3001") (omega arith)
