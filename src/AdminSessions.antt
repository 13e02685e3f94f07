-- ===== src/AdminSessions.antt =====
-- server/src/data/admin-sessions.ts: the table `admin_sessions`. Times are seconds, as in
-- `datetime('now')`. The token that `mintAgentToken` draws is an argument; `hashAgentToken` and the
-- decoding of a hexadecimal digest into bytes are parameters.
pub mod Valid
pub mod Deadlines
pub mod Revoked
pub mod Tokens
mod Examples
use shopify_vitrina.Base.{
  ℕ, ◌+◌, ◌*◌, Bool, true, false, ◌&&◌, Option, none, some, List, [], ◌∷◌, ◌++◌, if◌then◌else◌, any,
  head?, length, ltb, eqb, Text, ◌==◌, is_empty, select, update, delete,
}
use shopify_vitrina.Turn.{truthy}
use shopify_vitrina.Assignments.{normalize_phone}

abbrev pub claim_ttl : ℕ
claim_ttl = 15 * 60

abbrev pub session_ttl : ℕ
session_ttl = 12 * 3600

pub data AdminIssuedVia : Type 0 where
  whatsapp cli : AdminIssuedVia

pub record AdminSession : Type 0 where
  pub id : ℕ
  pub phone : Text
  pub issued_via : AdminIssuedVia
  pub created_at : ℕ
  pub claimed_at : Option ℕ
  pub expires_at : ℕ
  pub revoked_at : Option ℕ

pub record AdminSessionRow : Type 0 where
  pub session : AdminSession
  pub token_hash : Text

pub record Sessions : Type 0 where
  pub rows : List AdminSessionRow
  pub next_id : ℕ

abbrev pub is_null : Option ℕ → Bool
is_null none = true
is_null (some at) = false

-- `revoked_at IS NULL AND expires_at > datetime('now')`
abbrev pub live_at : ℕ → AdminSessionRow → Bool
live_at now r = is_null r.session.revoked_at && ltb now r.session.expires_at

abbrev pub has_id : ℕ → AdminSessionRow → Bool
has_id id r = eqb r.session.id id

-- `id = @id AND claimed_at IS NULL`
abbrev pub unclaimed : ℕ → AdminSessionRow → Bool
unclaimed id r = has_id id r && is_null r.session.claimed_at

abbrev pub claim : ℕ → AdminSessionRow → AdminSessionRow
claim now r = record r {
  session = record r.session { claimed_at = some now; expires_at = now + session_ttl };
}

abbrev pub revoke : ℕ → AdminSessionRow → AdminSessionRow
revoke now r = record r { session = record r.session { revoked_at = some now } }

-- `SELECT … WHERE id = ?`
unfoldable pub get_session : List AdminSessionRow → ℕ → Option AdminSession
get_session rows id = elim (head? (select (has_id id) rows)) [
  | none ↦ none
  | some r ↦ some r.session
]

module _ (hash : Text → Text) (decode : Text → List ℕ) where
  abbrev pub new_session : Sessions → ℕ → Text → AdminIssuedVia → Text → AdminSessionRow
  new_session db now phone via token = record {
    session = record {
      id = db.next_id;
      phone = normalize_phone phone;
      issued_via = via;
      created_at = now;
      claimed_at = none;
      expires_at = now + claim_ttl;
      revoked_at = none;
    };
    token_hash = hash token;
  }

  abbrev pub has_hash : Text → AdminSessionRow → Bool
  has_hash h r = r.token_hash == h

  -- `none` where it throws: on a phone without digits, or on a hash that is there already.
  unfoldable pub issue_admin_session :
      Sessions → ℕ → Text → AdminIssuedVia → Text → Option (Sessions × AdminSession)
  issue_admin_session db now phone via token =
      if is_empty (normalize_phone phone)
      then none
      else if any (has_hash (hash token)) db.rows
      then none
      else some (
        record {
          rows = db.rows ++ new_session db now phone via token ∷ [];
          next_id = db.next_id + 1;
        },
        (new_session db now phone via token).session,
      )

  -- The guard on the lengths, then `timingSafeEqual`.
  abbrev pub matches : List ℕ → AdminSessionRow → Bool
  matches presented r =
      eqb (length (decode r.token_hash)) (length presented) && decode r.token_hash == presented

  unfoldable pub find_match :
      List ℕ → Option AdminSessionRow → List AdminSessionRow → Option AdminSessionRow
  find_match presented found [] = found
  find_match presented found (r ∷ rows) =
      find_match presented (if matches presented r then some r else found) rows

  -- On the row that was found.
  unfoldable pub claim_found : Sessions → ℕ → AdminSessionRow → Sessions × Option AdminSession
  claim_found db now found = elim found.session.claimed_at [
    | some at ↦ (db, some found.session)
    | none ↦
        let rows = update (unclaimed found.session.id) (claim now) db.rows in
        (record db { rows = rows }, get_session rows found.session.id)
  ]

  unfoldable pub authenticate_token : Sessions → ℕ → Text → Sessions × Option AdminSession
  authenticate_token db now token =
      elim (find_match (decode (hash token)) none (select (live_at now) db.rows)) [
        | none ↦ (db, none)
        | some found ↦ claim_found db now found
      ]

  unfoldable pub authenticate_admin_session :
      Sessions → ℕ → Option Text → Sessions × Option AdminSession
  authenticate_admin_session db now token = elim (truthy token) [
    | none ↦ (db, none)
    | some t ↦ authenticate_token db now t
  ]

abbrev pub revocable : ℕ → AdminSessionRow → Bool
revocable id r = has_id id r && is_null r.session.revoked_at

unfoldable pub revoke_admin_session : Sessions → ℕ → ℕ → Sessions × Bool
revoke_admin_session db now id =
    (record db { rows = update (revocable id) (revoke now) db.rows }, any (revocable id) db.rows)

abbrev pub live_of : Text → ℕ → AdminSessionRow → Bool
live_of phone now r = (r.session.phone == phone) && live_at now r

unfoldable pub revoke_admin_sessions_for_phone : Sessions → ℕ → Text → Sessions × ℕ
revoke_admin_sessions_for_phone db now phone = (
  record db { rows = update (live_of (normalize_phone phone) now) (revoke now) db.rows },
  length (select (live_of (normalize_phone phone) now) db.rows),
)

unfoldable pub count_live_admin_sessions : Sessions → ℕ → ℕ
count_live_admin_sessions db now = length (select (live_at now) db.rows)

abbrev pub dead_since : ℕ → ℕ → AdminSessionRow → Bool
dead_since now days r = ltb (r.session.expires_at + days * 86400) now

unfoldable pub delete_stale_admin_sessions : Sessions → ℕ → ℕ → Sessions × ℕ
delete_stale_admin_sessions db now days = (
  record db { rows = delete (dead_since now days) db.rows },
  length (select (dead_since now days) db.rows),
)
