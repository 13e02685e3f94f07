-- ===== src/AdminDeepLinks.antt =====
-- server/src/data/admin-deep-links.ts: the table `admin_deep_links`, whose codes are each good for
-- one session. Times are seconds. The random code and token are arguments; the hash and the decoding
-- of a hexadecimal digest are parameters, as in AdminSessions.
pub mod Calls
pub mod Once
mod Examples
use shopify_vitrina.Base.{
  ℕ, ◌+◌, ◌*◌, Bool, true, false, ◌&&◌, Option, none, some, List, [], ◌∷◌, ◌++◌, if◌then◌else◌, any,
  head?, length, ltb, eqb, Text, ◌==◌, is_empty, select, update, delete,
}
use shopify_vitrina.Turn.{truthy}
use shopify_vitrina.Assignments.{normalize_phone}
use shopify_vitrina.AdminSessions.{AdminSession, Sessions, whatsapp, issue_admin_session}

abbrev pub deep_link_ttl : ℕ
deep_link_ttl = 24 * 3600

pub record AdminDeepLink : Type 0 where
  pub id : ℕ
  pub phone : Text
  pub conversation_key : Option Text
  pub agent_id : Option Text
  pub lead_id : Option ℕ
  pub created_at : ℕ
  pub expires_at : ℕ
  pub used_at : Option ℕ
  pub session_id : Option ℕ

pub record AdminDeepLinkRow : Type 0 where
  pub link : AdminDeepLink
  pub code_hash : Text

pub record Links : Type 0 where
  pub rows : List AdminDeepLinkRow
  pub next_id : ℕ

-- The two tables that a redemption writes.
pub record Tables : Type 0 where
  pub links : Links
  pub sessions : Sessions

pub record DeepLinkInput : Type 0 where
  pub phone : Text
  pub conversation_key : Option Text
  pub agent_id : Option Text
  pub lead_id : Option ℕ

-- What a redemption comes to: null, an error thrown, or the link as it is now and its session.
pub data Redemption : Type 0 where
  refused thrown : Redemption
  redeemed : AdminDeepLink → AdminSession → Redemption

abbrev pub unused : AdminDeepLinkRow → Bool
unused r = elim r.link.used_at [ none ↦ true | some at ↦ false ]

-- `used_at IS NULL AND expires_at > datetime('now')`
abbrev pub open_at : ℕ → AdminDeepLinkRow → Bool
open_at now r = unused r && ltb now r.link.expires_at

abbrev pub has_id : ℕ → AdminDeepLinkRow → Bool
has_id id r = eqb r.link.id id

abbrev pub used : ℕ → ℕ → AdminDeepLinkRow → AdminDeepLinkRow
used now session_id r = record r {
  link = record r.link { used_at = some now; session_id = some session_id };
}

module _ (hash : Text → Text) (decode : Text → List ℕ) where
  abbrev pub new_link : Links → ℕ → DeepLinkInput → Text → AdminDeepLinkRow
  new_link db now input code = record {
    link = record {
      id = db.next_id;
      phone = normalize_phone input.phone;
      conversation_key = input.conversation_key;
      agent_id = input.agent_id;
      lead_id = input.lead_id;
      created_at = now;
      expires_at = now + deep_link_ttl;
      used_at = none;
      session_id = none;
    };
    code_hash = hash code;
  }

  abbrev pub has_hash : Text → AdminDeepLinkRow → Bool
  has_hash h r = r.code_hash == h

  -- `none` where it throws: on a phone without digits, or on a hash that is there already.
  unfoldable pub mint_admin_deep_link :
      Links → ℕ → DeepLinkInput → Text → Option (Links × AdminDeepLink)
  mint_admin_deep_link db now input code =
      if is_empty (normalize_phone input.phone)
      then none
      else if any (has_hash (hash code)) db.rows
      then none
      else some (
        record { rows = db.rows ++ new_link db now input code ∷ []; next_id = db.next_id + 1 },
        (new_link db now input code).link,
      )

  -- The guard on the lengths, then `timingSafeEqual`.
  abbrev pub code_matches : List ℕ → AdminDeepLinkRow → Bool
  code_matches presented r =
      eqb (length (decode r.code_hash)) (length presented) && decode r.code_hash == presented

  unfoldable pub find_link :
      List ℕ → Option AdminDeepLinkRow → List AdminDeepLinkRow → Option AdminDeepLinkRow
  find_link presented found [] = found
  find_link presented found (r ∷ rows) =
      find_link presented (if code_matches presented r then some r else found) rows

  -- The session is issued, and the link marked; an error rolls both back.
  unfoldable pub spend : Tables → ℕ → AdminDeepLinkRow → Text → Tables × Redemption
  spend db now found token =
      elim (issue_admin_session hash decode db.sessions now found.link.phone whatsapp token) [
        | none ↦ (db, thrown)
        | some (sessions, session) ↦
            let rows = update (has_id found.link.id) (used now session.id) db.links.rows in
            elim (head? (select (has_id found.link.id) rows)) [
              | none ↦ (db, thrown)
              | some r ↦ (
                record { links = record db.links { rows = rows }; sessions = sessions },
                redeemed r.link session,
              )
            ]
      ]

  unfoldable pub redeem_code : Tables → ℕ → Text → Text → Tables × Redemption
  redeem_code db now code token =
      elim (find_link (decode (hash code)) none (select (open_at now) db.links.rows)) [
        | none ↦ (db, refused)
        | some found ↦ spend db now found token
      ]

  unfoldable pub redeem_admin_deep_link : Tables → ℕ → Option Text → Text → Tables × Redemption
  redeem_admin_deep_link db now code token = elim (truthy code) [
    | none ↦ (db, refused)
    | some c ↦ redeem_code db now c token
  ]

abbrev pub dead_since : ℕ → ℕ → AdminDeepLinkRow → Bool
dead_since now days r = ltb (r.link.expires_at + days * 86400) now

unfoldable pub delete_stale_admin_deep_links : Links → ℕ → ℕ → Links × ℕ
delete_stale_admin_deep_links db now days = (
  record db { rows = delete (dead_since now days) db.rows },
  length (select (dead_since now days) db.rows),
)
