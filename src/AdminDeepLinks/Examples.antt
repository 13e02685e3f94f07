-- ===== src/AdminDeepLinks/Examples.antt =====
-- The theorem on deep links at a link that is opened twice.
use shopify_vitrina.Base.{
  ◌≢◌, true, false, subst, ℕ, List, Option, ◌≡◌, refl, some, none, [], ◌∷◌, Text, str, ◌==◌,
}
use shopify_vitrina.Assignments.{normalize_phone}
use shopify_vitrina.AdminSessions.{AdminSession, whatsapp, issue_admin_session}
use shopify_vitrina.AdminDeepLinks.{
  AdminDeepLink, Tables, refused, redeemed, code_matches, find_link, spend, redeem_code,
  redeem_admin_deep_link,
}
use shopify_vitrina.AdminDeepLinks.Calls.{Call, mint, redeem, sweep, run}
use shopify_vitrina.AdminDeepLinks.Once.{AtMostOne, redeem_admin_deep_link-once}

-- In place of the hash and its bytes, the code itself.
abbrev same : Text → Text
same t = t

abbrev ana_link : Option ℕ → Option ℕ → AdminDeepLink
ana_link used_at session_id = record {
  id = 1;
  phone = str "573001";
  conversation_key = none;
  agent_id = none;
  lead_id = none;
  created_at = 100;
  expires_at = 86_500;
  used_at = used_at;
  session_id = session_id;
}

abbrev tables : Tables
tables = record {
  links = record {
    rows = record { link = ana_link none none; code_hash = str "k1" } ∷ [];
    next_id = 2;
  };
  sessions = record { rows = []; next_id = 1 };
}

abbrev session : AdminSession
session = record {
  id = 1;
  phone = str "573001";
  issued_via = whatsapp;
  created_at = 200;
  claimed_at = none;
  expires_at = 1_100;
  revoked_at = none;
}

opened :
    (redeem_admin_deep_link same same tables 200 (some (str "k1")) (str "t1")).1
    ≡ redeemed (ana_link (some 200) (some 1)) session
unfolding redeem_admin_deep_link redeem_code find_link spend issue_admin_session normalize_phone
    ◌==◌
opened = refl

sole : AtMostOne (code_matches same same (str "k1")) tables.links.rows
sole = (λ e. refl, tt)

-- Another link for the phone is minted and opened, and old links are swept.
abbrev between : List Call
between =
    mint 210
      (record { phone = str "573001"; conversation_key = none; agent_id = none; lead_id = none })
      (str "k2")
    ∷ redeem 220 (some (str "k2")) (str "t2")
    ∷ sweep 250 30
    ∷ []

no : false ≡ true → ⊥
no h = cc h

k2-other : str "k2" ≢ str "k1"
unfolding ◌==◌
k2-other e = no (subst (λ x. (x == str "k2") ≡ true) e refl)

redeem_admin_deep_link-once_example :
    (redeem_admin_deep_link same same
      (run same same
        (redeem_admin_deep_link same same tables 200 (some (str "k1")) (str "t1")).0
        between)
      300
      (some (str "k1"))
      (str "t3")).1
    ≡ refused
redeem_admin_deep_link-once_example =
    redeem_admin_deep_link-once same same tables 200 300 (str "k1") (str "t1") (str "t3")
      (ana_link (some 200) (some 1)) session between sole (k2-other, (tt, (tt, tt))) opened
