-- ===== src/Handoffs.antt =====
-- The handoff section of server/src/data/repo.ts: the table `conversation_handoff`, whose live rows
-- keep the agent silent. Times are seconds.
pub mod Paused
mod Examples
use shopify_vitrina.Base.{
  ℕ, ◌+◌, Bool, true, false, ◌&&◌, Option, none, some, List, [], ◌∷◌, ◌++◌, any, head?, length,
  Text, ◌==◌, select, update, delete,
}

pub record Handoff : Type 0 where
  pub id : ℕ
  pub conversation_key : Text
  pub agent_id : Text
  pub paused_at : ℕ
  pub paused_by : Text
  pub reason : Option Text
  pub lead_id : Option ℕ
  pub released_at : Option ℕ
  pub released_by : Option Text

pub record HandoffTable : Type 0 where
  pub rows : List Handoff
  pub next_id : ℕ

pub record PauseInput : Type 0 where
  pub conversation_key : Text
  pub agent_id : Text
  pub paused_by : Text
  pub reason : Option Text
  pub lead_id : Option ℕ

abbrev pub of_conversation : Text → Text → Handoff → Bool
of_conversation key agent_id h = h.conversation_key == key && h.agent_id == agent_id

-- `released_at IS NULL`
abbrev pub unreleased : Handoff → Bool
unreleased h = elim h.released_at [ none ↦ true | some at ↦ false ]

abbrev pub live : Text → Text → Handoff → Bool
live key agent_id h = of_conversation key agent_id h && unreleased h

unfoldable pub is_conversation_paused : HandoffTable → Text → Text → Bool
is_conversation_paused db key agent_id = any (live key agent_id) db.rows

-- `ORDER BY id ASC LIMIT 1`, on rows in the order of their ids.
unfoldable pub get_live_handoff : HandoffTable → Text → Text → Option Handoff
get_live_handoff db key agent_id = head? (select (live key agent_id) db.rows)

abbrev pub new_handoff : HandoffTable → ℕ → PauseInput → Handoff
new_handoff db now input = record {
  id = db.next_id;
  conversation_key = input.conversation_key;
  agent_id = input.agent_id;
  paused_at = now;
  paused_by = input.paused_by;
  reason = input.reason;
  lead_id = input.lead_id;
  released_at = none;
  released_by = none;
}

unfoldable pub pause_conversation : HandoffTable → ℕ → PauseInput → HandoffTable × Handoff
pause_conversation db now input = elim (get_live_handoff db input.conversation_key input.agent_id) [
  | some existing ↦ (db, existing)
  | none ↦ (
    record { rows = db.rows ++ new_handoff db now input ∷ []; next_id = db.next_id + 1 },
    new_handoff db now input,
  )
]

abbrev pub released : ℕ → Text → Handoff → Handoff
released now by h = record h { released_at = some now; released_by = some by }

unfoldable pub release_conversation : HandoffTable → ℕ → Text → Text → Text → HandoffTable × ℕ
release_conversation db now key agent_id by = (
  record db { rows = update (live key agent_id) (released now by) db.rows },
  length (select (live key agent_id) db.rows),
)

unfoldable pub delete_conversation_handoffs : HandoffTable → Text → Text → HandoffTable × ℕ
delete_conversation_handoffs db key agent_id = (
  record db { rows = delete (of_conversation key agent_id) db.rows },
  length (select (of_conversation key agent_id) db.rows),
)
