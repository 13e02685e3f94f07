-- ===== src/Inbox/Tables.antt =====
-- The functions of repo.ts over the table. A transaction is one function: nothing runs between its
-- statements.
use shopify_vitrina.Base.{
  ℕ, ◌+◌, ◌*◌, Bool, true, false, Option, none, some, List, [], ◌∷◌, ◌++◌, map, Text, ◌==◌, ltb,
  leb, eqb, if◌then◌else◌, ◌&&◌, any, length, select, update, delete, head?,
}
use shopify_vitrina.Inbox.Rows.{
  text, InboxStatus, pending, processing, done, failed, whatsapp, InboxRow, InboxInput, is_done,
  is_failed, unsettled, or_else,
}

-- `id INTEGER PRIMARY KEY AUTOINCREMENT`: `next_id` is above every id ever given.
pub record Inbox : Type 0 where
  pub rows : List InboxRow
  pub next_id : ℕ

abbrev pub new_row : Inbox → ℕ → InboxInput → InboxRow
new_row db now input = record {
  id = db.next_id;
  dedupe_key = input.dedupe_key;
  phone = input.phone;
  agent_text = input.agent_text;
  kind = or_else input.kind text;
  audio_path = input.audio_path;
  media_ref = input.media_ref;
  media_kind = input.media_kind;
  media_mime = input.media_mime;
  media_name = input.media_name;
  media_sent_at = input.media_sent_at;
  agent_id = input.agent_id;
  principal_kind = or_else input.principal_kind whatsapp;
  principal_id = some (or_else input.principal_id input.phone);
  conversation_key = or_else input.conversation_key input.phone;
  reply_to = input.reply_to;
  hop = or_else input.hop 0;
  status = pending;
  attempts = 0;
  received_at = now;
  processed_at = none;
}

abbrev pub has_key : Text → InboxRow → Bool
has_key k r = r.dedupe_key == k

-- `INSERT OR IGNORE`: the unique `dedupe_key` is the one constraint that typed rows can break.
unfoldable pub insert_message : Inbox → ℕ → InboxInput → Inbox × Option InboxRow
insert_message db now input = if any (has_key input.dedupe_key) db.rows then (db, none) else (
  record db { rows = db.rows ++ new_row db now input ∷ []; next_id = db.next_id + 1 },
  some (new_row db now input),
)

abbrev pub in_flight : Text → InboxRow → Bool
in_flight key r = (r.conversation_key == key) && unsettled r.status

pub record AgentInsert : Type 0 where
  pub row : Option InboxRow
  pub busy : Bool

-- The type of `insertAgentInboxMessage` demands a conversation key, given apart here.
unfoldable pub insert_agent_message : Inbox → ℕ → Text → InboxInput → Inbox × AgentInsert
unfolding insert_message
insert_agent_message db now key input =
    if any (in_flight key) db.rows
    then (db, record { row = none; busy = true })
    else let (db', row) = insert_message db now (record input { conversation_key = some key }) in
      (db', record { row = row; busy = false })

abbrev pub has_id : ℕ → InboxRow → Bool
has_id id r = eqb r.id id

abbrev update_row : Inbox → ℕ → (InboxRow → InboxRow) → Inbox
update_row db id f = record db { rows = update (has_id id) f db.rows }

unfoldable pub set_transcript : Inbox → ℕ → Text → Inbox
set_transcript db id transcript =
    update_row db id (λ r. record r { agent_text = transcript; audio_path = none })

unfoldable pub set_audio_path : Inbox → ℕ → Text → Inbox
set_audio_path db id path =
    update_row db id (λ r. record r { audio_path = some path; media_ref = none })

unfoldable pub clear_media : Inbox → ℕ → Inbox
clear_media db id = update_row db id (λ r. record r { media_ref = none })

unfoldable pub get_row : Inbox → ℕ → Option InboxRow
get_row db id = head? (select (has_id id) db.rows)

-- `ORDER BY received_at ASC, id ASC` over rows in the order of their ids.
unfoldable pub insert_by_arrival : InboxRow → List InboxRow → List InboxRow
insert_by_arrival r [] = r ∷ []
insert_by_arrival r (s ∷ rs) =
    let later = insert_by_arrival r rs in
    if leb r.received_at s.received_at then r ∷ s ∷ rs else s ∷ later

unfoldable pub by_arrival : List InboxRow → List InboxRow
unfolding insert_by_arrival
by_arrival [] = []
by_arrival (r ∷ rs) = insert_by_arrival r (by_arrival rs)

abbrev pub claimed : InboxRow → InboxRow
claimed r = record r { status = processing; attempts = r.attempts + 1 }

-- `for (const id of ids) mark.run(id)`
unfoldable pub for_ids : (InboxRow → InboxRow) → List ℕ → List InboxRow → List InboxRow
for_ids f [] rows = rows
for_ids f (i ∷ ids) rows = for_ids f ids (update (has_id i) f rows)

abbrev pub ids_of : List InboxRow → List ℕ
ids_of = map (λ r. r.id)

unfoldable pub claim_batch : Inbox → Text → Inbox × List InboxRow
unfolding by_arrival for_ids
claim_batch db key =
    let batch = by_arrival (select (in_flight key) db.rows) in
    (record db { rows = for_ids claimed (ids_of batch) db.rows }, map claimed batch)

abbrev pub as_done : ℕ → InboxRow → InboxRow
as_done now r = record r { status = done; processed_at = some now }

abbrev pub as_failed : ℕ → InboxRow → InboxRow
as_failed now r = record r { status = failed; processed_at = some now }

abbrev pub as_pending : InboxRow → InboxRow
as_pending r = record r { status = pending }

unfoldable pub mark_batch_done : Inbox → ℕ → List ℕ → Inbox
unfolding for_ids
mark_batch_done db now ids = record db { rows = for_ids (as_done now) ids db.rows }

unfoldable pub mark_batch_failed : Inbox → ℕ → List ℕ → Inbox
unfolding for_ids
mark_batch_failed db now ids = record db { rows = for_ids (as_failed now) ids db.rows }

unfoldable pub mark_batch_pending : Inbox → List ℕ → Inbox
unfolding for_ids
mark_batch_pending db ids = record db { rows = for_ids as_pending ids db.rows }

unfoldable pub list_replayable : Inbox → List InboxRow
list_replayable db = select (λ r. unsettled r.status) db.rows

-- `processed_at < datetime('now', '-… days')`, which no null is.
abbrev pub older_than : ℕ → ℕ → Option ℕ → Bool
older_than now days none = false
older_than now days (some at) = ltb (at + days * 86400) now

abbrev stale : ℕ → ℕ → (InboxStatus → Bool) → InboxRow → Bool
stale now days settled r = settled r.status && older_than now days r.processed_at

unfoldable pub delete_stale : Inbox → ℕ → ℕ → ℕ → Inbox × ℕ
delete_stale db now done_days failed_days =
    let rows' = delete (stale now done_days is_done) db.rows in
    (
      record db { rows = delete (stale now failed_days is_failed) rows' },
      length (select (stale now done_days is_done) db.rows)
          + length (select (stale now failed_days is_failed) rows'),
    )
