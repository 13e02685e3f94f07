-- ===== src/Inbox/Calls.antt =====
-- Any sequence of calls of the inbox.
use shopify_vitrina.Base.{ℕ, refl, List, [], ◌∷◌, Text, select}
use shopify_vitrina.Inbox.Rows.{InboxInput}
use shopify_vitrina.Inbox.Tables.{
  Inbox, insert_message, insert_agent_message, set_transcript, set_audio_path, clear_media,
  claim_batch, mark_batch_done, mark_batch_failed, mark_batch_pending, delete_stale, claimed,
  by_arrival, in_flight, ids_of, as_done, as_failed, as_pending,
}
use shopify_vitrina.Inbox.Valid.{
  IsValid, empty, insert_message-IsValid, insert_agent_message-IsValid, update-IsValid,
  for_ids-IsValid, delete-IsValid,
}

pub data Call : Type 0 where
  insert : ℕ → InboxInput → Call
  insert_agent : ℕ → Text → InboxInput → Call
  transcript : ℕ → Text → Call
  audio_path : ℕ → Text → Call
  clear : ℕ → Call
  claim : Text → Call
  mark_done : ℕ → List ℕ → Call
  mark_failed : ℕ → List ℕ → Call
  mark_pending : List ℕ → Call
  sweep : ℕ → ℕ → ℕ → Call

unfoldable pub step : Inbox → Call → Inbox
step db (insert now input) = (insert_message db now input).0
step db (insert_agent now key input) = (insert_agent_message db now key input).0
step db (transcript id words) = set_transcript db id words
step db (audio_path id path) = set_audio_path db id path
step db (clear id) = clear_media db id
step db (claim key) = (claim_batch db key).0
step db (mark_done now ids) = mark_batch_done db now ids
step db (mark_failed now ids) = mark_batch_failed db now ids
step db (mark_pending ids) = mark_batch_pending db ids
step db (sweep now done_days failed_days) = (delete_stale db now done_days failed_days).0

unfoldable pub run : Inbox → List Call → Inbox
run db [] = db
run db (c ∷ cs) = run (step db c) cs

pub step-IsValid : (db : Inbox) (c : Call) → IsValid db → IsValid (step db c)
unfolding step set_transcript set_audio_path clear_media claim_batch mark_batch_done
    mark_batch_failed mark_batch_pending delete_stale
step-IsValid db (insert now input) v = insert_message-IsValid db now input v
step-IsValid db (insert_agent now key input) v = insert_agent_message-IsValid db now key input v
step-IsValid db (transcript id words) v = update-IsValid _ _ (λ r. (refl, refl)) db v
step-IsValid db (audio_path id path) v = update-IsValid _ _ (λ r. (refl, refl)) db v
step-IsValid db (clear id) v = update-IsValid _ _ (λ r. (refl, refl)) db v
step-IsValid db (claim key) v =
    for_ids-IsValid claimed (λ r. (refl, refl))
      (ids_of (by_arrival (select (in_flight key) db.rows))) db v
step-IsValid db (mark_done now ids) v = for_ids-IsValid (as_done now) (λ r. (refl, refl)) ids db v
step-IsValid db (mark_failed now ids) v =
    for_ids-IsValid (as_failed now) (λ r. (refl, refl)) ids db v
step-IsValid db (mark_pending ids) v = for_ids-IsValid as_pending (λ r. (refl, refl)) ids db v
step-IsValid db (sweep now d f) v = delete-IsValid _ _ (delete-IsValid _ db v)

pub run-IsValid : (db : Inbox) (cs : List Call) → IsValid db → IsValid (run db cs)
unfolding run
run-IsValid db [] v = v
run-IsValid db (c ∷ cs) v = run-IsValid (step db c) cs (step-IsValid db c v)

-- Whatever functions of the inbox are called, in whatever order, no two rows of the table share an
-- id or a dedupe key, and no id reaches the one that is given next.
pub run-empty-IsValid : (cs : List Call) → IsValid (run empty cs)
run-empty-IsValid cs = run-IsValid empty cs (record { ids = tt; below = tt; keys = tt })
