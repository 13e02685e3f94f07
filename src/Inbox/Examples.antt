-- ===== src/Inbox/Examples.antt =====
-- The theorems on the inbox at a short history of it.
use mathlib.Core.Logic.{◌↔◌}
use shopify_vitrina.Base.{
  ◌+◌, ◌≤◌, ◌≡◌, refl, true, none, List, [], ◌∷◌, ◌++◌, map, length, All, Text, str, arith, ◌==◌,
  update, delete,
}
use shopify_vitrina.Inbox.Rows.{InboxInput}
use shopify_vitrina.Inbox.Tables.{
  Inbox, insert_message, insert_agent_message, claim_batch, claimed, by_arrival, insert_by_arrival,
  in_flight, for_ids, ids_of, mark_batch_done, mark_batch_failed, mark_batch_pending, as_done,
  as_failed, as_pending, delete_stale, list_replayable,
}
use shopify_vitrina.Inbox.Valid.{IsValid, empty}
use shopify_vitrina.Inbox.Calls.{Call, insert, claim, mark_done, run, step, run-empty-IsValid}
use shopify_vitrina.Inbox.Settling.{settle_claimed}
use shopify_vitrina.Inbox.Arrival.{claim_batch-again}
use shopify_vitrina.Inbox.Doors.{insert_agent_message_one, open_rows}
use shopify_vitrina.Inbox.Sweep.{delete_stale_lem, expired}

abbrev ana : Text
ana = str "573001"

abbrev luis : Text
luis = str "573002"

abbrev message : Text → Text → Text → InboxInput
message key phone words = record {
  dedupe_key = key;
  phone = phone;
  agent_text = words;
  kind = none;
  audio_path = none;
  media_ref = none;
  media_kind = none;
  media_mime = none;
  media_name = none;
  media_sent_at = none;
  agent_id = none;
  principal_kind = none;
  principal_id = none;
  conversation_key = none;
  reply_to = none;
  hop = none;
}

-- Two messages of one phone, one of another; the one of the other is settled.
abbrev calls : List Call
calls =
    insert 10 (message (str "a1") ana (str "hola"))
    ∷ insert 11 (message (str "b1") luis (str "precio"))
    ∷ insert 12 (message (str "a2") ana (str "camisas"))
    ∷ claim luis
    ∷ mark_done 20 (2 ∷ [])
    ∷ []

abbrev db3 : Inbox
db3 = run empty calls

db3-IsValid : IsValid db3
db3-IsValid = run-empty-IsValid calls

batch_ids : ids_of (claim_batch db3 ana).1 ≡ 1 ∷ 3 ∷ []
unfolding run step insert_message claim_batch by_arrival insert_by_arrival for_ids mark_batch_done
    ◌==◌
batch_ids = refl

run-empty-IsValid_example : IsValid (run empty calls)
run-empty-IsValid_example = run-empty-IsValid calls

settle_claimed_example :
    let (db', batch) = claim_batch db3 ana in
    ((mark_batch_done db' 30 (ids_of batch)).rows
      ≡ update (in_flight ana) (λ r. as_done 30 (claimed r)) db3.rows)
    × ((mark_batch_failed db' 30 (ids_of batch)).rows
        ≡ update (in_flight ana) (λ r. as_failed 30 (claimed r)) db3.rows)
    × ((mark_batch_pending db' (ids_of batch)).rows
        ≡ update (in_flight ana) (λ r. as_pending (claimed r)) db3.rows)
settle_claimed_example = settle_claimed db3 ana 30 db3-IsValid

db3-early : All (λ r. r.received_at ≤ 40) db3.rows
unfolding run step insert_message claim_batch by_arrival insert_by_arrival for_ids mark_batch_done
    ◌==◌
db3-early = (omega arith, (omega arith, (omega arith, tt)))

claim_batch-again_example :
    let (db', batch) = claim_batch db3 ana in
    let back = mark_batch_pending db' (ids_of batch) in
    let again =
      (claim_batch (insert_message back 40 (message (str "a3") ana (str "azules"))).0 ana).1 in
    (more : List Text) × (map (λ r. r.dedupe_key) again ≡ map (λ r. r.dedupe_key) batch ++ more)
claim_batch-again_example =
    claim_batch-again db3 ana 40 (message (str "a3") ana (str "azules")) db3-IsValid db3-early

luis_free : length (open_rows luis db3) ≤ 1
unfolding run step insert_message claim_batch by_arrival insert_by_arrival for_ids mark_batch_done
    ◌==◌
luis_free = omega arith

insert_agent_message_one_example :
    let (db', out) = insert_agent_message db3 40 luis (message (str "g1") luis (str "stock?")) in
    (length (open_rows luis db') ≤ 1)
    × ((out.busy ≡ true) ↔ (1 ≤ length (open_rows luis db3)))
    × (out.busy ≡ true → (db' ≡ db3) × (out.row ≡ none))
insert_agent_message_one_example =
    insert_agent_message_one db3 40 luis (message (str "g1") luis (str "stock?")) luis_free

delete_stale_lem_example :
    let (db', n) = delete_stale db3 1_000_000 7 30 in
    (db'.rows ≡ delete (expired 1_000_000 7 30) db3.rows)
    × (n + length db'.rows ≡ length db3.rows)
    × (list_replayable db' ≡ list_replayable db3)
delete_stale_lem_example = delete_stale_lem db3 1_000_000 7 30
