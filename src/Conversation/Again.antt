-- ===== src/Conversation/Again.antt =====
-- Both recorders are called again on a retry, and write nothing twice.
use native.Mathlib.Nat.{zero-add}
use shopify_vitrina.Base.{
  ℕ, ◌≡◌, refl, true, false, ◌||◌, Option, List, [], ◌∷◌, ◌++◌, any, All, Text, ◌==◌, ==_refl,
  arith,
}
use shopify_vitrina.Inbox.Rows.{InboxRow}
use shopify_vitrina.Conversation.{
  ConversationMessage, Messages, has_key, insert_or_ignore, inbound_dedupe_key, inbound_message,
  record_inbound_messages, OutboundInput, outbound_dedupe_key, record_outbound_message,
  outbound_message,
}

any-snoc :
    (k : Text) (m : ConversationMessage) (ms : List ConversationMessage)
    → any (has_key k) (ms ++ m ∷ []) ≡ (any (has_key k) ms || m.dedupe_key == k)
any-snoc k m [] = ground arith
any-snoc k m (n ∷ ms) = ground (arith, any-snoc k m ms)

abbrev Has : Text → Messages → Type 0
Has k db = any (has_key k) db.rows ≡ true

insert_or_ignore-Has :
    (db : Messages) (m : ConversationMessage) → Has m.dedupe_key (insert_or_ignore db m).0
unfolding insert_or_ignore
insert_or_ignore-Has db m =
    ground
      (arith, any-snoc m.dedupe_key (record m { id = db.next_id }) db.rows, ==_refl m.dedupe_key)

insert_or_ignore-keeps :
    (db : Messages) (m : ConversationMessage) (k : Text)
    → Has k db
    → Has k (insert_or_ignore db m).0
unfolding insert_or_ignore
insert_or_ignore-keeps db m k h = ground (arith, any-snoc k (record m { id = db.next_id }) db.rows)

insert_or_ignore-again :
    (db : Messages) (m : ConversationMessage)
    → Has m.dedupe_key db
    → insert_or_ignore db m ≡ (db, 0)
unfolding insert_or_ignore
insert_or_ignore-again db m h = rw h refl

module _ (now : ℕ) (agent_id turn_key : Text) where
  keeps :
      (rows : List InboxRow) (db : Messages) (k : Text)
      → Has k db
      → Has k (record_inbound_messages db now agent_id turn_key rows).0
  unfolding record_inbound_messages
  keeps [] db k h = h
  keeps (row ∷ rows) db k h =
      keeps rows _ k (insert_or_ignore-keeps db (inbound_message agent_id turn_key now row) k h)

  writes :
      (rows : List InboxRow) (db : Messages)
      → All
          (λ r.
            Has (inbound_dedupe_key r.id) (record_inbound_messages db now agent_id turn_key rows).0)
          rows
  unfolding record_inbound_messages
  writes [] db = tt
  writes (row ∷ rows) db = (
    keeps rows _ _ (insert_or_ignore-Has db (inbound_message agent_id turn_key now row)),
    writes rows (insert_or_ignore db (inbound_message agent_id turn_key now row)).0,
  )

skips :
    (now : ℕ) (agent_id turn_key : Text) (rows more : List InboxRow) (db : Messages)
    → All (λ r. Has (inbound_dedupe_key r.id) db) rows
    → record_inbound_messages db now agent_id turn_key (rows ++ more)
      ≡ record_inbound_messages db now agent_id turn_key more
unfolding record_inbound_messages
skips now agent_id turn_key [] more db h = refl
skips now agent_id turn_key (row ∷ rows) more db h =
    rw (insert_or_ignore-again db (inbound_message agent_id turn_key now row) h.0, zero-add)
      (skips now agent_id turn_key rows more db h.1)

-- A retried batch that has absorbed newer messages writes down the newer ones alone: the rows of
-- the earlier attempt, whatever time, agent or turn they come under now, are neither written again
-- nor counted.
pub record_inbound_messages-again :
    (db : Messages) (now later : ℕ) (agent_id agent_id' turn_key turn_key' : Text)
    (rows more : List InboxRow)
    → let db' = (record_inbound_messages db now agent_id turn_key rows).0 in
      record_inbound_messages db' later agent_id' turn_key' (rows ++ more)
      ≡ record_inbound_messages db' later agent_id' turn_key' more
record_inbound_messages-again db now later agent_id agent_id' turn_key turn_key' rows more =
    skips later agent_id' turn_key' rows more _ (writes now agent_id turn_key rows db)

insert_or_ignore-twice :
    (db : Messages) (m n : ConversationMessage)
    → n.dedupe_key ≡ m.dedupe_key
    → insert_or_ignore (insert_or_ignore db m).0 n ≡ ((insert_or_ignore db m).0, 0)
insert_or_ignore-twice db m n e = insert_or_ignore-again _ n (rw e (insert_or_ignore-Has db m))

-- A reply that is recorded again, by the same sender with the same words in the same turn of the
-- same conversation, changes nothing and returns false, whatever else the second call says.
pub record_outbound_message-again :
    (digest : Text → Text → Text → Option Text → Text) (db : Messages) (now later : ℕ)
    (input again : OutboundInput)
    → again.conversation_key ≡ input.conversation_key
    → again.turn_key ≡ input.turn_key
    → again.body ≡ input.body
    → again.sent_by ≡ input.sent_by
    → let db' = (record_outbound_message digest db now input).0 in
      record_outbound_message digest db' later again ≡ (db', false)
unfolding record_outbound_message outbound_dedupe_key
record_outbound_message-again digest db now later input again k t b s =
    rw
      (insert_or_ignore-twice db (outbound_message digest now input)
        (outbound_message digest later again) (rw (k, t, b, s)))
      refl
