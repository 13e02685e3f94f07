-- ===== src/Inbox/Doors.antt =====
-- Insertion, by either door: a message is stored once, and an agent conversation has one message
-- in flight.
use mathlib.Core.Logic.{◌↔◌}
use shopify_vitrina.Base.{
  ℕ, ◌+◌, ◌≤◌, ◌≡◌, refl, ap, ◌⊎◌, Bool, true, false, ◌||◌, none, some, List, [], ◌∷◌, ◌++◌, any,
  length, length-append, Text, ==_refl, select, select-append, arith, Bool-cases, inl, inr,
}
use shopify_vitrina.Inbox.Rows.{InboxRow, InboxInput}
use shopify_vitrina.Inbox.Tables.{
  Inbox, insert_message, insert_agent_message, has_key, new_row, in_flight,
}

any-snoc :
    (p : InboxRow → Bool) (r : InboxRow) (rs : List InboxRow)
    → any p (rs ++ r ∷ []) ≡ (any p rs || p r)
any-snoc p r [] = ground arith
any-snoc p r (s ∷ rs) = ground (arith, any-snoc p r rs)

-- However often a message is delivered, and whatever else the later delivery says, the table after
-- the first delivery stays as it is: a second one with its dedupe key is told that nothing is new.
pub insert_message-twice :
    (db : Inbox) (now later : ℕ) (input again : InboxInput)
    → again.dedupe_key ≡ input.dedupe_key
    → insert_message (insert_message db now input).0 later again
      ≡ ((insert_message db now input).0, none)
unfolding insert_message
insert_message-twice db now later input again e =
    elim (Bool-cases (any (has_key input.dedupe_key) db.rows)) [
      | inl f ↦ rw (f, e, f) refl
      | inr f ↦
          rw (f, e, any-snoc (has_key input.dedupe_key) _ db.rows, ==_refl input.dedupe_key)
            (ground arith)
    ]

-- The rows of a conversation that are not settled.
abbrev pub open_rows : Text → Inbox → List InboxRow
open_rows key db = select (in_flight key) db.rows

none-select : (p : InboxRow → Bool) (rs : List InboxRow) → any p rs ≡ false → select p rs ≡ []
none-select p [] h = refl
none-select p (r ∷ rs) h = ground (arith, none-select p rs)

some-select :
    (p : InboxRow → Bool) (rs : List InboxRow) → any p rs ≡ true → 1 ≤ length (select p rs)
some-select p [] h = cc
some-select p (r ∷ rs) h = ground (arith, some-select p rs)

pub insert_message-rows :
    (db : Inbox) (now : ℕ) (input : InboxInput)
    → ((insert_message db now input).0.rows ≡ db.rows)
      ⊎ ((x : InboxRow) × (x.received_at ≡ now)
          × ((insert_message db now input).0.rows ≡ db.rows ++ x ∷ []))
unfolding insert_message
insert_message-rows db now input = elim (Bool-cases (any (has_key input.dedupe_key) db.rows)) [
  | inl e ↦ inl (rw e)
  | inr e ↦ inr (new_row db now input, refl, rw e refl)
]

open_rows-insert :
    (key : Text) (db : Inbox) (now : ℕ) (input : InboxInput)
    → length (open_rows key (insert_message db now input).0) ≤ length (open_rows key db) + 1
open_rows-insert key db now input = elim (insert_message-rows db now input) [
  | inl e ↦ rw e (omega arith)
  | inr (x, _, e) ↦
      rw
        (
          e,
          select-append (in_flight key) db.rows (x ∷ []),
          length-append (select (in_flight key) db.rows) (select (in_flight key) (x ∷ [])),
        )
        (ground arith)
]

-- The agent door refuses a conversation exactly while one of its messages is not settled, and
-- leaves at most one such message behind if there was at most one before.
pub insert_agent_message_one :
    (db : Inbox) (now : ℕ) (key : Text) (input : InboxInput)
    → length (open_rows key db) ≤ 1
    → let (db', out) = insert_agent_message db now key input in
      (length (open_rows key db') ≤ 1)
      × ((out.busy ≡ true) ↔ (1 ≤ length (open_rows key db)))
      × (out.busy ≡ true → (db' ≡ db) × (out.row ≡ none))
unfolding insert_agent_message
insert_agent_message_one db now key input h = elim (Bool-cases (any (in_flight key) db.rows)) [
  | inl e ↦ rw e (h, (λ _. some-select (in_flight key) db.rows e, λ _. refl), λ _. (refl, refl))
  | inr e ↦ rw e (
    omega (
      arith,
      ap length (none-select (in_flight key) db.rows e),
      open_rows-insert key db now (record input { conversation_key = some key }),
    ),
    (λ c. cc, λ c. absurd (omega (arith, c, ap length (none-select (in_flight key) db.rows e)))),
    λ c. cc,
  )
]
