-- ===== src/Inbox/Grown.antt =====
-- What an insertion makes of the inbox: nothing, or one row more.
use shopify_vitrina.Base.{
  ℕ, ◌+◌, ◌≡◌, ◌⊎◌, refl, ap, Bool, true, false, none, some, [], ◌∷◌, ◌++◌, any, Text, Bool-cases,
  inl, inr,
}
use shopify_vitrina.Inbox.Rows.{InboxRow, InboxInput}
use shopify_vitrina.Inbox.Tables.{
  Inbox, insert_message, insert_agent_message, new_row, has_key, in_flight,
}

-- One row more.
abbrev pub grown : Inbox → InboxRow → Inbox
grown db x = record { rows = db.rows ++ x ∷ []; next_id = db.next_id + 1 }

pub insert-cases :
    (db : Inbox) (now : ℕ) (input : InboxInput)
    → (insert_message db now input ≡ (db, none))
      ⊎ (insert_message db now input
          ≡ (grown db (new_row db now input), some (new_row db now input)))
unfolding insert_message
insert-cases db now input = elim (Bool-cases (any (has_key input.dedupe_key) db.rows)) [
  | inl e ↦ inl (rw e refl)
  | inr e ↦ inr (rw e refl)
]

unfoldable pub agent_row : Inbox → ℕ → Text → InboxInput → InboxRow
agent_row db now key input = new_row db now (record input { conversation_key = some key })

pub insert_agent-cases :
    (db : Inbox) (now : ℕ) (key : Text) (input : InboxInput)
    → ((b : Bool) × (insert_agent_message db now key input ≡ (db, record { row = none; busy = b })))
      ⊎ (insert_agent_message db now key input ≡ (
        grown db (agent_row db now key input),
        record { row = some (agent_row db now key input); busy = false },
      ))
unfolding insert_agent_message agent_row
insert_agent-cases db now key input = elim (Bool-cases (any (in_flight key) db.rows)) [
  | inl b ↦ inl (true, rw b refl)
  | inr b ↦ elim (insert-cases db now (record input { conversation_key = some key })) [
    | inl e ↦ inl (false, rw b (ap (λ p. (p.0, record { row = p.1; busy = false })) e))
    | inr e ↦ inr (rw b (ap (λ p. (p.0, record { row = p.1; busy = false })) e))
  ]
]
