-- ===== src/Inbox/Arrival.antt =====
-- The order of a batch, and the row that its turn key is taken from.
use mathlib.Core.List.{append-nil}
use shopify_vitrina.Base.{
  ℕ, ◌≤◌, ◌≡◌, refl, ap, ◌∙◌, sym, Bool, List, [], ◌∷◌, ◌++◌, map, All, Text, select, select-append,
  update, arith, Bool-cases, inl, inr,
}
use shopify_vitrina.Inbox.Rows.{InboxRow, InboxInput}
use shopify_vitrina.Inbox.Tables.{
  Inbox, insert_message, claim_batch, claimed, by_arrival, insert_by_arrival, in_flight, ids_of,
  mark_batch_pending, as_pending,
}
use shopify_vitrina.Inbox.Valid.{IsValid}
use shopify_vitrina.Inbox.Doors.{insert_message-rows}
use shopify_vitrina.Inbox.Settling.{settle_claimed}

abbrev Early : ℕ → List InboxRow → Type 0
Early t = All (λ r. r.received_at ≤ t)

-- Rows in order of arrival, and of their place in the table where they arrived together.
abbrev pub Arranged : List InboxRow → Type 0
Arranged [] = Unit
Arranged (r ∷ []) = Unit
Arranged (r ∷ s ∷ rs) = (r.received_at ≤ s.received_at) × Arranged (s ∷ rs)

insert-snoc :
    (r x : InboxRow) (rs : List InboxRow)
    → r.received_at ≤ x.received_at
    → insert_by_arrival r (rs ++ x ∷ []) ≡ insert_by_arrival r rs ++ x ∷ []
unfolding insert_by_arrival
insert-snoc r x [] h = ground arith
insert-snoc r x (s ∷ rs) h = ground (arith, insert-snoc r x rs h)

by_arrival-snoc :
    (x : InboxRow) (rs : List InboxRow)
    → Early x.received_at rs
    → by_arrival (rs ++ x ∷ []) ≡ by_arrival rs ++ x ∷ []
unfolding by_arrival insert_by_arrival
by_arrival-snoc x [] e = refl
by_arrival-snoc x (r ∷ rs) e =
    ap (insert_by_arrival r) (by_arrival-snoc x rs e.1) ∙ insert-snoc r x (by_arrival rs) e.0

insert-update :
    (f : InboxRow → InboxRow) (k : (r : InboxRow) → (f r).received_at ≡ r.received_at)
    (r : InboxRow) (rs : List InboxRow)
    → insert_by_arrival (f r) (map f rs) ≡ map f (insert_by_arrival r rs)
unfolding insert_by_arrival
insert-update f k r [] = refl
insert-update f k r (s ∷ rs) = ground (arith, insert-update f k r rs, k r, k s)

by_arrival-map :
    (f : InboxRow → InboxRow) (k : (r : InboxRow) → (f r).received_at ≡ r.received_at)
    (rs : List InboxRow)
    → by_arrival (map f rs) ≡ map f (by_arrival rs)
unfolding by_arrival
by_arrival-map f k [] = refl
by_arrival-map f k (r ∷ rs) =
    ap (insert_by_arrival (f r)) (by_arrival-map f k rs) ∙ insert-update f k r (by_arrival rs)

select-update :
    (key : Text) (rs : List InboxRow)
    → select (in_flight key) (update (in_flight key) (λ r. as_pending (claimed r)) rs)
      ≡ map (λ r. as_pending (claimed r)) (select (in_flight key) rs)
select-update key [] = refl
select-update key (r ∷ rs) = ground (arith, select-update key rs)

Early-select :
    (t : ℕ) (p : InboxRow → Bool) (rs : List InboxRow) → Early t rs → Early t (select p rs)
Early-select t p [] e = tt
Early-select t p (r ∷ rs) e = ground (arith, Early-select t p rs e.1)

abbrev keys_of : List InboxRow → List Text
keys_of = map (λ r. r.dedupe_key)

-- The dedupe keys of the batch that a claim would take from these rows.
batch_keys : List InboxRow → Text → List Text
batch_keys rows key = keys_of (by_arrival (select (in_flight key) rows))

keys-map :
    (f : InboxRow → InboxRow) (k : (r : InboxRow) → (f r).dedupe_key ≡ r.dedupe_key)
    (rs : List InboxRow)
    → keys_of (map f rs) ≡ keys_of rs
keys-map f k [] = refl
keys-map f k (r ∷ rs) = ground (arith, k r, keys-map f k rs)

claim_batch-keys :
    (db : Inbox) (key : Text) → keys_of (claim_batch db key).1 ≡ batch_keys db.rows key
unfolding claim_batch batch_keys
claim_batch-keys db key = keys-map claimed (λ r. refl) _

batch_keys-pending :
    (key : Text) (rs : List InboxRow)
    → batch_keys (update (in_flight key) (λ r. as_pending (claimed r)) rs) key ≡ batch_keys rs key
unfolding batch_keys
batch_keys-pending key rs =
    rw
      (
        select-update key rs,
        by_arrival-map (λ r. as_pending (claimed r)) (λ r. refl) (select (in_flight key) rs),
      )
      (keys-map (λ r. as_pending (claimed r)) (λ r. refl) _)

keys-append : (rs ss : List InboxRow) → keys_of (rs ++ ss) ≡ keys_of rs ++ keys_of ss
keys-append [] ss = refl
keys-append (r ∷ rs) ss = ap (λ t. r.dedupe_key ∷ t) (keys-append rs ss)

abbrev Extends : List Text → List Text → Type 0
Extends long short = (more : List Text) × (long ≡ short ++ more)

batch_keys-snoc :
    (key : Text) (x : InboxRow) (rs : List InboxRow)
    → Early x.received_at rs
    → Extends (batch_keys (rs ++ x ∷ []) key) (batch_keys rs key)
unfolding batch_keys
batch_keys-snoc key x rs e =
    rw (select-append (in_flight key) rs (x ∷ [])) (elim (Bool-cases (in_flight key x)) [
      | inl f ↦ rw f (
        x.dedupe_key ∷ [],
        ap keys_of
              (by_arrival-snoc x (select (in_flight key) rs) (Early-select _ (in_flight key) rs e))
            ∙ keys-append _ (x ∷ []),
      )
      | inr f ↦ rw (f, append-nil (select (in_flight key) rs)) ([], sym (append-nil _))
    ])

Early-update :
    (t : ℕ) (key : Text) (rs : List InboxRow)
    → Early t rs
    → Early t (update (in_flight key) (λ r. as_pending (claimed r)) rs)
Early-update t key [] e = tt
Early-update t key (r ∷ rs) e = ground (arith, Early-update t key rs e.1)

-- A batch that goes back to 'pending' and is claimed again, after one more message has arrived no
-- earlier than the rows of the table, starts with the same rows in the same order: the dedupe keys
-- of the second claim extend those of the first, so the turn key, the first of them, stays.
pub claim_batch-again :
    (db : Inbox) (key : Text) (now : ℕ) (input : InboxInput)
    → IsValid db
    → All (λ r. r.received_at ≤ now) db.rows
    → let (db', batch) = claim_batch db key in
      let again =
        (claim_batch (insert_message (mark_batch_pending db' (ids_of batch)) now input).0 key).1 in
      (more : List Text) × (keys_of again ≡ keys_of batch ++ more)
claim_batch-again db key now input v e =
    rw (claim_batch-keys _ key, claim_batch-keys db key)
      (elim (insert_message-rows back now input) [
        | inl same ↦ (
          [],
          ap (λ rs. batch_keys rs key) (same ∙ rows)
              ∙ batch_keys-pending key db.rows
              ∙ sym (append-nil _),
        )
        | inr (x, at, longer) ↦
            let (more, p) =
              batch_keys-snoc key x (update (in_flight key) (λ r. as_pending (claimed r)) db.rows)
                (rw at (Early-update now key db.rows e)) in
            (
              more,
              ap (λ rs. batch_keys rs key) (longer ∙ ap (λ rs. rs ++ x ∷ []) rows)
                  ∙ p
                  ∙ ap (λ t. t ++ more) (batch_keys-pending key db.rows),
            )
      ])
  where
    back : Inbox
    back = mark_batch_pending (claim_batch db key).0 (ids_of (claim_batch db key).1)

    rows : back.rows ≡ update (in_flight key) (λ r. as_pending (claimed r)) db.rows
    rows = (settle_claimed db key now v).2
