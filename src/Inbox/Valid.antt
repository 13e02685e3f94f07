-- ===== src/Inbox/Valid.antt =====
-- What every function of the inbox keeps: ids are distinct and below the next one, and no two rows
-- share a dedupe key.
use shopify_vitrina.Base.{
  ℕ, ◌<◌, ◌≡◌, refl, Bool, false, ◌||◌, some, List, [], ◌∷◌, ◌++◌, any, eqb, All, All-append,
  All-map_to, Text, ◌==◌, ==_sym, update, delete, arith, Bool-cases, inl, inr,
}
use shopify_vitrina.Inbox.Rows.{InboxRow, InboxInput}
use shopify_vitrina.Inbox.Tables.{
  Inbox, insert_message, insert_agent_message, in_flight, for_ids, ids_of, has_id, has_key,
}
use shopify_vitrina.Inbox.Ids.{includes, Distinct}

abbrev pub DistinctKeys : List InboxRow → Type 0
DistinctKeys [] = Unit
DistinctKeys (r ∷ rs) = (any (has_key r.dedupe_key) rs ≡ false) × DistinctKeys rs

pub record IsValid (db : Inbox) : Type 0 where
  pub ids : Distinct (ids_of db.rows)
  pub below : All (λ r. r.id < db.next_id) db.rows
  pub keys : DistinctKeys db.rows

abbrev pub empty : Inbox
empty = record { rows = []; next_id = 1 }

-- A write of some rows.
abbrev pub Keeps : (InboxRow → InboxRow) → Type 0
Keeps f = (r : InboxRow) → ((f r).id ≡ r.id) × ((f r).dedupe_key ≡ r.dedupe_key)

module _ (p : InboxRow → Bool) (f : InboxRow → InboxRow) (k : Keeps f) where
  includes-update :
      (i : ℕ) (rs : List InboxRow) → includes i (ids_of (update p f rs)) ≡ includes i (ids_of rs)
  includes-update i [] = refl
  includes-update i (r ∷ rs) = ground (arith, k r, includes-update i rs)

  Distinct-update : (rs : List InboxRow) → Distinct (ids_of rs) → Distinct (ids_of (update p f rs))
  Distinct-update [] d = tt
  Distinct-update (r ∷ rs) d = ground (arith, k r, includes-update r.id rs, Distinct-update rs d.1)

  any-update :
      (key : Text) (rs : List InboxRow) → any (has_key key) (update p f rs) ≡ any (has_key key) rs
  any-update key [] = refl
  any-update key (r ∷ rs) = ground (arith, k r, any-update key rs)

  DistinctKeys-update : (rs : List InboxRow) → DistinctKeys rs → DistinctKeys (update p f rs)
  DistinctKeys-update [] d = tt
  DistinctKeys-update (r ∷ rs) d =
      ground (arith, k r, any-update r.dedupe_key rs, DistinctKeys-update rs d.1)

  below-update :
      (n : ℕ) (rs : List InboxRow) → All (λ r. r.id < n) rs → All (λ r. r.id < n) (update p f rs)
  below-update n [] d = tt
  below-update n (r ∷ rs) d = ground (arith, k r, below-update n rs d.1)

  pub update-IsValid : (db : Inbox) → IsValid db → IsValid (record db { rows = update p f db.rows })
  update-IsValid db v = record {
    ids = Distinct-update db.rows v.ids;
    below = below-update db.next_id db.rows v.below;
    keys = DistinctKeys-update db.rows v.keys;
  }

pub for_ids-IsValid :
    (f : InboxRow → InboxRow) (k : Keeps f) (ids : List ℕ) (db : Inbox)
    → IsValid db
    → IsValid (record db { rows = for_ids f ids db.rows })
unfolding for_ids
for_ids-IsValid f k [] db v = v
for_ids-IsValid f k (i ∷ ids) db v =
    for_ids-IsValid f k ids (record db { rows = update (has_id i) f db.rows })
      (update-IsValid (has_id i) f k db v)

module _ (p : InboxRow → Bool) where
  includes-delete :
      (i : ℕ) (rs : List InboxRow)
      → includes i (ids_of rs) ≡ false
      → includes i (ids_of (delete p rs)) ≡ false
  includes-delete i [] h = refl
  includes-delete i (r ∷ rs) h = ground (arith, includes-delete i rs)

  Distinct-delete : (rs : List InboxRow) → Distinct (ids_of rs) → Distinct (ids_of (delete p rs))
  Distinct-delete [] d = tt
  Distinct-delete (r ∷ rs) d = ground (arith, includes-delete r.id rs d.0, Distinct-delete rs d.1)

  any-delete :
      (key : Text) (rs : List InboxRow)
      → any (has_key key) rs ≡ false
      → any (has_key key) (delete p rs) ≡ false
  any-delete key [] h = refl
  any-delete key (r ∷ rs) h = ground (arith, any-delete key rs)

  DistinctKeys-delete : (rs : List InboxRow) → DistinctKeys rs → DistinctKeys (delete p rs)
  DistinctKeys-delete [] d = tt
  DistinctKeys-delete (r ∷ rs) d =
      ground (arith, any-delete r.dedupe_key rs d.0, DistinctKeys-delete rs d.1)

  below-delete :
      (n : ℕ) (rs : List InboxRow) → All (λ r. r.id < n) rs → All (λ r. r.id < n) (delete p rs)
  below-delete n [] d = tt
  below-delete n (r ∷ rs) d = ground (arith, below-delete n rs d.1)

  pub delete-IsValid : (db : Inbox) → IsValid db → IsValid (record db { rows = delete p db.rows })
  delete-IsValid db v = record {
    ids = Distinct-delete db.rows v.ids;
    below = below-delete db.next_id db.rows v.below;
    keys = DistinctKeys-delete db.rows v.keys;
  }

-- A row under a new id and a new key.
includes-snoc :
    (n i : ℕ) (r : InboxRow) (rs : List InboxRow)
    → includes i (ids_of (rs ++ r ∷ [])) ≡ (includes i (ids_of rs) || eqb r.id i)
includes-snoc n i r [] = ground arith
includes-snoc n i r (s ∷ rs) = ground (arith, includes-snoc n i r rs)

Distinct-snoc :
    (r : InboxRow) (rs : List InboxRow)
    → Distinct (ids_of rs)
    → All (λ s. s.id < r.id) rs
    → Distinct (ids_of (rs ++ r ∷ []))
Distinct-snoc r [] d b = (refl, tt)
Distinct-snoc r (s ∷ rs) d b =
    ground (arith, includes-snoc r.id s.id r rs, Distinct-snoc r rs d.1 b.1)

any-snoc :
    (k : Text) (r : InboxRow) (rs : List InboxRow)
    → any (has_key k) (rs ++ r ∷ []) ≡ (any (has_key k) rs || (r.dedupe_key == k))
any-snoc k r [] = ground arith
any-snoc k r (s ∷ rs) = ground (arith, any-snoc k r rs)

DistinctKeys-snoc :
    (r : InboxRow) (rs : List InboxRow)
    → DistinctKeys rs
    → any (has_key r.dedupe_key) rs ≡ false
    → DistinctKeys (rs ++ r ∷ [])
DistinctKeys-snoc r [] d h = (refl, tt)
DistinctKeys-snoc r (s ∷ rs) d h = ground (
  arith,
  any-snoc s.dedupe_key r rs,
  ==_sym r.dedupe_key s.dedupe_key,
  DistinctKeys-snoc r rs d.1,
)

pub insert_message-IsValid :
    (db : Inbox) (now : ℕ) (input : InboxInput)
    → IsValid db
    → IsValid (insert_message db now input).0
unfolding insert_message
insert_message-IsValid db now input v = elim (Bool-cases (any (has_key input.dedupe_key) db.rows)) [
  | inl e ↦ rw e v
  | inr e ↦ rw e (record {
    ids = Distinct-snoc _ db.rows v.ids v.below;
    below =
        All-append _ db.rows _ (All-map_to _ _ (λ r h. omega arith) db.rows v.below) (omega arith);
    keys = DistinctKeys-snoc _ db.rows v.keys e;
  })
]

pub insert_agent_message-IsValid :
    (db : Inbox) (now : ℕ) (key : Text) (input : InboxInput)
    → IsValid db
    → IsValid (insert_agent_message db now key input).0
unfolding insert_agent_message
insert_agent_message-IsValid db now key input v = elim (Bool-cases (any (in_flight key) db.rows)) [
  | inl e ↦ rw e v
  | inr e ↦ rw e (insert_message-IsValid db now (record input { conversation_key = some key }) v)
]
