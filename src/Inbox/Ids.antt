-- ===== src/Inbox/Ids.antt =====
-- Writes to a list of ids, as writes to the rows that a test picks.
use shopify_vitrina.Base.{
  ℕ, ◌≡◌, refl, ap, ◌∙◌, Bool, false, ◌||◌, List, [], ◌∷◌, any, eqb, All, select, update, arith,
}
use shopify_vitrina.Inbox.Rows.{InboxRow}
use shopify_vitrina.Inbox.Tables.{for_ids, ids_of, by_arrival, insert_by_arrival, has_id}

abbrev pub includes : ℕ → List ℕ → Bool
includes i ids = any (λ j. eqb j i) ids

abbrev pub Distinct : List ℕ → Type 0
Distinct [] = Unit
Distinct (i ∷ ids) = (includes i ids ≡ false) × Distinct ids

-- A write that leaves the id alone.
abbrev pub KeepsId : (InboxRow → InboxRow) → Type 0
KeepsId f = (r : InboxRow) → (f r).id ≡ r.id

pub for_ids-update :
    (f : InboxRow → InboxRow) (ids : List ℕ) (rows : List InboxRow)
    → KeepsId f
    → Distinct ids
    → for_ids f ids rows ≡ update (λ r. includes r.id ids) f rows
unfolding for_ids
for_ids-update f [] rows k d = update_none rows
  where
    update_none : (rows : List InboxRow) → rows ≡ update (λ r. false) f rows
    update_none [] = refl
    update_none (r ∷ rows) = ap (λ t. r ∷ t) (update_none rows)
for_ids-update f (i ∷ ids) rows k d =
    for_ids-update f ids (update (has_id i) f rows) k d.1 ∙ both rows
  where
    both :
        (rows : List InboxRow)
        → update (λ r. includes r.id ids) f (update (has_id i) f rows)
          ≡ update (λ r. includes r.id (i ∷ ids)) f rows
    both [] = refl
    both (r ∷ rows) = ground (arith, both rows, k r, d.0)

pub includes-insert :
    (i : ℕ) (r : InboxRow) (rs : List InboxRow)
    → includes i (ids_of (insert_by_arrival r rs)) ≡ (eqb r.id i || includes i (ids_of rs))
unfolding insert_by_arrival
includes-insert i r [] = refl
includes-insert i r (s ∷ rs) = ground (arith, includes-insert i r rs)

pub includes-by_arrival :
    (i : ℕ) (rs : List InboxRow) → includes i (ids_of (by_arrival rs)) ≡ includes i (ids_of rs)
unfolding by_arrival
includes-by_arrival i [] = refl
includes-by_arrival i (r ∷ rs) =
    ground (arith, includes-insert i r (by_arrival rs), includes-by_arrival i rs)

Distinct-insert :
    (r : InboxRow) (rs : List InboxRow)
    → includes r.id (ids_of rs) ≡ false
    → Distinct (ids_of rs)
    → Distinct (ids_of (insert_by_arrival r rs))
unfolding insert_by_arrival
Distinct-insert r [] h d = (refl, tt)
Distinct-insert r (s ∷ rs) h d = ground (arith, Distinct-insert r rs, includes-insert s.id r rs)

pub Distinct-by_arrival :
    (rs : List InboxRow) → Distinct (ids_of rs) → Distinct (ids_of (by_arrival rs))
unfolding by_arrival
Distinct-by_arrival [] d = tt
Distinct-by_arrival (r ∷ rs) d =
    Distinct-insert r (by_arrival rs) (includes-by_arrival r.id rs ∙ d.0)
      (Distinct-by_arrival rs d.1)

module _ (p : InboxRow → Bool) where
  includes-select_absent :
      (i : ℕ) (rs : List InboxRow)
      → includes i (ids_of rs) ≡ false
      → includes i (ids_of (select p rs)) ≡ false
  includes-select_absent i [] h = refl
  includes-select_absent i (r ∷ rs) h = ground (arith, includes-select_absent i rs)

  pub Distinct-select :
      (rs : List InboxRow) → Distinct (ids_of rs) → Distinct (ids_of (select p rs))
  Distinct-select [] d = tt
  Distinct-select (r ∷ rs) d =
      ground (arith, Distinct-select rs d.1, includes-select_absent r.id rs d.0)

  abbrev pub Picked : List InboxRow → List InboxRow → Type 0
  Picked rs all = All (λ r. includes r.id (ids_of (select p all)) ≡ p r) rs

  Picked-cons :
      (x : InboxRow) (all rs : List InboxRow)
      → includes x.id (ids_of rs) ≡ false
      → Picked rs all
      → Picked rs (x ∷ all)
  Picked-cons x all [] h k = tt
  Picked-cons x all (r ∷ rs) h k =
      (ground (arith, k.0, h), Picked-cons x all rs (ground (arith, h)) k.1)

  -- Where ids are distinct, the ids of the rows that a test picks tell those rows.
  pub Picked-self : (rs : List InboxRow) → Distinct (ids_of rs) → Picked rs rs
  Picked-self [] d = tt
  Picked-self (r ∷ rs) d = (
    ground (arith, includes-select_absent r.id rs d.0),
    Picked-cons r rs rs d.0 (Picked-self rs d.1),
  )

  update-Picked :
      (f : InboxRow → InboxRow) (all rs : List InboxRow)
      → Picked rs all
      → update (λ r. includes r.id (ids_of (by_arrival (select p all)))) f rs ≡ update p f rs
  update-Picked f all [] k = refl
  update-Picked f all (r ∷ rs) k =
      ground (arith, includes-by_arrival r.id (select p all), k.0, update-Picked f all rs k.1)

  pub for_ids-select :
      (f : InboxRow → InboxRow) (rs : List InboxRow)
      → KeepsId f
      → Distinct (ids_of rs)
      → for_ids f (ids_of (by_arrival (select p rs))) rs ≡ update p f rs
  for_ids-select f rs k d =
      for_ids-update f (ids_of (by_arrival (select p rs))) rs k
        (Distinct-by_arrival _ (Distinct-select rs d))
      ∙ update-Picked f rs rs (Picked-self rs d)
