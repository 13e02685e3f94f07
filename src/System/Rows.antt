-- ===== src/System/Rows.antt =====
-- What a settlement, and the return of a batch to 'pending', do to the rows that must be answered.
use shopify_vitrina.Base.{
  ℕ, ◌<◌, ◌≡◌, ◌⊎◌, true, false, List, [], ◌∷◌, All, All-map_to, Text, ==→eq, select, update, arith,
  Bool-cases, inl, inr,
}
use shopify_vitrina.Inbox.Rows.{InboxRow, unsettled}
use shopify_vitrina.Inbox.Tables.{Inbox, for_ids, has_id, in_flight, ids_of, by_arrival}
use shopify_vitrina.Inbox.Ids.{includes, includes-by_arrival, Picked-self}
use shopify_vitrina.Inbox.Valid.{IsValid}
use shopify_vitrina.Inbox.Settling.{claim_ids, claim_ids_lem}
use shopify_vitrina.Batcher.Process.Declines.{Each}

-- A write that keeps ids and keys.
abbrev pub KeepsKey : (InboxRow → InboxRow) → Type 0
KeepsKey f = (r : InboxRow) → ((f r).id ≡ r.id) × ((f r).conversation_key ≡ r.conversation_key)

abbrev UnsettledRows : (ℕ → Text → Type 0) → List InboxRow → Type 0
UnsettledRows Q = All (λ r. unsettled r.status ≡ true → Q r.id r.conversation_key)

abbrev EachRow : (ℕ → Text → Type 0) → List InboxRow → Type 0
EachRow Q = All (λ r. Q r.id r.conversation_key)

pub Unsettled-weaken :
    (Q Q' : ℕ → Text → Type 0) (rs : List InboxRow)
    → ((id : ℕ) (key : Text) → Q id key → Q' id key)
    → UnsettledRows Q rs
    → UnsettledRows Q' rs
Unsettled-weaken Q Q' rs h = All-map_to _ _ (λ r k e. h r.id r.conversation_key (k e)) rs

module _ (f : InboxRow → InboxRow) (k : KeepsKey f) where
  pub Each-for_ids :
      (Q : ℕ → Text → Type 0) (ids : List ℕ) (rs : List InboxRow)
      → EachRow Q rs
      → EachRow Q (for_ids f ids rs)
  unfolding for_ids
  Each-for_ids Q [] rs a = a
  Each-for_ids Q (i ∷ ids) rs a = Each-for_ids Q ids (update (has_id i) f rs) (one rs a)
    where
      one : (ss : List InboxRow) → EachRow Q ss → EachRow Q (update (has_id i) f ss)
      one [] b = tt
      one (r ∷ ss) b = elim (Bool-cases (has_id i r)) [
        | inl e ↦ rw (e, (k r).0, (k r).1) (b.0, one ss b.1)
        | inr e ↦ rw e (b.0, one ss b.1)
      ]

  -- A settlement of the ids: only the others must still be answered.
  pub Unsettled-settle :
      (Q : ℕ → Text → Type 0) (ids : List ℕ) (rs : List InboxRow)
      → ((r : InboxRow) → unsettled (f r).status ≡ false)
      → UnsettledRows (λ id key. (includes id ids ≡ true) ⊎ Q id key) rs
      → UnsettledRows Q (for_ids f ids rs)
  unfolding for_ids
  Unsettled-settle Q [] rs off a =
      All-map_to _ _ (λ r h e. elim (h e) [ inl n ↦ absurd (cc n) | inr q ↦ q ]) rs a
  Unsettled-settle Q (i ∷ ids) rs off a =
      Unsettled-settle Q ids (update (has_id i) f rs) off (one rs a)
    where
      rest :
          (r : InboxRow)
          → has_id i r ≡ false
          → (includes r.id (i ∷ ids) ≡ true) ⊎ Q r.id r.conversation_key
          → (includes r.id ids ≡ true) ⊎ Q r.id r.conversation_key
      rest r e (inl n) = inl (ground (arith, n))
      rest r e (inr q) = inr q

      one :
          (ss : List InboxRow)
          → UnsettledRows (λ id key. (includes id (i ∷ ids) ≡ true) ⊎ Q id key) ss
          → UnsettledRows (λ id key. (includes id ids ≡ true) ⊎ Q id key) (update (has_id i) f ss)
      one [] b = tt
      one (r ∷ ss) b = elim (Bool-cases (has_id i r)) [
        | inl e ↦ rw e ((λ h. absurd (cc (off r))), one ss b.1)
        | inr e ↦ rw e ((λ h. rest r e (b.0 h)), one ss b.1)
      ]

  -- The ids come to be unsettled: they must be answered too.
  pub Unsettled-revive :
      (Q : ℕ → Text → Type 0) (ids : List ℕ) (rs : List InboxRow)
      → EachRow (λ id key. includes id ids ≡ true → Q id key) rs
      → UnsettledRows Q rs
      → UnsettledRows Q (for_ids f ids rs)
  unfolding for_ids
  Unsettled-revive Q [] rs o a = a
  Unsettled-revive Q (i ∷ ids) rs o a =
      Unsettled-revive Q ids (update (has_id i) f rs) (owned rs o) (one rs o a)
    where
      owned :
          (ss : List InboxRow)
          → EachRow (λ id key. includes id (i ∷ ids) ≡ true → Q id key) ss
          → EachRow (λ id key. includes id ids ≡ true → Q id key) (update (has_id i) f ss)
      owned [] b = tt
      owned (r ∷ ss) b = elim (Bool-cases (has_id i r)) [
        | inl e ↦ rw (e, (k r).0, (k r).1) ((λ h. b.0 (ground (arith, h))), owned ss b.1)
        | inr e ↦ rw e ((λ h. b.0 (ground (arith, h))), owned ss b.1)
      ]

      one :
          (ss : List InboxRow)
          → EachRow (λ id key. includes id (i ∷ ids) ≡ true → Q id key) ss
          → UnsettledRows Q ss
          → UnsettledRows Q (update (has_id i) f ss)
      one [] b c = tt
      one (r ∷ ss) b c = elim (Bool-cases (has_id i r)) [
        | inl e ↦ rw (e, (k r).0, (k r).1) ((λ h. b.0 (ground (arith, e))), one ss b.1 c.1)
        | inr e ↦ rw e (c.0, one ss b.1 c.1)
      ]

-- The ids of a claim belong to rows of the conversation, and are below the next id.
pub claim_ids-Each :
    (db : Inbox) (key : Text)
    → IsValid db
    → Each (λ id k. includes id (claim_ids db key) ≡ true → k ≡ key) db
claim_ids-Each db key v =
    rw (claim_ids_lem db key)
      (All-map_to _ _ own db.rows (Picked-self (in_flight key) db.rows v.ids))
  where
    own :
        (r : InboxRow)
        → includes r.id (ids_of (select (in_flight key) db.rows)) ≡ in_flight key r
        → includes r.id (ids_of (by_arrival (select (in_flight key) db.rows))) ≡ true
        → r.conversation_key ≡ key
    own r p h = ground (
      arith,
      p,
      includes-by_arrival r.id (select (in_flight key) db.rows),
      ==→eq r.conversation_key key,
    )

pub claim_ids-lt :
    (db : Inbox) (key : Text)
    → IsValid db
    → (i : ℕ) → includes i (claim_ids db key) ≡ true
    → i < db.next_id
claim_ids-lt db key v i =
    rw (claim_ids_lem db key, includes-by_arrival i (select (in_flight key) db.rows))
      (selected db.rows v.below)
  where
    selected :
        (rs : List InboxRow)
        → All (λ r. r.id < db.next_id) rs
        → includes i (ids_of (select (in_flight key) rs)) ≡ true
        → i < db.next_id
    selected [] b h = absurd (cc h)
    selected (r ∷ rs) b h = ground (arith, selected rs b.1)
