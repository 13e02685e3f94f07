-- ===== src/Batcher/Process/Settled.antt =====
-- A batch is settled, or it will be tried again.
use shopify_vitrina.Base.{
  ℕ, ◌≡◌, refl, ◌∙◌, Bool, true, false, List, [], ◌∷◌, All, All-map_to, Text, select, update, arith,
  Bool-cases, inl, inr,
}
use shopify_vitrina.Inbox.{
  Inbox, InboxRow, claim_batch, claimed, in_flight, for_ids, has_id, ids_of, as_done, as_failed,
}
use shopify_vitrina.Inbox.Ids.{includes, includes-by_arrival}
use shopify_vitrina.Inbox.Valid.{IsValid}
use shopify_vitrina.Inbox.Settling.{claim_ids, claim_ids_lem, claim_batch_lem}
use shopify_vitrina.Batcher.Process.Declines.{Closed}

-- The rows of the conversation that are not settled are among those of the ids.
abbrev pub Covered : Text → List ℕ → List InboxRow → Type 0
Covered key ids = All (λ r. in_flight key r ≡ true → includes r.id ids ≡ true)

-- None is left.
abbrev pub Settled : Text → List InboxRow → Type 0
Settled key = All (λ r. in_flight key r ≡ false)

module _ (key : Text) where
  Covered-update :
      (p : InboxRow → Bool) (f : InboxRow → InboxRow) (ids : List ℕ) (rs : List InboxRow)
      → ((r : InboxRow) → p r ≡ true → ((f r).id ≡ r.id) × (in_flight key (f r) ≡ in_flight key r))
      → Covered key ids rs
      → Covered key ids (update p f rs)
  Covered-update p f ids [] k c = tt
  Covered-update p f ids (r ∷ rs) k c = elim (Bool-cases (p r)) [
    | inl e ↦
        rw e ((λ h. rw ((k r e).0) (c.0 (rw ((k r e).1) at h))), Covered-update p f ids rs k c.1)
    | inr e ↦ rw e (c.0, Covered-update p f ids rs k c.1)
  ]

  Covered-settle :
      (f : InboxRow → InboxRow) (i : ℕ) (ids : List ℕ) (rs : List InboxRow)
      → ((r : InboxRow) → in_flight key (f r) ≡ false)
      → Covered key (i ∷ ids) rs
      → Covered key ids (update (has_id i) f rs)
  Covered-settle f i ids [] k c = tt
  Covered-settle f i ids (r ∷ rs) k c = elim (Bool-cases (has_id i r)) [
    | inl e ↦ rw e ((λ h. absurd (cc (k r))), Covered-settle f i ids rs k c.1)
    | inr e ↦ rw e ((λ h. ground (arith, c.0 h)), Covered-settle f i ids rs k c.1)
  ]

  pub for_ids-Settled :
      (f : InboxRow → InboxRow) (ids : List ℕ) (rs : List InboxRow)
      → ((r : InboxRow) → in_flight key (f r) ≡ false)
      → Covered key ids rs
      → Settled key (for_ids f ids rs)
  unfolding for_ids
  for_ids-Settled f [] rs k c = All-map_to _ _ (λ r h. ground (arith, h)) rs c
  for_ids-Settled f (i ∷ ids) rs k c =
      for_ids-Settled f ids (update (has_id i) f rs) k (Covered-settle f i ids rs k c)

  pub settled-off :
      (now : ℕ) (r : InboxRow)
      → (in_flight key (as_done now r) ≡ false) × (in_flight key (as_failed now r) ≡ false)
  settled-off now r = (ground arith, ground arith)

  pub selected :
      (rs : List InboxRow)
      → All
          (λ r. in_flight key r ≡ true → includes r.id (ids_of (select (in_flight key) rs)) ≡ true)
          rs
  selected [] = tt
  selected (r ∷ rs) =
      ((λ e. ground arith), All-map_to _ _ (λ s h e. ground (arith, h e)) rs (selected rs))

  pub Covered-claim :
      (db : Inbox) → IsValid db → Covered key (claim_ids db key) (claim_batch db key).0.rows
  Covered-claim db v =
      rw ((claim_batch_lem db key v).0, claim_ids_lem db key)
        (Covered-update (in_flight key) claimed _ db.rows (λ r e. (refl, ground arith))
          (All-map_to _ _ (λ r h e. includes-by_arrival r.id _ ∙ h e) db.rows (selected db.rows)))

  pub Covered-Closed : (ids : List ℕ) → Closed (λ db. Covered key ids db.rows)
  Covered-Closed ids p f db d = go db.rows
    where
      go : (rs : List InboxRow) → Covered key ids rs → Covered key ids (update p f rs)
      go [] c = tt
      go (r ∷ rs) c = elim (Bool-cases (p r)) [
        | inl e ↦ rw e ((λ h. ground (arith, d.0 r, d.1 r e, c.0)), go rs c.1)
        | inr e ↦ rw e (c.0, go rs c.1)
      ]
