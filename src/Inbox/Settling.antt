-- ===== src/Inbox/Settling.antt =====
-- What a claim and a settlement do to the rows of the conversation, and to all others.
use shopify_vitrina.Base.{ℕ, ◌≡◌, refl, ap, ◌∙◌, List, [], ◌∷◌, map, Text, select, update, arith}
use shopify_vitrina.Inbox.Rows.{InboxRow}
use shopify_vitrina.Inbox.Tables.{
  Inbox, claim_batch, claimed, by_arrival, in_flight, for_ids, ids_of, mark_batch_done,
  mark_batch_failed, mark_batch_pending, as_done, as_failed, as_pending,
}
use shopify_vitrina.Inbox.Ids.{
  includes, for_ids-select, for_ids-update, Picked, Picked-self, includes-by_arrival,
  Distinct-by_arrival, Distinct-select,
}
use shopify_vitrina.Inbox.Valid.{IsValid}

-- The claim takes every row of the conversation that is not settled, in order of arrival, and puts
-- each, once, to 'processing' with one more attempt; it leaves every other row as it is.
pub claim_batch_lem :
    (db : Inbox) (key : Text)
    → IsValid db
    → ((claim_batch db key).0.rows ≡ update (in_flight key) claimed db.rows)
      × ((claim_batch db key).1 ≡ map claimed (by_arrival (select (in_flight key) db.rows)))
unfolding claim_batch
claim_batch_lem db key v = (for_ids-select (in_flight key) claimed db.rows (λ r. refl) v.ids, refl)

-- The ids that a claim hands out.
abbrev pub claim_ids : Inbox → Text → List ℕ
claim_ids db key = ids_of (claim_batch db key).1

ids-claimed : (rs : List InboxRow) → ids_of (map claimed rs) ≡ ids_of rs
ids-claimed [] = refl
ids-claimed (r ∷ rs) = ap (λ t. r.id ∷ t) (ids-claimed rs)

pub claim_ids_lem :
    (db : Inbox) (key : Text)
    → claim_ids db key ≡ ids_of (by_arrival (select (in_flight key) db.rows))
unfolding claim_batch
claim_ids_lem db key = ids-claimed _

module _ (key : Text) (f : InboxRow → InboxRow) (k : (r : InboxRow) → (f r).id ≡ r.id) where
  -- A write to the ids of a claim after the claim's own.
  settle-Picked :
      (all rs : List InboxRow)
      → Picked (in_flight key) rs all
      → update
          (λ r. includes r.id (ids_of (by_arrival (select (in_flight key) all))))
          f
          (update (in_flight key) claimed rs)
        ≡ update (in_flight key) (λ r. f (claimed r)) rs
  settle-Picked all [] p = refl
  settle-Picked all (r ∷ rs) p =
      ground (
        arith,
        p.0,
        includes-by_arrival r.id (select (in_flight key) all),
        settle-Picked all rs p.1,
      )

  pub settle-rows :
      (db : Inbox)
      → IsValid db
      → for_ids f (claim_ids db key) (claim_batch db key).0.rows
        ≡ update (in_flight key) (λ r. f (claimed r)) db.rows
  settle-rows db v =
      rw (claim_ids_lem db key, (claim_batch_lem db key v).0)
        (for_ids-update f _ _ k
            (Distinct-by_arrival _ (Distinct-select (in_flight key) db.rows v.ids))
          ∙ settle-Picked db.rows db.rows (Picked-self (in_flight key) db.rows v.ids))

-- A claim and the settlement of its ids, whichever of the three it is, change exactly the rows of
-- the conversation that were not settled: each has one more attempt and the new status, with the
-- time of processing where the batch is 'done' or 'failed'. Every other row is as it was.
pub settle_claimed :
    (db : Inbox) (key : Text) (now : ℕ)
    → IsValid db
    → let (db', batch) = claim_batch db key in
      ((mark_batch_done db' now (ids_of batch)).rows
        ≡ update (in_flight key) (λ r. as_done now (claimed r)) db.rows)
      × ((mark_batch_failed db' now (ids_of batch)).rows
          ≡ update (in_flight key) (λ r. as_failed now (claimed r)) db.rows)
      × ((mark_batch_pending db' (ids_of batch)).rows
          ≡ update (in_flight key) (λ r. as_pending (claimed r)) db.rows)
unfolding mark_batch_done mark_batch_failed mark_batch_pending
settle_claimed db key now v = (
  settle-rows key (as_done now) (λ r. refl) db v,
  settle-rows key (as_failed now) (λ r. refl) db v,
  settle-rows key as_pending (λ r. refl) db v,
)
