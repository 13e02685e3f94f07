-- ===== src/Inbox/Sweep.antt =====
-- The sweep of old rows.
use shopify_vitrina.Base.{
  ℕ, ◌+◌, ◌≡◌, refl, Bool, ◌&&◌, ◌||◌, List, [], ◌∷◌, length, select, delete, arith,
}
use shopify_vitrina.Inbox.Rows.{InboxRow, is_done, is_failed, unsettled}
use shopify_vitrina.Inbox.Tables.{Inbox, delete_stale, older_than, list_replayable}

-- Past its date: 'done' or 'failed', and processed longer ago than the days allowed for that.
abbrev pub expired : ℕ → ℕ → ℕ → InboxRow → Bool
expired now done_days failed_days r =
    (is_done r.status && older_than now done_days r.processed_at)
    || (is_failed r.status && older_than now failed_days r.processed_at)

module _ (p q : InboxRow → Bool) where
  delete-delete : (rs : List InboxRow) → delete q (delete p rs) ≡ delete (λ r. p r || q r) rs
  delete-delete [] = refl
  delete-delete (r ∷ rs) = ground (arith, delete-delete rs)

  length-delete : (rs : List InboxRow) → length (select p rs) + length (delete p rs) ≡ length rs
  length-delete [] = refl
  length-delete (r ∷ rs) = ground (arith, length-delete rs)

select-delete :
    (now d f : ℕ) (rs : List InboxRow)
    → select (λ r. unsettled r.status) (delete (expired now d f) rs)
      ≡ select (λ r. unsettled r.status) rs
select-delete now d f [] = refl
select-delete now d f (r ∷ rs) = ground (arith, select-delete now d f rs)

-- The sweep deletes exactly the rows past their date, returns how many these were, and so leaves
-- what a restart replays as it is.
pub delete_stale_lem :
    (db : Inbox) (now done_days failed_days : ℕ)
    → let (db', n) = delete_stale db now done_days failed_days in
      (db'.rows ≡ delete (expired now done_days failed_days) db.rows)
      × (n + length db'.rows ≡ length db.rows)
      × (list_replayable db' ≡ list_replayable db)
unfolding delete_stale list_replayable
delete_stale_lem db now d f = (
  delete-delete done_old failed_old db.rows,
  omega (
    arith,
    length-delete done_old failed_old db.rows,
    length-delete failed_old done_old (delete done_old db.rows),
  ),
  rw (delete-delete done_old failed_old db.rows) (select-delete now d f db.rows),
)
  where
    done_old : InboxRow → Bool
    done_old r = is_done r.status && older_than now d r.processed_at

    failed_old : InboxRow → Bool
    failed_old r = is_failed r.status && older_than now f r.processed_at
