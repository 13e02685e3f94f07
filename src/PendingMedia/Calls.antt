-- ===== src/PendingMedia/Calls.antt =====
-- The calls on the photos of the chats, and that ids ascend whatever they are.
use shopify_vitrina.Base.{
  ℕ, ◌<◌, ◌≡◌, refl, Bool, some, List, [], ◌∷◌, ◌++◌, eqb, All, All-append, All-map_to, Text,
  select, update, delete, arith, Bool-cases, inl, inr,
}
use shopify_vitrina.AdminSessions.Valid.{All-select, All-update, All-delete}
use shopify_vitrina.PendingMedia.{
  PhotoInput, PendingPhoto, PendingTable, add_pending_media, mark_attached, never_placed,
  delete_stale_pending_media,
}
use shopify_vitrina.PendingMedia.Order.{Ascending}

pub data Call : Type 0 where
  add : ℕ → PhotoInput → Call
  attach : ℕ → List ℕ → Text → Call
  sweep : ℕ → ℕ → Call

unfoldable pub step : PendingTable → Call → PendingTable
step db (add now photo) = add_pending_media db now photo
step db (attach now ids gid) = mark_attached db now ids gid
step db (sweep now hours) = (delete_stale_pending_media db now hours).0

unfoldable pub run : PendingTable → List Call → PendingTable
run db [] = db
run db (c ∷ cs) = run (step db c) cs

abbrev pub no_photos : PendingTable
no_photos = record { rows = []; next_id = 1 }

pub record IsValid (db : PendingTable) : Type 0 where
  pub ascending : Ascending db.rows
  pub below : All (λ p. p.id < db.next_id) db.rows

abbrev pub attach_one : ℕ → ℕ → Text → PendingTable → PendingTable
attach_one now i gid db = record db {
  rows =
      update (λ p. eqb p.id i) (λ p. record p { attached_to = some gid; attached_at = some now })
        db.rows;
}

Ascending-snoc :
    (p : PendingPhoto) (ps : List PendingPhoto)
    → All (λ q. q.id < p.id) ps
    → Ascending ps
    → Ascending (ps ++ p ∷ [])
Ascending-snoc p [] h a = (tt, tt)
Ascending-snoc p (q ∷ ps) h a = (All-append _ ps _ a.0 (h.0, tt), Ascending-snoc p ps h.1 a.1)

Ascending-delete :
    (t : PendingPhoto → Bool) (ps : List PendingPhoto) → Ascending ps → Ascending (delete t ps)
Ascending-delete t [] a = tt
Ascending-delete t (p ∷ ps) a = elim (Bool-cases (t p)) [
  | inl e ↦ rw e (Ascending-delete t ps a.1)
  | inr e ↦ rw e (All-delete _ t ps a.0, Ascending-delete t ps a.1)
]

pub Ascending-select :
    (t : PendingPhoto → Bool) (ps : List PendingPhoto) → Ascending ps → Ascending (select t ps)
Ascending-select t [] a = tt
Ascending-select t (p ∷ ps) a = elim (Bool-cases (t p)) [
  | inl e ↦ rw e (All-map_to _ _ (λ q h. h.0) _ (All-select _ t ps a.0), Ascending-select t ps a.1)
  | inr e ↦ rw e (Ascending-select t ps a.1)
]

-- A write that leaves the ids alone.
module _ (t : PendingPhoto → Bool) (f : PendingPhoto → PendingPhoto)
    (keeps : (p : PendingPhoto) → (f p).id ≡ p.id) where
  update-All :
      (P : ℕ → Type 0) (ps : List PendingPhoto)
      → All (λ p. P p.id) ps
      → All (λ p. P p.id) (update t f ps)
  update-All P ps a = All-update _ _ t f ps (λ p h e. rw (keeps p) h) (λ p h e. h) a

  Ascending-update : (ps : List PendingPhoto) → Ascending ps → Ascending (update t f ps)
  Ascending-update [] a = tt
  Ascending-update (p ∷ ps) a = elim (Bool-cases (t p)) [
    | inl e ↦ rw (e, keeps p) (update-All (λ i. p.id < i) ps a.0, Ascending-update ps a.1)
    | inr e ↦ rw e (update-All (λ i. p.id < i) ps a.0, Ascending-update ps a.1)
  ]

attach-IsValid :
    (now : ℕ) (gid : Text) (ids : List ℕ) (db : PendingTable)
    → IsValid db
    → IsValid (mark_attached db now ids gid)
unfolding mark_attached
attach-IsValid now gid [] db v = v
attach-IsValid now gid (i ∷ ids) db v =
    attach-IsValid now gid ids (attach_one now i gid db) (record {
      ascending = Ascending-update _ _ (λ p. refl) db.rows v.ascending;
      below = update-All _ _ (λ p. refl) (λ j. j < db.next_id) db.rows v.below;
    })

pub step-IsValid : (db : PendingTable) (c : Call) → IsValid db → IsValid (step db c)
unfolding step add_pending_media delete_stale_pending_media
step-IsValid db (add now photo) v = record {
  ascending = Ascending-snoc _ db.rows v.below v.ascending;
  below =
      All-append _ db.rows _ (All-map_to _ _ (λ p h. omega (arith, h)) db.rows v.below)
        (omega arith, tt);
}
step-IsValid db (attach now ids gid) v = attach-IsValid now gid ids db v
step-IsValid db (sweep now hours) v = record {
  ascending = Ascending-delete (never_placed now hours) db.rows v.ascending;
  below = All-delete _ (never_placed now hours) db.rows v.below;
}

pub run-IsValid : (db : PendingTable) (cs : List Call) → IsValid db → IsValid (run db cs)
unfolding run
run-IsValid db [] v = v
run-IsValid db (c ∷ cs) v = run-IsValid (step db c) cs (step-IsValid db c v)

pub attach-next :
    (now : ℕ) (gid : Text) (ids : List ℕ) (db : PendingTable)
    → (mark_attached db now ids gid).next_id ≡ db.next_id
unfolding mark_attached
attach-next now gid [] db = refl
attach-next now gid (i ∷ ids) db = attach-next now gid ids (attach_one now i gid db)
