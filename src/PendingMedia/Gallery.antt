-- ===== src/PendingMedia/Gallery.antt =====
-- The gallery of a chat after any calls, told from the calls alone.
use shopify_vitrina.Base.{
  ℕ, ◌+◌, ◌*◌, ◌<◌, ◌≡◌, refl, Bool, true, false, ◌&&◌, ◌||◌, not, some, List, [], ◌∷◌, ◌++◌,
  if◌then◌else◌, any, ltb, eqb, All, Text, ◌==◌, select, update, delete, arith, Bool-cases, inl,
  inr, ◌∙◌, ap,
}
use shopify_vitrina.Inbox.Ids.{includes}
use shopify_vitrina.PendingMedia.{
  PhotoInput, PendingPhoto, PendingTable, unattached, add_pending_media, insert_photo, in_order,
  list_pending_media, mark_attached, never_placed, delete_stale_pending_media,
}
use shopify_vitrina.PendingMedia.Order.{Arranged, in_order-Arranged}
use shopify_vitrina.PendingMedia.Calls.{
  Call, add, attach, sweep, step, run, no_photos, IsValid, attach_one, Ascending-select,
  attach-next, step-IsValid, run-IsValid,
}

abbrev pub is_photo : ℕ → ℕ → PendingPhoto → Bool
is_photo id at p = eqb p.id id && eqb p.received_at at

-- Whether the photo `id` waits for its product, having come at `at` in the chat of the phone. The
-- photos are numbered in the order in which they come, the next one being `next`; one waits until
-- it is attached, or too old for a sweep.
unfoldable pub waits : Text → ℕ → ℕ → ℕ → Bool → List Call → Bool
waits phone id at next b [] = b
waits phone id at next b (add now photo ∷ cs) =
    waits phone id at (next + 1) (if eqb next id then photo.phone == phone && eqb now at else b) cs
waits phone id at next b (attach now ids gid ∷ cs) =
    waits phone id at next (b && not (includes id ids)) cs
waits phone id at next b (sweep now hours ∷ cs) =
    waits phone id at next (b && not (ltb (at + hours * 3600) now)) cs

module _ (phone : Text) (id at : ℕ) where
  abbrev wanted : PendingPhoto → Bool
  wanted p = p.phone == phone && unattached p && is_photo id at p

  any-snoc :
      (p : PendingPhoto) (ps : List PendingPhoto)
      → any wanted (ps ++ p ∷ []) ≡ (any wanted ps || wanted p)
  any-snoc p [] = ground arith
  any-snoc p (q ∷ ps) = ground (arith, any-snoc p ps)

  any-below :
      (n : ℕ) (ps : List PendingPhoto)
      → All (λ p. p.id < n) ps
      → eqb n id ≡ true
      → any wanted ps ≡ false
  any-below n [] a e = refl
  any-below n (p ∷ ps) a e = ground (arith, any-below n ps a.1 e, a.0)

  any-attached :
      (now i : ℕ) (gid : Text) (ps : List PendingPhoto)
      → any wanted (
          update
            (λ p. eqb p.id i)
            (λ p. record p { attached_to = some gid; attached_at = some now })
            ps)
        ≡ (any wanted ps && not (eqb i id))
  any-attached now i gid [] = refl
  any-attached now i gid (p ∷ ps) = ground (arith, any-attached now i gid ps)

  any-attach :
      (now : ℕ) (gid : Text) (ids : List ℕ) (db : PendingTable)
      → any wanted (mark_attached db now ids gid).rows
        ≡ (any wanted db.rows && not (includes id ids))
  unfolding mark_attached
  any-attach now gid [] db = ground arith
  any-attach now gid (i ∷ ids) db =
      any-attach now gid ids (attach_one now i gid db)
      ∙ rw (any-attached now i gid db.rows) (ground arith)

  any-sweep :
      (now hours : ℕ) (ps : List PendingPhoto)
      → any wanted (delete (never_placed now hours) ps)
        ≡ (any wanted ps && not (ltb (at + hours * 3600) now))
  any-sweep now hours [] = refl
  any-sweep now hours (p ∷ ps) = ground (arith, any-sweep now hours ps)

module _ (s : PendingPhoto → Bool) where
  any-insert :
      (p : PendingPhoto) (ps : List PendingPhoto) → any s (insert_photo p ps) ≡ (s p || any s ps)
  unfolding insert_photo
  any-insert p [] = refl
  any-insert p (q ∷ ps) = ground (arith, any-insert p ps)

  any-in_order : (ps : List PendingPhoto) → any s (in_order ps) ≡ any s ps
  unfolding in_order
  any-in_order [] = refl
  any-in_order (p ∷ ps) = any-insert p (in_order ps) ∙ ap (λ b. s p || b) (any-in_order ps)

  any-select :
      (t : PendingPhoto → Bool) (ps : List PendingPhoto)
      → any s (select t ps) ≡ any (λ p. t p && s p) ps
  any-select t [] = refl
  any-select t (p ∷ ps) = ground (arith, any-select t ps)

module _ (phone : Text) (id at : ℕ) where
  any-added :
      (db : PendingTable) (now : ℕ) (photo : PhotoInput)
      → IsValid db
      → any (wanted phone id at) (add_pending_media db now photo).rows ≡ (
          if eqb db.next_id id
          then photo.phone == phone && eqb now at
          else any (wanted phone id at) db.rows)
  unfolding add_pending_media
  any-added db now photo v =
      any-snoc phone id at _ db.rows ∙ elim (Bool-cases (eqb db.next_id id)) [
        | inl e ↦ rw (e, any-below phone id at db.next_id db.rows v.below e) (ground arith)
        | inr e ↦ rw e (ground arith)
      ]

  step-waits :
      (db : PendingTable) (c : Call) (cs : List Call)
      → IsValid db
      → waits phone id at (step db c).next_id (any (wanted phone id at) (step db c).rows) cs
        ≡ waits phone id at db.next_id (any (wanted phone id at) db.rows) (c ∷ cs)
  unfolding step waits add_pending_media delete_stale_pending_media
  step-waits db (add now photo) cs v =
      ap (λ b. waits phone id at (db.next_id + 1) b cs) (any-added db now photo v)
  step-waits db (attach now ids gid) cs v =
      rw (attach-next now gid ids db, any-attach phone id at now gid ids db) refl
  step-waits db (sweep now hours) cs v =
      ap (λ b. waits phone id at db.next_id b cs) (any-sweep phone id at now hours db.rows)

  run-waits :
      (db : PendingTable) (cs : List Call)
      → IsValid db
      → any (wanted phone id at) (run db cs).rows
        ≡ waits phone id at db.next_id (any (wanted phone id at) db.rows) cs
  unfolding run waits
  run-waits db [] v = refl
  run-waits db (c ∷ cs) v = run-waits (step db c) cs (step-IsValid db c v) ∙ step-waits db c cs v

-- After any photos that came, attachments and sweeps, the gallery of a phone is in the order of
-- sending, then of receipt, then of the ids; and a photo is in it exactly if it came in that chat
-- and since then no attachment has named it and no sweep has found it too old.
pub run-list_pending_media :
    (phone : Text) (id at : ℕ) (cs : List Call)
    → Arranged (list_pending_media (run no_photos cs) phone)
      × (any (is_photo id at) (list_pending_media (run no_photos cs) phone)
          ≡ waits phone id at 1 false cs)
unfolding list_pending_media
run-list_pending_media phone id at cs = (
  in_order-Arranged _ (Ascending-select _ _ (run-IsValid no_photos cs empty).ascending),
  any-in_order (is_photo id at) _
      ∙ any-select (is_photo id at) _ (run no_photos cs).rows
      ∙ refl
      ∙ run-waits phone id at no_photos cs empty,
)
  where
    empty : IsValid no_photos
    empty = record { ascending = tt; below = tt }
