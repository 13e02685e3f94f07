-- ===== src/Batcher/Process/Declines.antt =====
-- Writes to the inbox that settle rows or leave them as unsettled as they are, such as all those of
-- a batch up to its turn: what every such write keeps, a whole batch keeps.
use shopify_vitrina.Base.{
  ℕ, ◌≡◌, refl, subst, sym, All, Bool, true, Option, none, some, List, [], ◌∷◌, ltb, if◌then◌else◌,
  length, Text, update, arith, Bool-cases, Option-cases, inl, inr,
}
use shopify_vitrina.Turn.{truthy}
use shopify_vitrina.Inbox.{
  Inbox, InboxRow, claim_batch, claimed, in_flight, for_ids, has_id, unsettled, set_transcript,
  set_audio_path, clear_media,
}
use shopify_vitrina.Inbox.Valid.{IsValid, update-IsValid}
use shopify_vitrina.Inbox.Settling.{claim_batch_lem}
use shopify_vitrina.Batcher.Media.{
  MediaStore, Files, Bytes, is_audio, give_up_on_audio, drop_photo, give_up, store_audio,
  store_photo, resolve_media_row, resolve_media_rows, resolve_media, resolve_audio_row,
  resolve_audio,
}

-- A write to the rows of a test that keeps ids and keys and makes none of them unsettled.
abbrev pub Declining : (InboxRow → Bool) → (InboxRow → InboxRow) → Type 0
Declining p f =
    ((r : InboxRow)
      → ((f r).id ≡ r.id)
        × ((f r).dedupe_key ≡ r.dedupe_key)
        × ((f r).conversation_key ≡ r.conversation_key))
    × ((r : InboxRow) → p r ≡ true → unsettled (f r).status ≡ true → unsettled r.status ≡ true)

-- Every such write keeps `P`.
abbrev pub Closed : (Inbox → Type 0) → Type 0
Closed P =
    (p : InboxRow → Bool) (f : InboxRow → InboxRow) (db : Inbox)
    → Declining p f
    → P db
    → P (record db { rows = update p f db.rows })

pub IsValid-Closed : Closed IsValid
IsValid-Closed p f db d v = update-IsValid p f (λ r. ((d.0 r).0, (d.0 r).1)) db v

-- What holds of the id and the key of each unsettled row.
abbrev pub Unsettled : (ℕ → Text → Type 0) → Inbox → Type 0
Unsettled Q db = All (λ r. unsettled r.status ≡ true → Q r.id r.conversation_key) db.rows

-- What holds of the id and the key of each row.
abbrev pub Each : (ℕ → Text → Type 0) → Inbox → Type 0
Each Q db = All (λ r. Q r.id r.conversation_key) db.rows

pub Unsettled-Closed : (Q : ℕ → Text → Type 0) → Closed (Unsettled Q)
Unsettled-Closed Q p f db d = go db.rows
  where
    go :
        (rs : List InboxRow)
        → All (λ r. unsettled r.status ≡ true → Q r.id r.conversation_key) rs
        → All (λ r. unsettled r.status ≡ true → Q r.id r.conversation_key) (update p f rs)
    go [] a = tt
    go (r ∷ rs) a = elim (Bool-cases (p r)) [
      | inl e ↦ rw e ((λ h. rw ((d.0 r).0, (d.0 r).2) (a.0 (d.1 r e h))), go rs a.1)
      | inr e ↦ rw e (a.0, go rs a.1)
    ]

pub Each-Closed : (Q : ℕ → Text → Type 0) → Closed (Each Q)
Each-Closed Q p f db d = go db.rows
  where
    go :
        (rs : List InboxRow)
        → All (λ r. Q r.id r.conversation_key) rs
        → All (λ r. Q r.id r.conversation_key) (update p f rs)
    go [] a = tt
    go (r ∷ rs) a = elim (Bool-cases (p r)) [
      | inl e ↦ rw (e, (d.0 r).0, (d.0 r).2) (a.0, go rs a.1)
      | inr e ↦ rw e (a.0, go rs a.1)
    ]

module _ (P : Inbox → Type 0) (k : Closed P) where
  pub for_ids-Closed :
      (f : InboxRow → InboxRow) (ids : List ℕ) (db : Inbox)
      → Declining (λ r. true) f
      → P db
      → P (record db { rows = for_ids f ids db.rows })
  unfolding for_ids
  for_ids-Closed f [] db d c = c
  for_ids-Closed f (i ∷ ids) db d c =
      for_ids-Closed f ids (record db { rows = update (has_id i) f db.rows }) d
        (k (has_id i) f db (d.0, λ r e. d.1 r refl) c)

  pub claim_batch-Closed : (db : Inbox) (key : Text) → IsValid db → P db → P (claim_batch db key).0
  unfolding claim_batch
  claim_batch-Closed db key v c =
      subst (λ rows. P (record db { rows = rows })) (sym (claim_batch_lem db key v).0)
        (k (in_flight key) claimed db ((λ r. (refl, refl, refl)), λ r e h. ground arith) c)

  give_up_on_audio-Closed :
      (f : Files) (r : InboxRow) → P f.inbox → P (give_up_on_audio f r).0.inbox
  unfolding give_up_on_audio set_transcript clear_media
  give_up_on_audio-Closed f r c =
      k _ _ _ (λ s. (refl, refl, refl), λ s e h. h)
        (k _ _ f.inbox (λ s. (refl, refl, refl), λ s e h. h) c)

  give_up-Closed : (f : Files) (r : InboxRow) → P f.inbox → P (give_up f r).0.inbox
  unfolding give_up drop_photo clear_media
  give_up-Closed f r c = elim (Bool-cases (is_audio r.media_kind)) [
    | inl e ↦ rw e (give_up_on_audio-Closed f r c)
    | inr e ↦ rw e (k _ _ f.inbox (λ s. (refl, refl, refl), λ s e h. h) c)
  ]

  store_audio-Closed :
      (m : MediaStore) (f : Files) (r : InboxRow) (b : Bytes)
      → P f.inbox
      → P (store_audio m f r b).0.inbox
  unfolding store_audio set_audio_path
  store_audio-Closed m f r b c = elim (Bool-cases (ltb m.max_audio_bytes (length b))) [
    | inl e ↦ rw e (give_up_on_audio-Closed f r c)
    | inr e ↦ rw e (elim (Option-cases (m.save_audio b r.media_name)) [
      | inl n ↦ rw (n, store_audio) (give_up-Closed f r c)
      | inr (path, n) ↦ rw (n, store_audio) (k _ _ f.inbox (λ s. (refl, refl, refl), λ s e h. h) c)
    ])
  ]

  store_photo-Closed :
      (m : MediaStore) (f : Files) (now : ℕ) (r : InboxRow) (b : Bytes)
      → P f.inbox
      → P (store_photo m f now r b).0.inbox
  unfolding store_photo clear_media
  store_photo-Closed m f now r b c =
      elim (Option-cases (m.save_photo b r.media_mime r.media_name)) [
        | inl n ↦ rw (n, store_photo) (give_up-Closed f r c)
        | inr (paths, n) ↦
            rw (n, store_photo) (k _ _ f.inbox (λ s. (refl, refl, refl), λ s e h. h) c)
      ]

  fetched-Closed :
      (m : MediaStore) (f : Files) (now : ℕ) (r : InboxRow) (b : Bytes)
      → P f.inbox
      → P (if is_audio r.media_kind then store_audio m f r b else store_photo m f now r b).0.inbox
  fetched-Closed m f now r b c = elim (Bool-cases (is_audio r.media_kind)) [
    | inl e ↦ rw e (store_audio-Closed m f r b c)
    | inr e ↦ rw e (store_photo-Closed m f now r b c)
  ]

  resolve_media_row-Closed :
      (m : MediaStore) (f : Files) (now : ℕ) (r : InboxRow)
      → P f.inbox
      → P (resolve_media_row m f now r).0.inbox
  unfolding resolve_media_row
  resolve_media_row-Closed m f now r c = elim (Option-cases (truthy r.media_ref)) [
    | inl e ↦ rw (e, resolve_media_row) c
    | inr (ref, e) ↦
        rw (e, resolve_media_row)
          (elim (Option-cases (m.download ref)) [
            | inl n ↦ rw (n, resolve_media_row) (give_up-Closed f r c)
            | inr (b, n) ↦ rw (n, resolve_media_row) (fetched-Closed m f now r b c)
          ])
  ]

  resolve_media_rows-Closed :
      (m : MediaStore) (f : Files) (now : ℕ) (rs : List InboxRow)
      → P f.inbox
      → P (resolve_media_rows m f now rs).0.inbox
  unfolding resolve_media_rows
  resolve_media_rows-Closed m f now [] c = c
  resolve_media_rows-Closed m f now (r ∷ rs) c =
      resolve_media_rows-Closed m (resolve_media_row m f now r).0 now rs
        (resolve_media_row-Closed m f now r c)

  pub resolve_media-Closed :
      (m : Option MediaStore) (f : Files) (now : ℕ) (rs : List InboxRow)
      → P f.inbox
      → P (resolve_media m f now rs).0.inbox
  unfolding resolve_media
  resolve_media-Closed none f now rs c = c
  resolve_media-Closed (some m) f now rs c = resolve_media_rows-Closed m f now rs c

  resolve_audio_row-Closed :
      (t : Option (Text → Option Text)) (f : Files) (r : InboxRow)
      → P f.inbox
      → P (resolve_audio_row t f r).0.inbox
  unfolding resolve_audio_row set_transcript
  resolve_audio_row-Closed t f r c = elim (Option-cases (truthy r.audio_path)) [
    | inl e ↦ rw (e, resolve_audio_row) c
    | inr (path, e) ↦
        rw (e, resolve_audio_row) (k _ _ f.inbox (λ s. (refl, refl, refl), λ s e h. h) c)
  ]

  pub resolve_audio-Closed :
      (t : Option (Text → Option Text)) (f : Files) (rs : List InboxRow)
      → P f.inbox
      → P (resolve_audio t f rs).0.inbox
  unfolding resolve_audio
  resolve_audio-Closed t f [] c = c
  resolve_audio-Closed t f (r ∷ rs) c =
      resolve_audio-Closed t (resolve_audio_row t f r).0 rs (resolve_audio_row-Closed t f r c)
