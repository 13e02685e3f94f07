-- ===== src/Batcher/Media/Voice.antt =====
-- A voice note or a photo is never met with silence.
use shopify_vitrina.Base.{
  ℕ, ◌≡◌, refl, Bool, true, false, ◌&&◌, ◌||◌, Option, none, some, List, [], ◌∷◌, map, ltb,
  if◌then◌else◌, any, All, length, Text, trim, is_empty, arith, Bool-cases, Option-cases, inl, inr,
  is_space, trim_start, not,
}
use shopify_vitrina.Base.Ink.{is_empty-trim-trim}
use shopify_vitrina.Turn.{truthy}
use shopify_vitrina.Inbox.{InboxRow}
use shopify_vitrina.Batcher.Prompt.{audio_fallback, is_media, of_row, build_batch_text}
use shopify_vitrina.Batcher.Prompt.Empty.{IsBlank, build_batch_text-empty_iff}
use shopify_vitrina.Batcher.Media.{
  MediaStore, Files, Bytes, is_audio, give_up_on_audio, drop_photo, give_up, store_audio,
  store_photo, resolve_media_row, resolve_media_rows, resolve_media, or_fallback, transcript_of,
  resolve_audio_row, resolve_audio,
}

abbrev present : Option Text → Bool
present none = false
present (some t) = true

-- A row that shows something to answer when it is claimed: a photo message, a voice note that is
-- still to be fetched, or one that is still to be transcribed.
abbrev pub heard : InboxRow → Bool
heard r =
    is_media r.kind
    || ((is_audio r.media_kind && present (truthy r.media_ref)) || present (truthy r.audio_path))

-- A file of a voice note has a name.
abbrev pub NamesFiles : MediaStore → Type 0
NamesFiles m =
    (b : Bytes) (name : Option Text) (path : Text)
    → m.save_audio b name ≡ some path
    → is_empty path ≡ false

fallback-full : is_empty (trim audio_fallback) ≡ false
unfolding audio_fallback trim trim_start is_space
fallback-full = refl

or_fallback-full : (t : Option Text) → is_empty (trim (or_fallback t)) ≡ false
or_fallback-full none = fallback-full
or_fallback-full (some t) = ground (arith, fallback-full, is_empty-trim-trim t)

-- What a fetch leaves to say: a photo, words, or a file to transcribe.
abbrev audible : InboxRow → Bool
audible r = is_media r.kind || (not (is_empty (trim r.agent_text)) || present (truthy r.audio_path))

truthy-full : (t : Text) → is_empty t ≡ false → present (truthy (some t)) ≡ true
truthy-full [] h = cc
truthy-full (c ∷ t) h = refl

-- Something to say, if the file that is still to be fetched is told of.
abbrev losable : InboxRow → Bool
losable r = is_media r.kind || (is_audio r.media_kind || present (truthy r.audio_path))

give_up-audible : (f : Files) (r : InboxRow) → losable r ≡ true → audible (give_up f r).1 ≡ true
unfolding give_up give_up_on_audio drop_photo
give_up-audible f r h = ground (arith, fallback-full)

give_up_on_audio-audible : (f : Files) (r : InboxRow) → audible (give_up_on_audio f r).1 ≡ true
unfolding give_up_on_audio
give_up_on_audio-audible f r = ground (arith, fallback-full)

store_audio-audible :
    (m : MediaStore) (f : Files) (r : InboxRow) (b : Bytes)
    → NamesFiles m
    → is_audio r.media_kind ≡ true
    → audible (store_audio m f r b).1 ≡ true
unfolding store_audio
store_audio-audible m f r b n h = elim (Bool-cases (ltb m.max_audio_bytes (length b))) [
  | inl big ↦ rw (big) (give_up_on_audio-audible f r)
  | inr fits ↦ rw fits (elim (Option-cases (m.save_audio b r.media_name)) [
    | inl e ↦ rw e (give_up-audible f r (ground arith))
    | inr (path, e) ↦ rw e (ground (arith, n b r.media_name path e, truthy-full path))
  ])
]

store_photo-audible :
    (m : MediaStore) (f : Files) (now : ℕ) (r : InboxRow) (b : Bytes)
    → losable r ≡ true
    → is_audio r.media_kind ≡ false
    → audible (store_photo m f now r b).1 ≡ true
unfolding store_photo
store_photo-audible m f now r b h k =
    elim (Option-cases (m.save_photo b r.media_mime r.media_name)) [
      | inl e ↦ rw (e, store_photo) (give_up-audible f r h)
      | inr (paths, e) ↦ rw (e, store_photo) (ground arith)
    ]

-- The bytes are there.
fetched-audible :
    (m : MediaStore) (f : Files) (now : ℕ) (r : InboxRow) (b : Bytes)
    → NamesFiles m
    → losable r ≡ true
    → audible (if is_audio r.media_kind then store_audio m f r b else store_photo m f now r b).1
      ≡ true
fetched-audible m f now r b n h = elim (Bool-cases (is_audio r.media_kind)) [
  | inl e ↦ rw e (store_audio-audible m f r b n e)
  | inr e ↦ rw e (store_photo-audible m f now r b h e)
]

module _ (m : MediaStore) (f : Files) (now : ℕ) (r : InboxRow) (n : NamesFiles m) where
  -- A row whose reference is the only thing that could be lost says something afterwards.
  ref-audible :
      (ref : Text)
      → truthy r.media_ref ≡ some ref
      → losable r ≡ true
      → audible (resolve_media_row m f now r).1 ≡ true
  unfolding resolve_media_row
  ref-audible ref e h =
      rw (e, resolve_media_row)
        (elim (Option-cases (m.download ref)) [
          | inl d ↦ rw d (give_up-audible f r h)
          | inr (b, d) ↦ rw d (fetched-audible m f now r b n h)
        ])

  row-audible : heard r ≡ true → audible (resolve_media_row m f now r).1 ≡ true
  unfolding resolve_media_row
  row-audible h = elim (Option-cases (truthy r.media_ref)) [
    | inl e ↦ rw (e, resolve_media_row) (ground (arith, e))
    | inr (ref, e) ↦ ref-audible ref e (ground arith)
  ]

audio-says :
    (t : Option (Text → Option Text)) (f : Files) (r : InboxRow)
    → audible r ≡ true
    → IsBlank (of_row (resolve_audio_row t f r).1)
    → ⊥
unfolding resolve_audio_row
audio-says t f r h = elim (Option-cases (truthy r.audio_path)) [
  | inl e ↦ rw (e, resolve_audio_row) (λ b. ground (arith, e))
  | inr (path, e) ↦
      rw (e, resolve_audio_row) (λ b. ground (arith, or_fallback-full (transcript_of t path)))
]

-- The two loops, one after the other.
abbrev pub resolve :
    MediaStore → Option (Text → Option Text) → Files → ℕ → List InboxRow → List InboxRow
resolve m t f now rows =
    let (f', rows') = resolve_media (some m) f now rows in (resolve_audio t f' rows').1

resolved-says :
    (m : MediaStore) (t : Option (Text → Option Text)) (f g : Files) (now : ℕ)
    (rows : List InboxRow)
    → NamesFiles m
    → any heard rows ≡ true
    → All IsBlank (map of_row (resolve_audio t g (resolve_media_rows m f now rows).1).1)
    → ⊥
unfolding resolve_audio resolve_media_rows
resolved-says m t f g now [] n h a = cc
resolved-says m t f g now (r ∷ rows) n h a = elim (Bool-cases (heard r)) [
  | inl e ↦ audio-says t g (resolve_media_row m f now r).1 (row-audible m f now r n e) a.0
  | inr e ↦
      resolved-says m t (resolve_media_row m f now r).0
        (resolve_audio_row t g (resolve_media_row m f now r).1).0 now rows n (ground arith) a.1
]

-- With a media store that gives voice notes a file name, a batch with a photo or with a voice note,
-- not yet fetched or not yet transcribed, has a prompt that is not empty, whatever the downloads,
-- the disk and the speech service do.
pub resolve-says :
    (m : MediaStore) (t : Option (Text → Option Text)) (f : Files) (now : ℕ) (rows : List InboxRow)
    → NamesFiles m
    → any heard rows ≡ true
    → is_empty (build_batch_text (map of_row (resolve m t f now rows))) ≡ false
unfolding resolve_media
resolve-says m t f now rows n h =
    elim (Bool-cases (is_empty (build_batch_text (map of_row (resolve m t f now rows))))) [
      | inl e ↦ absurd (resolved-says m t f _ now rows n h ((build_batch_text-empty_iff _).0 e))
      | inr e ↦ e
    ]
