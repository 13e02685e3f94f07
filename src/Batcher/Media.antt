-- ===== src/Batcher/Media.antt =====
-- `resolveMedia`, `giveUpOnAudio` and `resolveAudio` of server/src/inbox/batcher.ts. What they call
-- of the transport, the disk and the speech service is a parameter; a call that throws, or a
-- transcript that is null, is `none`. The rows in memory change along with the table.
pub mod Voice
use shopify_vitrina.Base.{
  ℕ, ◌+◌, Bool, true, false, Option, none, some, List, [], ◌∷◌, ◌++◌, ltb, if◌then◌else◌, length,
  Text, trim, is_empty,
}
use shopify_vitrina.Turn.{truthy}
use shopify_vitrina.Inbox.{
  Inbox, InboxRow, InboxMediaKind, photo, audio, set_transcript, set_audio_path, clear_media,
}
use shopify_vitrina.PendingMedia.{PendingTable, add_pending_media}
use shopify_vitrina.Batcher.Prompt.{audio_fallback}

abbrev pub Bytes : Type 0
Bytes = List ℕ

-- `InboundMediaStore`
pub record MediaStore : Type 0 where
  pub download : Text → Option Bytes
  -- The bytes, the MIME type and the suggested name; the file's path and its public path.
  pub save_photo : Bytes → Option Text → Option Text → Option (Text × Text)
  pub save_audio : Bytes → Option Text → Option Text
  pub max_audio_bytes : ℕ

-- What the two write to: the inbox, the pending photos, and the files that were deleted.
pub record Files : Type 0 where
  pub inbox : Inbox
  pub photos : PendingTable
  pub unlinked : List Text

abbrev pub is_audio : Option InboxMediaKind → Bool
is_audio (some audio) = true
is_audio (some photo) = false
is_audio none = false

unfoldable pub give_up_on_audio : Files → InboxRow → Files × InboxRow
give_up_on_audio f row = (
  record f { inbox = clear_media (set_transcript f.inbox row.id audio_fallback) row.id },
  record row { agent_text = audio_fallback; audio_path = none; media_ref = none },
)

unfoldable pub drop_photo : Files → InboxRow → Files × InboxRow
drop_photo f row =
    (record f { inbox = clear_media f.inbox row.id }, record row { media_ref = none })

-- The `catch` of the loop.
unfoldable pub give_up : Files → InboxRow → Files × InboxRow
give_up f row = if is_audio row.media_kind then give_up_on_audio f row else drop_photo f row

unfoldable pub store_audio : MediaStore → Files → InboxRow → Bytes → Files × InboxRow
store_audio media f row bytes =
    if ltb media.max_audio_bytes (length bytes)
    then give_up_on_audio f row
    else elim (media.save_audio bytes row.media_name) [
      | none ↦ give_up f row
      | some path ↦ (
        record f { inbox = set_audio_path f.inbox row.id path },
        record row { audio_path = some path; media_ref = none },
      )
    ]

-- `row.agent_text.trim() || null`
abbrev pub caption_of : Text → Option Text
caption_of t = truthy (some (trim t))

unfoldable pub store_photo : MediaStore → Files → ℕ → InboxRow → Bytes → Files × InboxRow
store_photo media f now row bytes = elim (media.save_photo bytes row.media_mime row.media_name) [
  | none ↦ give_up f row
  | some (file_path, public_path) ↦ (
    record f {
      photos = add_pending_media f.photos now (record {
        phone = row.phone;
        file_path = file_path;
        public_path = public_path;
        caption = caption_of row.agent_text;
        sent_at = row.media_sent_at;
      });
      inbox = clear_media f.inbox row.id;
    },
    record row { media_ref = none },
  )
]

unfoldable pub resolve_media_row : MediaStore → Files → ℕ → InboxRow → Files × InboxRow
resolve_media_row media f now row = elim (truthy row.media_ref) [
  | none ↦ (f, row)
  | some ref ↦ elim (media.download ref) [
    | none ↦ give_up f row
    | some bytes ↦
        if is_audio row.media_kind
        then store_audio media f row bytes
        else store_photo media f now row bytes
  ]
]

unfoldable pub resolve_media_rows : MediaStore → Files → ℕ → List InboxRow → Files × List InboxRow
resolve_media_rows media f now [] = (f, [])
resolve_media_rows media f now (row ∷ rows) =
    let (f', row') = resolve_media_row media f now row in
    let (f'', rows') = resolve_media_rows media f' now rows in (f'', row' ∷ rows')

unfoldable pub resolve_media : Option MediaStore → Files → ℕ → List InboxRow → Files × List InboxRow
resolve_media none f now rows = (f, rows)
resolve_media (some media) f now rows = resolve_media_rows media f now rows

-- `transcript?.trim() || AUDIO_FALLBACK`
abbrev pub or_fallback : Option Text → Text
or_fallback none = audio_fallback
or_fallback (some t) = if is_empty (trim t) then audio_fallback else trim t

abbrev pub transcript_of : Option (Text → Option Text) → Text → Option Text
transcript_of none path = none
transcript_of (some transcribe) path = transcribe path

unfoldable pub resolve_audio_row : Option (Text → Option Text) → Files → InboxRow → Files × InboxRow
resolve_audio_row transcribe f row = elim (truthy row.audio_path) [
  | none ↦ (f, row)
  | some path ↦ (
    record f {
      inbox = set_transcript f.inbox row.id (or_fallback (transcript_of transcribe path));
      unlinked = f.unlinked ++ path ∷ [];
    },
    record row { agent_text = or_fallback (transcript_of transcribe path); audio_path = none },
  )
]

unfoldable pub resolve_audio :
    Option (Text → Option Text) → Files → List InboxRow → Files × List InboxRow
resolve_audio transcribe f [] = (f, [])
resolve_audio transcribe f (row ∷ rows) =
    let (f', row') = resolve_audio_row transcribe f row in
    let (f'', rows') = resolve_audio transcribe f' rows in (f'', row' ∷ rows')
