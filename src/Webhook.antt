-- ===== src/Webhook.antt =====
-- The WhatsApp door, server/src/inbox/webhook.ts, from a parsed message on; with `InboundMessage` of
-- server/src/types.ts. The parsing of the two transports' payloads is left out. `released` lists the
-- files that `releaseMedia` was asked to let go of. Times are milliseconds.
pub mod Again
mod Examples
use shopify_vitrina.Base.{
  ℕ, ◌+◌, ◌/◌, Bool, true, false, ◌&&◌, ◌||◌, not, Option, none, some, List, [], ◌∷◌, ◌++◌,
  if◌then◌else◌, eqb, Text, str, ◌==◌, trim, is_empty, starts_with, drop, length,
}
use shopify_vitrina.Turn.{Role, owner, customer, role_eq, truthy}
use shopify_vitrina.Inbox.Rows.{MessageKind, InboxMediaKind, photo, InboxRow, InboxInput}
use shopify_vitrina.Inbox.Rows
use shopify_vitrina.Inbox.Tables.{Inbox, insert_message}
use shopify_vitrina.Batcher.Timers.{Windows, Timers, schedule}

pub data InboundKind : Type 0 where
  text image audio interactive other : InboundKind

pub record InboundMedia : Type 0 where
  pub ref : Text
  pub filename : Option Text
  pub content_type : Option Text

pub record InboundMessage : Type 0 where
  pub from : Text
  pub kind : InboundKind
  pub id : Option Text
  pub agent_text : Text
  pub media : Option InboundMedia
  pub sent_at : Option ℕ

-- The HMAC in hexadecimal and the decoding of it are parameters.
unfoldable pub verify_signature :
    (Text → Text → Text) → (Text → List ℕ) → Text → Option Text → Text → Bool
verify_signature hmac decode body header secret = elim (truthy header) [
  | none ↦ false
  | some h ↦
      let provided = if starts_with (str "sha256=") h then drop (length (str "sha256=")) h else h in
      let a = decode (hmac secret body) in
      let b = decode provided in not (eqb (length a) 0) && (eqb (length a) (length b) && a == b)
]

-- On the digest of the whole event.
unfoldable pub stable_event_key : Text → Option Text → Text
stable_event_key digest id = elim (truthy id) [
  | some message_id ↦ str "msg:" ++ message_id
  | none ↦ str "evt:" ++ digest
]

abbrev pub has_content_without_text : InboundKind → Bool
has_content_without_text image = true
has_content_without_text audio = true
has_content_without_text text = false
has_content_without_text interactive = false
has_content_without_text other = false

abbrev pub is_audio_kind : InboundKind → Bool
is_audio_kind audio = true
is_audio_kind _ = false

abbrev pub is_some_media : Option InboundMedia → Bool
is_some_media none = false
is_some_media (some m) = true

unfoldable pub persisted_kind : InboundMessage → MessageKind
persisted_kind m =
    if is_some_media m.media && not (is_audio_kind m.kind) then Rows.media else Rows.text

unfoldable pub wanted_media : (Text → Role) → InboundMessage → Option InboxMediaKind
wanted_media role_for m = elim m.media [
  | none ↦ none
  | some media ↦
      if is_audio_kind m.kind
      then some Rows.audio
      else if role_eq (role_for m.from) owner
      then some photo
      else none
]

abbrev pub ref_of : Option InboundMedia → Option Text
ref_of none = none
ref_of (some m) = some m.ref

abbrev content_type_of : Option InboundMedia → Option Text
content_type_of none = none
content_type_of (some m) = m.content_type

abbrev filename_of : Option InboundMedia → Option Text
filename_of none = none
filename_of (some m) = m.filename

-- `wantedMedia ? inbound.media!.ref : null`
abbrev wanted_ref : Option InboxMediaKind → InboundMessage → Option Text
wanted_ref none m = none
wanted_ref (some k) m = ref_of m.media

unfoldable pub row_input : (Text → Role) → Text → InboundMessage → InboxInput
row_input role_for digest m = record {
  dedupe_key = stable_event_key digest m.id;
  phone = m.from;
  agent_text = m.agent_text;
  kind = some (persisted_kind m);
  audio_path = none;
  media_ref = wanted_ref (wanted_media role_for m) m;
  media_kind = wanted_media role_for m;
  media_mime = content_type_of m.media;
  media_name = filename_of m.media;
  media_sent_at = m.sent_at;
  agent_id = none;
  principal_kind = none;
  principal_id = none;
  conversation_key = none;
  reply_to = none;
  hop = none;
}

pub record Door : Type 0 where
  pub inbox : Inbox
  pub timers : Timers
  pub released : List Text

-- `release`: nothing for no reference.
unfoldable pub release : Door → Option Text → Door
release s ref = elim (truthy ref) [
  | none ↦ s
  | some r ↦ record s { released = s.released ++ r ∷ [] }
]

-- `inbound.media && !wantedMedia`
unfoldable pub release_unwanted : Door → Option InboxMediaKind → InboundMessage → Door
release_unwanted s none m = release s (ref_of m.media)
release_unwanted s (some k) m = s

unfoldable pub is_ignored : InboundMessage → Bool
is_ignored m = is_empty (trim m.agent_text) && not (has_content_without_text m.kind)

unfoldable pub store_inbound : Windows → (Text → Role) → Door → ℕ → Text → InboundMessage → Door
store_inbound w role_for s now digest m =
    let (db, row) = insert_message s.inbox (now / 1000) (row_input role_for digest m) in
    elim row [
      | none ↦ record s { inbox = db }
      | some r ↦
          let s' = release_unwanted (record s { inbox = db }) (wanted_media role_for m) m in
          record s' { timers = schedule w s'.timers r.phone (persisted_kind m) now }
    ]

unfoldable pub handle_inbound : Windows → (Text → Role) → Door → ℕ → Text → InboundMessage → Door
handle_inbound w role_for s now digest m =
    if is_ignored m then release s (ref_of m.media) else store_inbound w role_for s now digest m

unfoldable pub handle_items : Windows → (Text → Role) → Door → ℕ → Text → List InboundMessage → Door
handle_items w role_for s now digest [] = s
handle_items w role_for s now digest (m ∷ ms) =
    handle_items w role_for (handle_inbound w role_for s now digest m) now digest ms

-- A POST, with what the parser makes of its body.
pub record Delivery : Type 0 where
  pub body : Text
  pub signature : Option Text
  pub digest : Text
  pub items : List InboundMessage

pub data Status : Type 0 where
  accepted invalid_signature : Status

unfoldable pub post_webhook :
    (Text → Text → Text)
    → (Text → List ℕ)
    → Text
    → Windows
    → (Text → Role)
    → Door
    → ℕ
    → Delivery
    → Door × Status
post_webhook hmac decode secret w role_for s now d =
    if verify_signature hmac decode d.body d.signature secret
    then (handle_items w role_for s now d.digest d.items, accepted)
    else (s, invalid_signature)
