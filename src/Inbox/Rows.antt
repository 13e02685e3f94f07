-- ===== src/Inbox/Rows.antt =====
-- The rows of the inbox, and what a door hands over to be inserted.
use shopify_vitrina.Base.{ℕ, Bool, true, false, Option, none, some, Text}

pub data MessageKind : Type 0 where
  text media : MessageKind

pub data InboxStatus : Type 0 where
  pending processing done failed : InboxStatus

pub data InboxMediaKind : Type 0 where
  photo audio : InboxMediaKind

pub data PrincipalKind : Type 0 where
  whatsapp agent : PrincipalKind

pub record InboxRow : Type 0 where
  pub id : ℕ
  pub dedupe_key : Text
  pub phone : Text
  pub agent_text : Text
  pub kind : MessageKind
  pub audio_path : Option Text
  pub media_ref : Option Text
  pub media_kind : Option InboxMediaKind
  pub media_mime : Option Text
  pub media_name : Option Text
  pub media_sent_at : Option ℕ
  pub agent_id : Option Text
  pub principal_kind : PrincipalKind
  pub principal_id : Option Text
  pub conversation_key : Text
  pub reply_to : Option Text
  pub hop : ℕ
  pub status : InboxStatus
  pub attempts : ℕ
  pub received_at : ℕ
  pub processed_at : Option ℕ

-- The argument of `insertInboxMessage`, with `none` for what it leaves out or gives as null.
pub record InboxInput : Type 0 where
  pub dedupe_key : Text
  pub phone : Text
  pub agent_text : Text
  pub kind : Option MessageKind
  pub audio_path : Option Text
  pub media_ref : Option Text
  pub media_kind : Option InboxMediaKind
  pub media_mime : Option Text
  pub media_name : Option Text
  pub media_sent_at : Option ℕ
  pub agent_id : Option Text
  pub principal_kind : Option PrincipalKind
  pub principal_id : Option Text
  pub conversation_key : Option Text
  pub reply_to : Option Text
  pub hop : Option ℕ

abbrev pub is_done : InboxStatus → Bool
is_done done = true
is_done _ = false

abbrev pub is_failed : InboxStatus → Bool
is_failed failed = true
is_failed _ = false

-- `status IN ('pending','processing')`
abbrev pub unsettled : InboxStatus → Bool
unsettled pending = true
unsettled processing = true
unsettled done = false
unsettled failed = false

abbrev pub is_agent : PrincipalKind → Bool
is_agent agent = true
is_agent whatsapp = false

-- `a ?? b`
abbrev pub or_else {ℓ} : {A : Type ℓ} → Option A → A → A
or_else none b = b
or_else (some a) b = a
