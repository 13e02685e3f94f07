-- ===== src/Batcher/Process.antt =====
-- `identify` and `processBatch` of server/src/inbox/batcher.ts. `begin_batch` is what comes before
-- the call of `onMessage`, `finish_batch` what comes after it. Times are milliseconds; the tables
-- keep seconds.
pub mod Declines
pub mod Settled
pub mod Begins
pub mod Outcome
pub mod Attempts
pub mod Keyed
mod Examples
use shopify_vitrina.Base.{
  ℕ, ◌/◌, Bool, true, false, Option, none, some, List, [], ◌∷◌, ◌++◌, map, ltb, leb, if◌then◌else◌,
  max, Text, is_empty,
}
use shopify_vitrina.Turn.{Role, Principal, whatsapp, agent, Envelope, TurnContext, truthy}
use shopify_vitrina.Inbox.{
  InboxRow, is_agent, claim_batch, ids_of, mark_batch_done, mark_batch_failed, mark_batch_pending,
}
use shopify_vitrina.Conversation.{Messages, record_inbound_messages}
use shopify_vitrina.Batcher.Prompt.{build_batch_text, of_row}
use shopify_vitrina.Batcher.Timers.{Windows, Timers, arm_retry}
use shopify_vitrina.Batcher.Media.{MediaStore, Files, resolve_media, resolve_audio}

abbrev pub max_batch_attempts : ℕ
max_batch_attempts = 3

-- What the batcher is given, but for `onMessage`.
pub record Deps : Type 0 where
  pub windows : Windows
  pub route : Text → Role × Text
  pub media : Option MediaStore
  pub transcribe : Option (Text → Option Text)

-- A call of `onBatchFailure`.
pub record Failure : Type 0 where
  pub context : TurnContext
  pub final : Bool
  pub attempts : ℕ

pub record Store : Type 0 where
  pub files : Files
  pub messages : Messages
  pub timers : Timers
  pub failures : List Failure

pub record Identity : Type 0 where
  pub principal : Principal
  pub agent_id : Text
  pub phone : Option Text
  pub role : Option Role
  pub hop : ℕ
  pub reply_to : Option Text

-- `rows.filter((row) => row.reply_to)`, and its last.
unfoldable pub last_callback : Option Text → List InboxRow → Option Text
last_callback found [] = found
last_callback found (r ∷ rows) =
    last_callback (elim (truthy r.reply_to) [ none ↦ found | some url ↦ some url ]) rows

unfoldable pub max_of : (InboxRow → ℕ) → List InboxRow → ℕ
max_of f [] = 0
max_of f (r ∷ rows) = max (f r) (max_of f rows)

-- On the first row and all rows.
unfoldable pub identify : (Text → Role × Text) → InboxRow → List InboxRow → Option Identity
identify route first rows =
    if is_agent first.principal_kind
    then elim (truthy first.principal_id) [
      | none ↦ none
      | some caller ↦ elim (truthy first.agent_id) [
        | none ↦ none
        | some agent_id ↦ some (record {
          principal = agent caller;
          agent_id = agent_id;
          phone = none;
          role = none;
          hop = max_of (λ r. r.hop) rows;
          reply_to = last_callback none rows;
        })
      ]
    ]
    else some (record {
      principal = whatsapp first.phone;
      agent_id = (route first.phone).1;
      phone = some first.phone;
      role = some (route first.phone).0;
      hop = 0;
      reply_to = none;
    })

-- A turn that has been handed to `onMessage`.
pub record Running : Type 0 where
  pub key : Text
  pub ids : List ℕ
  pub attempts : ℕ
  pub envelope : Envelope
  pub context : TurnContext

abbrev pub seconds : ℕ → ℕ
seconds now = now / 1000

abbrev context_of : Identity → Text → Text → TurnContext
context_of i key turn_key = record {
  principal = i.principal;
  phone = i.phone;
  role = i.role;
  agent_id = i.agent_id;
  conversation_key = key;
  turn_key = turn_key;
  hop = i.hop;
}

abbrev envelope_of : Identity → Text → Text → Text → Envelope
envelope_of i key turn_key text = record {
  principal = i.principal;
  agent_id = i.agent_id;
  conversation_key = key;
  text = text;
  turn_key = turn_key;
  reply_to = i.reply_to;
  hop = i.hop;
}

unfoldable pub set_inbox_failed : Store → ℕ → List ℕ → Store
set_inbox_failed s now ids = record s {
  files = record s.files { inbox = mark_batch_failed s.files.inbox (seconds now) ids };
}

unfoldable pub set_inbox_done : Store → ℕ → List ℕ → Store
set_inbox_done s now ids = record s {
  files = record s.files { inbox = mark_batch_done s.files.inbox (seconds now) ids };
}

-- `rows.filter((row) => row.audio_path)`, unlinked.
unfoldable pub audio_paths : List InboxRow → List Text
audio_paths [] = []
audio_paths (r ∷ rows) = elim (truthy r.audio_path) [
  | none ↦ audio_paths rows
  | some path ↦ path ∷ audio_paths rows
]

-- The branch of a batch whose attempts are spent.
unfoldable pub give_up_batch : Store → ℕ → TurnContext → ℕ → List InboxRow → Store
give_up_batch s now ctx attempts rows =
    let failed = set_inbox_failed s now (ids_of rows) in
    record failed {
      files = record failed.files { unlinked = failed.files.unlinked ++ audio_paths rows };
      failures =
          failed.failures ++ record { context = ctx; final = true; attempts = attempts } ∷ [];
    }

-- From the fetching of the files to the turn.
unfoldable pub prepare_turn :
    Deps → Store → ℕ → Identity → Text → Text → ℕ → List InboxRow → Store × Option Running
prepare_turn d s now i key turn_key attempts rows =
    let (f, fetched) = resolve_media d.media s.files (seconds now) rows in
    let (g, heard) = resolve_audio d.transcribe f fetched in
    let text = build_batch_text (map of_row heard) in
    if is_empty text then (set_inbox_done (record s { files = g }) now (ids_of rows), none) else (
      record s {
        files = g;
        messages = (record_inbound_messages s.messages (seconds now) i.agent_id turn_key heard).0;
      },
      some (record {
        key = key;
        ids = ids_of rows;
        attempts = attempts;
        envelope = envelope_of i key turn_key text;
        context = context_of i key turn_key;
      }),
    )

unfoldable pub begin_identified :
    Deps → Store → ℕ → Text → Text → Identity → List InboxRow → Store × Option Running
begin_identified d s now key turn_key i rows =
    let attempts = max_of (λ r. r.attempts) rows in
    if ltb max_batch_attempts attempts
    then (give_up_batch s now (context_of i key turn_key) attempts rows, none)
    else prepare_turn d s now i key turn_key attempts rows

-- On the rows that were claimed.
unfoldable pub begin_claimed : Deps → Store → ℕ → Text → List InboxRow → Store × Option Running
begin_claimed d s now key [] = (s, none)
begin_claimed d s now key (first ∷ rest) = elim (identify d.route first (first ∷ rest)) [
  | none ↦ (set_inbox_failed s now (ids_of (first ∷ rest)), none)
  | some i ↦ begin_identified d s now key first.dedupe_key i (first ∷ rest)
]

unfoldable pub begin_batch : Deps → Store → ℕ → Text → Store × Option Running
begin_batch d s now key =
    let (inbox, rows) = claim_batch s.files.inbox key in
    begin_claimed d (record s { files = record s.files { inbox = inbox } }) now key rows

-- The Boolean says whether `onMessage` returned.
unfoldable pub finish_batch : Store → ℕ → Running → Bool → Store
finish_batch s now r true = set_inbox_done s now r.ids
finish_batch s now r false =
    let final = leb max_batch_attempts r.attempts in
    let settled = if final then set_inbox_failed s now r.ids else record s {
      files = record s.files { inbox = mark_batch_pending s.files.inbox r.ids };
      timers = arm_retry s.timers r.key now;
    } in
    record settled {
      failures =
          settled.failures
          ++ record { context = r.context; final = final; attempts = r.attempts } ∷ [];
    }

-- The whole of `processBatch`, for an `onMessage` that may change the store: begun at `now`, ended
-- at `later`.
unfoldable pub process_batch :
    Deps → (Envelope → TurnContext → Store → Store × Bool) → Store → ℕ → ℕ → Text → Store
process_batch d on_message s now later key =
    let (s', running) = begin_batch d s now key in
    elim running [
      | none ↦ s'
      | some r ↦
          let (s'', returned) = on_message r.envelope r.context s' in
          finish_batch s'' later r returned
    ]
