-- ===== src/Batcher/Examples.antt =====
-- The theorems on the batcher at small batches and bursts.
use shopify_vitrina.Base.{
  any, ◌||◌, ◌≡◌, refl, false, some, none, List, [], ◌∷◌, ◌++◌, map, Text, str, is_empty, ◌==◌,
  trim, trim_start, is_space, lookup,
}
use shopify_vitrina.Inbox.Rows.{InboxRow, text, media, pending, whatsapp, audio}
use shopify_vitrina.Batcher.Prompt.{
  BatchRow, build_batch_text, batch_lines, photo_line, photo_placeholder, decimal, of_row, add_rows,
  add_row, flush_photos,
}
use shopify_vitrina.Batcher.Prompt.Runs.{
  run_lines, run_photos, run_captions, lines_after, batch_lines_lem,
}
use shopify_vitrina.Inbox.Tables.{in_flight, list_replayable}
use shopify_vitrina.Batcher.Timers.Replay.{remembered, replay_pending-remembered}
use shopify_vitrina.Batcher.Timers.{Windows, Timers, replay_pending}
use shopify_vitrina.Batcher.Timers.Burst.{Message, run, expected, messages_of, run-burst_of}
use shopify_vitrina.Batcher.Media.{MediaStore, Files}
use shopify_vitrina.Batcher.Media.Voice.{NamesFiles, resolve, resolve-says}

abbrev photos : List BatchRow
photos =
    record { agent_text = photo_placeholder; kind = text }
    ∷ record { agent_text = str " "; kind = text }
    ∷ record { agent_text = str " camisa azul "; kind = media }
    ∷ record { agent_text = str "hola"; kind = text }
    ∷ record { agent_text = []; kind = media }
    ∷ []

-- Two photos with one caption, a text, one photo.
photo_lines :
    batch_lines photos
    ≡ str "(El usuario envió 2 fotos)"
      ∷ str "camisa azul"
      ∷ str "hola"
      ∷ str "(El usuario envió una foto)"
      ∷ []
unfolding batch_lines add_rows add_row flush_photos photo_line photo_placeholder decimal trim
    trim_start is_space ◌==◌
photo_lines = refl

batch_lines_lem_example :
    batch_lines photos ≡ run_lines (run_photos photos) (run_captions photos) ++ lines_after photos
batch_lines_lem_example = batch_lines_lem photos

abbrev windows : Windows
windows = record {
  debounce_ms = 4_000;
  max_wait_ms = 20_000;
  media_debounce_ms = 12_000;
  media_max_wait_ms = 60_000;
}

abbrev idle : Timers
idle = record { bursts = []; retries = []; queued = [] }

abbrev ana : Text
ana = str "573001"

abbrev calls : List (Text × Message)
calls = (ana, (text, 1_000)) ∷ (str "573002", (text, 1_500)) ∷ (ana, (media, 3_000)) ∷ []

run-burst_of_example :
    lookup ana (run windows idle calls).bursts ≡ expected windows (messages_of ana calls)
unfolding lookup
run-burst_of_example = run-burst_of windows idle ana calls refl

abbrev voice : InboxRow
voice = record {
  id = 1;
  dedupe_key = str "a1";
  phone = ana;
  agent_text = [];
  kind = text;
  audio_path = none;
  media_ref = some (str "ref");
  media_kind = some audio;
  media_mime = none;
  media_name = none;
  media_sent_at = none;
  agent_id = none;
  principal_kind = whatsapp;
  principal_id = some ana;
  conversation_key = ana;
  reply_to = none;
  hop = 0;
  status = pending;
  attempts = 0;
  received_at = 5;
  processed_at = none;
}

-- The download fails.
abbrev store : MediaStore
store = record {
  download = λ ref. none;
  save_photo = λ bytes mime name. none;
  save_audio = λ bytes name. some (str "voz.ogg");
  max_audio_bytes = 16_000_000;
}

some-out : (s t : Text) → some s ≡ some t → is_empty s ≡ false → is_empty t ≡ false
some-out s t e h = cc

names : NamesFiles store
names b name path e = some-out (str "voz.ogg") path e refl

abbrev files : Files
files = record {
  inbox = record { rows = voice ∷ []; next_id = 2 };
  photos = record { rows = []; next_id = 1 };
  unlinked = [];
}

resolve-says_example :
    is_empty (build_batch_text (map of_row (resolve store none files 10 (voice ∷ [])))) ≡ false
resolve-says_example = resolve-says store none files 10 (voice ∷ []) names refl

replay_pending-remembered_example :
    remembered ana (replay_pending windows idle 9_000 (list_replayable files.inbox))
    ≡ (remembered ana idle || any (in_flight ana) files.inbox.rows)
replay_pending-remembered_example = replay_pending-remembered windows idle 9_000 files.inbox ana
