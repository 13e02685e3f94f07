-- ===== src/Batcher/Prompt.antt =====
-- `buildBatchText` of server/src/inbox/batcher.ts: one prompt from the rows of a batch.
pub mod Runs
pub mod Empty
use shopify_vitrina.Base.{
  ℕ, zero, suc, ◌+◌, ◌/◌, ◌%◌, Bool, true, false, ◌&&◌, ◌||◌, not, List, [], ◌∷◌, ◌++◌, ltb, eqb,
  if◌then◌else◌, Text, str, ◌==◌, trim, is_empty,
}
use shopify_vitrina.Inbox.Rows.{MessageKind, text, media, InboxRow}

unfoldable pub photo_placeholder : Text
photo_placeholder = str "(El usuario envió una foto)"

unfoldable pub audio_fallback : Text
audio_fallback =
    str
      "(El usuario envió una nota de voz que no se pudo transcribir. Pídele amablemente que escriba su mensaje.)"

-- A number as a template string writes it. A number is above the count of its digits, so that the
-- fuel `suc n` lasts (`digits-value`, in the child `Empty`).
unfoldable pub digits : ℕ → ℕ → Text
digits zero n = []
digits (suc fuel) n =
    let high = digits fuel (n / 10) in
    if ltb n 10 then (n + 48) ∷ [] else high ++ (n % 10 + 48) ∷ []

unfoldable pub decimal : ℕ → Text
unfolding digits
decimal n = digits (suc n) n

unfoldable pub photo_line : ℕ → Text
photo_line count =
    if eqb count 1
    then photo_placeholder
    else str "(El usuario envió " ++ (decimal count ++ str " fotos)")

abbrev pub is_media : MessageKind → Bool
is_media media = true
is_media text = false

-- The variables of the loop.
pub record Lines : Type 0 where
  pub lines : List Text
  pub photos : ℕ
  pub captions : List Text

unfoldable pub flush_photos : Lines → Lines
flush_photos s = record {
  lines = if ltb 0 s.photos then s.lines ++ photo_line s.photos ∷ s.captions else s.lines;
  photos = 0;
  captions = [];
}

-- The fields of `BatchRow`.
pub record BatchRow : Type 0 where
  pub agent_text : Text
  pub kind : MessageKind

abbrev pub of_row : InboxRow → BatchRow
of_row r = record { agent_text = r.agent_text; kind = r.kind }

unfoldable pub add_row : Lines → BatchRow → Lines
add_row s row =
    let trimmed = trim row.agent_text in
    if is_media row.kind || trimmed == photo_placeholder
    then record s {
      photos = s.photos + 1;
      captions =
          if not (is_empty trimmed) && not (trimmed == photo_placeholder)
          then s.captions ++ trimmed ∷ []
          else s.captions;
    }
    else if is_empty trimmed
    then s
    else let flushed = flush_photos s in record flushed { lines = flushed.lines ++ trimmed ∷ [] }

unfoldable pub add_rows : Lines → List BatchRow → Lines
add_rows s [] = s
add_rows s (row ∷ rows) = add_rows (add_row s row) rows

-- `lines.join("\n")`
unfoldable pub join_lines : List Text → Text
join_lines [] = []
join_lines (l ∷ []) = l
join_lines (l ∷ m ∷ ls) = l ++ 10 ∷ join_lines (m ∷ ls)

unfoldable pub batch_lines : List BatchRow → List Text
batch_lines rows =
    (flush_photos (add_rows (record { lines = []; photos = 0; captions = [] }) rows)).lines

unfoldable pub build_batch_text : List BatchRow → Text
build_batch_text rows = join_lines (batch_lines rows)
