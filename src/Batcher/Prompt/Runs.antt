-- ===== src/Batcher/Prompt/Runs.antt =====
-- The loop of `buildBatchText` against a description of what each row adds, run by run.
use native.Mathlib.Nat.{add-zero, zero-add}
use mathlib.Core.List.{append-nil, append_assoc}
use shopify_vitrina.Base.{
  ℕ, zero, suc, ◌+◌, ◌≡◌, refl, ap, ◌∙◌, sym, ◌||◌, List, [], ◌∷◌, ◌++◌, ltb, if◌then◌else◌, Text,
  ◌==◌, trim, is_empty, arith,
}
use shopify_vitrina.Batcher.Prompt.{
  photo_placeholder, photo_line, is_media, Lines, flush_photos, BatchRow, add_row, add_rows,
  batch_lines,
}

-- What one row is to the prompt: a photo with the lines of its caption, words, or nothing.
pub data Item : Type 0 where
  photo : List Text → Item
  words : Text → Item
  blank : Item

unfoldable pub item : BatchRow → Item
item row =
    let t = trim row.agent_text in
    if is_media row.kind || t == photo_placeholder
    then photo (if is_empty t || t == photo_placeholder then [] else t ∷ [])
    else if is_empty t
    then blank
    else words t

-- Up to the next words: how many photos, and their captions.
unfoldable pub run_photos : List BatchRow → ℕ
run_photos [] = 0
run_photos (row ∷ rows) = elim (item row) [
  | photo cs ↦ suc (run_photos rows)
  | words t ↦ 0
  | blank ↦ run_photos rows
]

unfoldable pub run_captions : List BatchRow → List Text
run_captions [] = []
run_captions (row ∷ rows) = elim (item row) [
  | photo cs ↦ cs ++ run_captions rows
  | words t ↦ []
  | blank ↦ run_captions rows
]

-- One line for all photos of a run, and below it their captions.
abbrev pub run_lines : ℕ → List Text → List Text
run_lines zero captions = []
run_lines (suc n) captions = photo_line (suc n) ∷ captions

-- From the next words on: each text, and after it the run that follows it.
unfoldable pub lines_after : List BatchRow → List Text
lines_after [] = []
lines_after (row ∷ rows) = elim (item row) [
  | photo cs ↦ lines_after rows
  | words t ↦ t ∷ (run_lines (run_photos rows) (run_captions rows) ++ lines_after rows)
  | blank ↦ lines_after rows
]

abbrev shown : Lines → List Text
shown s = run_lines s.photos s.captions

run_lines-flush :
    (ls cs : List Text) (n : ℕ)
    → (if ltb 0 n then ls ++ photo_line n ∷ cs else ls) ≡ ls ++ run_lines n cs
run_lines-flush ls cs zero = sym (append-nil ls)
run_lines-flush ls cs (suc n) = ground arith

flush_photos-lines : (s : Lines) → (flush_photos s).lines ≡ s.lines ++ run_lines s.photos s.captions
unfolding flush_photos
flush_photos-lines s = run_lines-flush s.lines s.captions s.photos

module _ (s : Lines) (row : BatchRow) where
  add_row-photo :
      (cs : List Text)
      → item row ≡ photo cs
      → add_row s row ≡ record s { photos = s.photos + 1; captions = s.captions ++ cs }
  unfolding add_row item
  add_row-photo cs e = ground (arith, append-nil s.captions)

  add_row-words :
      (t : Text)
      → item row ≡ words t
      → add_row s row
        ≡ record { lines = (flush_photos s).lines ++ t ∷ []; photos = 0; captions = [] }
  unfolding add_row item flush_photos
  add_row-words t e = ground arith

  add_row-blank : item row ≡ blank → add_row s row ≡ s
  unfolding add_row item
  add_row-blank e = ground arith

module _ (row : BatchRow) (rows : List BatchRow) where
  pub cons-photo :
      (cs : List Text)
      → item row ≡ photo cs
      → (run_photos (row ∷ rows) ≡ suc (run_photos rows))
        × (run_captions (row ∷ rows) ≡ cs ++ run_captions rows)
        × (lines_after (row ∷ rows) ≡ lines_after rows)
  unfolding run_photos run_captions lines_after
  cons-photo cs e = ground arith

  pub cons-words :
      (t : Text)
      → item row ≡ words t
      → (run_photos (row ∷ rows) ≡ 0)
        × (run_captions (row ∷ rows) ≡ [])
        × (lines_after (row ∷ rows)
            ≡ t ∷ (run_lines (run_photos rows) (run_captions rows) ++ lines_after rows))
  unfolding run_photos run_captions lines_after
  cons-words t e = ground arith

  pub cons-blank :
      item row ≡ blank
      → (run_photos (row ∷ rows) ≡ run_photos rows)
        × (run_captions (row ∷ rows) ≡ run_captions rows)
        × (lines_after (row ∷ rows) ≡ lines_after rows)
  unfolding run_photos run_captions lines_after
  cons-blank e = ground arith

-- What the lines become, from a state of the loop.
Goal : Lines → List BatchRow → Type 0
Goal s rows =
    (flush_photos (add_rows s rows)).lines
    ≡ s.lines
      ++ (run_lines (s.photos + run_photos rows) (s.captions ++ run_captions rows)
          ++ lines_after rows)

add_rows-none : (s : Lines) → Goal s []
unfolding Goal add_rows run_photos run_captions lines_after
add_rows-none s =
    rw (append-nil s.captions, add-zero s.photos)
      (flush_photos-lines s ∙ ap (λ t. s.lines ++ t) (sym (append-nil _)))

module _ (s : Lines) (row : BatchRow) (rows : List BatchRow)
    (rest : (s' : Lines) → Goal s' rows) where
  add_rows-photo : (cs : List Text) → item row ≡ photo cs → Goal s (row ∷ rows)
  unfolding Goal add_rows
  add_rows-photo cs e =
      let (p, c, l) = cons-photo row rows cs e in
      rw (p, c, l, add_row-photo s row cs e, ← append_assoc s.captions cs (run_captions rows))
        (rw (← shift) (rest (record s { photos = s.photos + 1; captions = s.captions ++ cs })))
    where
      shift : s.photos + 1 + run_photos rows ≡ s.photos + suc (run_photos rows)
      shift = omega arith

  add_rows-words : (t : Text) → item row ≡ words t → Goal s (row ∷ rows)
  unfolding Goal add_rows
  add_rows-words t e =
      let (p, c, l) = cons-words row rows t e in
      rw (p, c, l, add_row-words s row t e, append-nil s.captions, add-zero s.photos)
        (rest (record { lines = (flush_photos s).lines ++ t ∷ []; photos = 0; captions = [] })
          ∙ simp (flush_photos-lines s, zero-add, append_assoc))

  add_rows-blank : item row ≡ blank → Goal s (row ∷ rows)
  unfolding Goal add_rows
  add_rows-blank e =
      let (p, c, l) = cons-blank row rows e in rw (p, c, l, add_row-blank s row e) (rest s)

  add_rows-item : (i : Item) → item row ≡ i → Goal s (row ∷ rows)
  add_rows-item (photo cs) e = add_rows-photo cs e
  add_rows-item (words t) e = add_rows-words t e
  add_rows-item blank e = add_rows-blank e

add_rows-lines : (s : Lines) (rows : List BatchRow) → Goal s rows
add_rows-lines s [] = add_rows-none s
add_rows-lines s (row ∷ rows) =
    add_rows-item s row rows (λ s'. add_rows-lines s' rows) (item row) refl

-- The lines of the prompt: for each run of photos between two texts one line with their number,
-- then their captions in order of arrival; each text, trimmed, on a line of its own; rows with
-- nothing to say are passed over and do not end a run.
pub batch_lines_lem :
    (rows : List BatchRow)
    → batch_lines rows ≡ run_lines (run_photos rows) (run_captions rows) ++ lines_after rows
unfolding batch_lines Goal
batch_lines_lem rows =
    add_rows-lines (record { lines = []; photos = 0; captions = [] }) rows ∙ simp zero-add
