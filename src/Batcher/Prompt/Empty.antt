-- ===== src/Batcher/Prompt/Empty.antt =====
-- When the prompt is empty, so that the batch is settled without a turn.
use mathlib.Core.Logic.{◌↔◌}
use shopify_vitrina.Base.{
  ℕ, zero, suc, ◌+◌, ◌*◌, ◌/◌, ◌-◌, ◌%◌, ◌<◌, ◌≡◌, refl, ap, ◌∙◌, true, false, List, [], ◌∷◌, ◌++◌,
  ltb, All, Text, ◌==◌, trim, is_empty, arith, Bool-cases, ◌⊎◌, inl, inr,
}
use shopify_vitrina.Batcher.Prompt.{
  photo_placeholder, photo_line, digits, is_media, BatchRow, build_batch_text, join_lines,
}
use shopify_vitrina.Batcher.Prompt.Runs.{
  Item, photo, words, blank, item, run_photos, run_captions, run_lines, lines_after,
  batch_lines_lem, cons-photo, cons-words, cons-blank,
}

-- A row with nothing to answer: no photo, and no text but white space.
abbrev pub IsBlank : BatchRow → Type 0
IsBlank row = (is_media row.kind ≡ false) × (is_empty (trim row.agent_text) ≡ true)

empty-placeholder : (t : Text) → is_empty t ≡ true → (t == photo_placeholder) ≡ false
unfolding photo_placeholder ◌==◌
empty-placeholder [] h = refl
empty-placeholder (c ∷ t) h = cc

IsBlank-item : (row : BatchRow) → IsBlank row → item row ≡ blank
unfolding item
IsBlank-item row h = ground (arith, empty-placeholder (trim row.agent_text) h.1)

item-IsBlank : (row : BatchRow) → item row ≡ blank → IsBlank row
unfolding item
item-IsBlank row h = ground arith

item-words : (row : BatchRow) (t : Text) → item row ≡ words t → is_empty t ≡ false
unfolding item
item-words row t h = ground arith

photo_line-full : (n : ℕ) → is_empty (photo_line n) ≡ false
unfolding photo_line photo_placeholder
photo_line-full n = ground arith

join_lines-full :
    (t : Text) (ts : List Text) → is_empty t ≡ false → is_empty (join_lines (t ∷ ts)) ≡ false
unfolding join_lines
join_lines-full t [] h = h
join_lines-full [] (u ∷ ts) h = cc
join_lines-full (c ∷ t) (u ∷ ts) h = refl

all_lines : List BatchRow → List Text
all_lines rows = run_lines (run_photos rows) (run_captions rows) ++ lines_after rows

module _ (row : BatchRow) (rows : List BatchRow) where
  all_lines-photo :
      (cs : List Text)
      → item row ≡ photo cs
      → is_empty (join_lines (all_lines (row ∷ rows))) ≡ false
  unfolding all_lines
  all_lines-photo cs e =
      rw (cons-photo row rows cs e).0
        (join_lines-full (photo_line (suc (run_photos rows))) _ (photo_line-full _))

  all_lines-words :
      (t : Text) → item row ≡ words t → is_empty (join_lines (all_lines (row ∷ rows))) ≡ false
  unfolding all_lines
  all_lines-words t e =
      let (p, c, l) = cons-words row rows t e in
      rw (p, l) (join_lines-full t _ (item-words row t e))

  all_lines-blank : item row ≡ blank → all_lines (row ∷ rows) ≡ all_lines rows
  unfolding all_lines
  all_lines-blank e = let (p, c, l) = cons-blank row rows e in rw (p, c, l)

Says : List BatchRow → Type 0
Says rows = is_empty (join_lines (all_lines rows)) ≡ false

IsBlank-or-Says : (rows : List BatchRow) → All IsBlank rows ⊎ Says rows
IsBlank-or-Says [] = inl tt
IsBlank-or-Says (row ∷ rows) = cases (item row) refl (IsBlank-or-Says rows)
  where
    rest :
        item row ≡ blank
        → All IsBlank rows ⊎ Says rows
        → All IsBlank (row ∷ rows) ⊎ Says (row ∷ rows)
    rest e (inl a) = inl (item-IsBlank row e, a)
    rest e (inr s) = inr (unfold Says in rw (all_lines-blank row rows e) s)

    cases :
        (i : Item)
        → item row ≡ i
        → All IsBlank rows ⊎ Says rows
        → All IsBlank (row ∷ rows) ⊎ Says (row ∷ rows)
    cases (photo cs) e r = inr (unfold Says in all_lines-photo row rows cs e)
    cases (words t) e r = inr (unfold Says in all_lines-words row rows t e)
    cases blank e r = rest e r

all_lines-none : (rows : List BatchRow) → All IsBlank rows → all_lines rows ≡ []
unfolding all_lines run_photos lines_after
all_lines-none [] h = refl
all_lines-none (row ∷ rows) h =
    all_lines-blank row rows (IsBlank-item row h.0) ∙ all_lines-none rows h.1

build_batch_text-all_lines :
    (rows : List BatchRow) → build_batch_text rows ≡ join_lines (all_lines rows)
unfolding build_batch_text all_lines
build_batch_text-all_lines rows = ap join_lines (batch_lines_lem rows)

-- The prompt is empty exactly when no row is a photo and the text of each is white space: only such
-- a batch is settled without a turn.
pub build_batch_text-empty_iff :
    (rows : List BatchRow) → (is_empty (build_batch_text rows) ≡ true) ↔ All IsBlank rows
unfolding Says join_lines
build_batch_text-empty_iff rows = (
  λ e. elim (IsBlank-or-Says rows) [
    | inl a ↦ a
    | inr s ↦ absurd (cc (build_batch_text-all_lines rows))
  ],
  λ a. rw (build_batch_text-all_lines rows, all_lines-none rows a, join_lines),
)

-- The digits of a number give it back, so that the fuel of `digits` is enough.
abbrev pub value : ℕ → Text → ℕ
value acc [] = acc
value acc (c ∷ s) = value (acc * 10 + (c - 48)) s

value-snoc : (acc : ℕ) (s : Text) (c : ℕ) → value acc (s ++ c ∷ []) ≡ value acc s * 10 + (c - 48)
value-snoc acc [] c = refl
value-snoc acc (d ∷ s) c = value-snoc (acc * 10 + (d - 48)) s c

digits-value : (fuel n : ℕ) → n < fuel → value 0 (digits fuel n) ≡ n
unfolding digits
digits-value zero n h = elim h [ ]
digits-value (suc fuel) n h = elim (Bool-cases (ltb n 10)) [
  | inl e ↦ rw e (ground arith)
  | inr e ↦
      rw (e, value-snoc 0 (digits fuel (n / 10)) (n % 10 + 48))
        (omega (arith, digits-value fuel (n / 10) (ground arith)))
]
