-- ===== src/Batcher/Process/Keyed.antt =====
-- The conversation of a turn.
use shopify_vitrina.Base.{
  ℕ, ◌≡◌, refl, Option, none, some, List, [], ◌∷◌, map, ltb, Text, is_empty, Bool-cases,
  Option-cases, inl, inr,
}
use shopify_vitrina.Inbox.{InboxRow, claim_batch}
use shopify_vitrina.Batcher.Prompt.{build_batch_text, of_row}
use shopify_vitrina.Batcher.Media.{Files, resolve_media, resolve_audio}
use shopify_vitrina.Batcher.Process.{
  Deps, Store, Running, Identity, max_batch_attempts, seconds, identify, begin_batch, begin_claimed,
  begin_identified, prepare_turn,
}
use shopify_vitrina.Batcher.Process.Attempts.{attempts_of}

-- The turn, if there is one, is of the conversation.
abbrev pub Keyed : Text → Option Running → Type 0
Keyed key none = Unit
Keyed key (some r) = r.key ≡ key

module _ (key : Text) (d : Deps) (now : ℕ) where
  prepare_turn-Keyed :
      (s : Store) (i : Identity) (turn_key : Text) (n : ℕ) (rows : List InboxRow)
      → Keyed key (prepare_turn d s now i key turn_key n rows).1
  unfolding prepare_turn
  prepare_turn-Keyed s i turn_key n rows =
      elim (Bool-cases (is_empty (build_batch_text (map of_row (heard.1))))) [
        | inl e ↦ rw e tt
        | inr e ↦ rw e refl
      ]
    where
      heard : Files × List InboxRow
      heard =
          resolve_audio d.transcribe (resolve_media d.media s.files (seconds now) rows).0
            (resolve_media d.media s.files (seconds now) rows).1

  begin_identified-Keyed :
      (s : Store) (i : Identity) (turn_key : Text) (rows : List InboxRow)
      → Keyed key (begin_identified d s now key turn_key i rows).1
  unfolding begin_identified
  begin_identified-Keyed s i turn_key rows =
      elim (Bool-cases (ltb max_batch_attempts (attempts_of rows))) [
        | inl e ↦ rw (e, begin_identified) tt
        | inr e ↦ rw (e, begin_identified) (prepare_turn-Keyed s i turn_key (attempts_of rows) rows)
      ]

  begin_claimed-Keyed :
      (s : Store) (rows : List InboxRow) → Keyed key (begin_claimed d s now key rows).1
  unfolding begin_claimed
  begin_claimed-Keyed s [] = tt
  begin_claimed-Keyed s (first ∷ rest) =
      elim (Option-cases (identify d.route first (first ∷ rest))) [
        | inl e ↦ rw (e, begin_claimed) tt
        | inr (i, e) ↦
            rw (e, begin_claimed) (begin_identified-Keyed s i first.dedupe_key (first ∷ rest))
      ]

  pub begin_batch-Keyed : (s : Store) → Keyed key (begin_batch d s now key).1
  unfolding begin_batch
  begin_batch-Keyed s = begin_claimed-Keyed _ (claim_batch s.files.inbox key).1
