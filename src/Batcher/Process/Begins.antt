-- ===== src/Batcher/Process/Begins.antt =====
-- The beginning of a batch settles rows or leaves them as they are.
use shopify_vitrina.Base.{
  ℕ, refl, List, [], ◌∷◌, map, ltb, Text, is_empty, Bool-cases, Option-cases, inl, inr, ◌≡◌,
}
use shopify_vitrina.Turn.{TurnContext}
use shopify_vitrina.Inbox.{
  Inbox, InboxRow, ids_of, mark_batch_done, mark_batch_failed, as_done, as_failed, claim_batch,
}
use shopify_vitrina.Inbox.Valid.{IsValid}
use shopify_vitrina.Batcher.Prompt.{build_batch_text, of_row}
use shopify_vitrina.Batcher.Media.{Files, resolve_media, resolve_audio}
use shopify_vitrina.Batcher.Process.{
  Deps, Store, Identity, max_batch_attempts, max_of, seconds, identify, begin_batch, begin_claimed,
  begin_identified, prepare_turn, give_up_batch, set_inbox_done, set_inbox_failed,
}
use shopify_vitrina.Batcher.Process.Declines.{
  Closed, for_ids-Closed, claim_batch-Closed, resolve_media-Closed, resolve_audio-Closed,
}

module _ (P : Inbox → Type 0) (k : Closed P) (key : Text) where
  pub done-Closed :
      (s : Store) (now : ℕ) (ids : List ℕ)
      → P s.files.inbox
      → P (set_inbox_done s now ids).files.inbox
  unfolding set_inbox_done mark_batch_done
  done-Closed s now ids c =
      for_ids-Closed P k (as_done (seconds now)) ids s.files.inbox
        ((λ r. (refl, refl, refl)), λ r e h. absurd (cc h)) c

  pub failed-Closed :
      (s : Store) (now : ℕ) (ids : List ℕ)
      → P s.files.inbox
      → P (set_inbox_failed s now ids).files.inbox
  unfolding set_inbox_failed mark_batch_failed
  failed-Closed s now ids c =
      for_ids-Closed P k (as_failed (seconds now)) ids s.files.inbox
        ((λ r. (refl, refl, refl)), λ r e h. absurd (cc h)) c

  give_up_batch-Closed :
      (s : Store) (now : ℕ) (ctx : TurnContext) (n : ℕ) (rows : List InboxRow)
      → P s.files.inbox
      → P (give_up_batch s now ctx n rows).files.inbox
  unfolding give_up_batch
  give_up_batch-Closed s now ctx n rows c = failed-Closed s now (ids_of rows) c

  prepare_turn-Closed :
      (d : Deps) (s : Store) (now : ℕ) (i : Identity) (turn_key : Text) (n : ℕ)
      (rows : List InboxRow)
      → P s.files.inbox
      → P (prepare_turn d s now i key turn_key n rows).0.files.inbox
  unfolding prepare_turn
  prepare_turn-Closed d s now i turn_key n rows c =
      elim (Bool-cases (is_empty (build_batch_text (map of_row (heard.1))))) [
        | inl e ↦ rw e (done-Closed (record s { files = heard.0 }) now (ids_of rows) kept)
        | inr e ↦ rw e kept
      ]
    where
      heard : Files × List InboxRow
      heard =
          resolve_audio d.transcribe (resolve_media d.media s.files (seconds now) rows).0
            (resolve_media d.media s.files (seconds now) rows).1

      kept : P heard.0.inbox
      kept =
          resolve_audio-Closed P k d.transcribe _ _
            (resolve_media-Closed P k d.media s.files (seconds now) rows c)

  begin_identified-Closed :
      (d : Deps) (s : Store) (now : ℕ) (i : Identity) (turn_key : Text) (rows : List InboxRow)
      → P s.files.inbox
      → P (begin_identified d s now key turn_key i rows).0.files.inbox
  unfolding begin_identified
  begin_identified-Closed d s now i turn_key rows c =
      elim (Bool-cases (ltb max_batch_attempts (max_of (λ r. r.attempts) rows))) [
        | inl e ↦ rw (e, begin_identified) (give_up_batch-Closed s now _ _ rows c)
        | inr e ↦
            rw e (prepare_turn-Closed d s now i turn_key (max_of (λ r. r.attempts) rows) rows c)
      ]

  begin_claimed-Closed :
      (d : Deps) (s : Store) (now : ℕ) (rows : List InboxRow)
      → P s.files.inbox
      → P (begin_claimed d s now key rows).0.files.inbox
  unfolding begin_claimed
  begin_claimed-Closed d s now [] c = c
  begin_claimed-Closed d s now (first ∷ rest) c =
      elim (Option-cases (identify d.route first (first ∷ rest))) [
        | inl e ↦ rw (e, begin_claimed) (failed-Closed s now (ids_of (first ∷ rest)) c)
        | inr (i, e) ↦
            rw (e, begin_claimed)
              (begin_identified-Closed d s now i first.dedupe_key (first ∷ rest) c)
      ]

  pub begin_batch-Closed :
      (d : Deps) (s : Store) (now : ℕ)
      → IsValid s.files.inbox
      → P s.files.inbox
      → P (begin_batch d s now key).0.files.inbox
  unfolding begin_batch
  begin_batch-Closed d s now v c =
      begin_claimed-Closed d _ now (claim_batch s.files.inbox key).1
        (claim_batch-Closed P k s.files.inbox key v c)

-- Nor does it touch a timer.
module _ (d : Deps) (now : ℕ) (key : Text) where
  prepare_turn-timers :
      (s : Store) (i : Identity) (turn_key : Text) (n : ℕ) (rows : List InboxRow)
      → (prepare_turn d s now i key turn_key n rows).0.timers ≡ s.timers
  unfolding prepare_turn set_inbox_done
  prepare_turn-timers s i turn_key n rows =
      elim (Bool-cases (is_empty (build_batch_text (map of_row (heard.1))))) [
        | inl e ↦ rw e refl
        | inr e ↦ rw e refl
      ]
    where
      heard : Files × List InboxRow
      heard =
          resolve_audio d.transcribe (resolve_media d.media s.files (seconds now) rows).0
            (resolve_media d.media s.files (seconds now) rows).1

  begin_identified-timers :
      (s : Store) (i : Identity) (turn_key : Text) (rows : List InboxRow)
      → (begin_identified d s now key turn_key i rows).0.timers ≡ s.timers
  unfolding begin_identified give_up_batch set_inbox_failed
  begin_identified-timers s i turn_key rows =
      elim (Bool-cases (ltb max_batch_attempts (max_of (λ r. r.attempts) rows))) [
        | inl e ↦ rw (e, begin_identified) refl
        | inr e ↦ rw e (prepare_turn-timers s i turn_key (max_of (λ r. r.attempts) rows) rows)
      ]

  begin_claimed-timers :
      (s : Store) (rows : List InboxRow) → (begin_claimed d s now key rows).0.timers ≡ s.timers
  unfolding begin_claimed set_inbox_failed
  begin_claimed-timers s [] = refl
  begin_claimed-timers s (first ∷ rest) =
      elim (Option-cases (identify d.route first (first ∷ rest))) [
        | inl e ↦ rw (e, begin_claimed) refl
        | inr (i, e) ↦
            rw (e, begin_claimed) (begin_identified-timers s i first.dedupe_key (first ∷ rest))
      ]

  pub begin_batch-timers : (s : Store) → (begin_batch d s now key).0.timers ≡ s.timers
  unfolding begin_batch
  begin_batch-timers s = begin_claimed-timers _ (claim_batch s.files.inbox key).1
