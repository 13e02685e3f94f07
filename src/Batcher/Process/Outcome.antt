-- ===== src/Batcher/Process/Outcome.antt =====
-- A batch is settled, or a retry is due.
use shopify_vitrina.Inbox.Ids.{includes}
use shopify_vitrina.Base.{
  ℕ, ◌+◌, All-map_to, Bool-cases, ◌≡◌, refl, subst, ◌∙◌, ◌⊎◌, Bool, true, false, Option, none, some,
  List, [], ◌∷◌, map, ltb, leb, Text, is_empty, ==_refl, lookup, lookup-insert, arith, Option-cases,
  inl, inr, select,
}
use shopify_vitrina.Turn.{Envelope, TurnContext}
use shopify_vitrina.Inbox.{
  InboxRow, claim_batch, ids_of, mark_batch_done, mark_batch_failed, as_done, as_failed, in_flight,
}
use shopify_vitrina.Inbox.Valid.{IsValid}
use shopify_vitrina.Inbox.Settling.{claim_ids}
use shopify_vitrina.Batcher.Prompt.{build_batch_text, of_row}
use shopify_vitrina.Batcher.Timers.{Timers, arm_retry, retry_delay_ms}
use shopify_vitrina.Batcher.Media.{Files, resolve_media, resolve_audio}
use shopify_vitrina.Batcher.Process.{
  Deps, Store, Running, Identity, max_batch_attempts, max_of, seconds, identify, begin_batch,
  begin_claimed, begin_identified, prepare_turn, give_up_batch, finish_batch, process_batch,
  set_inbox_done, set_inbox_failed,
}
use shopify_vitrina.Batcher.Process.Settled.{
  Covered, Settled, for_ids-Settled, settled-off, Covered-claim, Covered-Closed,
}
use shopify_vitrina.Batcher.Process.Declines.{resolve_media-Closed, resolve_audio-Closed}

module _ (key : Text) where
  -- Without a turn every row of the conversation is settled; with one, those that are not are its.
  unfoldable pub Begun : List ℕ → Store → Option Running → Type 0
  Begun ids s none = Settled key s.files.inbox.rows
  Begun ids s (some r) = (r.key ≡ key) × Covered key r.ids s.files.inbox.rows × (r.ids ≡ ids)

  pub done-Settled :
      (s : Store) (now : ℕ) (ids : List ℕ)
      → Covered key ids s.files.inbox.rows
      → Settled key (set_inbox_done s now ids).files.inbox.rows
  unfolding set_inbox_done mark_batch_done
  done-Settled s now ids c =
      for_ids-Settled key (as_done (seconds now)) ids _ (λ r. (settled-off key (seconds now) r).0) c

  pub failed-Settled :
      (s : Store) (now : ℕ) (ids : List ℕ)
      → Covered key ids s.files.inbox.rows
      → Settled key (set_inbox_failed s now ids).files.inbox.rows
  unfolding set_inbox_failed mark_batch_failed
  failed-Settled s now ids c =
      for_ids-Settled key (as_failed (seconds now)) ids _ (λ r. (settled-off key (seconds now) r).1)
        c

  give_up_batch-Settled :
      (s : Store) (now : ℕ) (ctx : TurnContext) (n : ℕ) (rows : List InboxRow)
      → Covered key (ids_of rows) s.files.inbox.rows
      → Settled key (give_up_batch s now ctx n rows).files.inbox.rows
  unfolding give_up_batch
  give_up_batch-Settled s now ctx n rows c = failed-Settled s now (ids_of rows) c

  prepare_turn-Begun :
      (d : Deps) (s : Store) (now : ℕ) (i : Identity) (turn_key : Text) (attempts : ℕ)
      (rows : List InboxRow)
      → Covered key (ids_of rows) s.files.inbox.rows
      → let p = prepare_turn d s now i key turn_key attempts rows in Begun (ids_of rows) p.0 p.1
  unfolding prepare_turn Begun
  prepare_turn-Begun d s now i turn_key attempts rows c =
      elim (Bool-cases (is_empty (build_batch_text (map of_row (heard.1))))) [
        | inl e ↦ rw e (done-Settled (record s { files = heard.0 }) now (ids_of rows) kept)
        | inr e ↦ rw e (refl, kept, refl)
      ]
    where
      heard : Files × List InboxRow
      heard =
          resolve_audio d.transcribe (resolve_media d.media s.files (seconds now) rows).0
            (resolve_media d.media s.files (seconds now) rows).1

      kept : Covered key (ids_of rows) heard.0.inbox.rows
      kept =
          resolve_audio-Closed (λ db. Covered key (ids_of rows) db.rows)
            (Covered-Closed key (ids_of rows)) d.transcribe _ _
            (resolve_media-Closed (λ db. Covered key (ids_of rows) db.rows)
              (Covered-Closed key (ids_of rows)) d.media s.files (seconds now) rows c)

  begin_identified-Begun :
      (d : Deps) (s : Store) (now : ℕ) (i : Identity) (turn_key : Text) (rows : List InboxRow)
      → Covered key (ids_of rows) s.files.inbox.rows
      → let p = begin_identified d s now key turn_key i rows in Begun (ids_of rows) p.0 p.1
  unfolding begin_identified Begun
  begin_identified-Begun d s now i turn_key rows c =
      elim (Bool-cases (ltb max_batch_attempts (max_of (λ r. r.attempts) rows))) [
        | inl e ↦ rw (e, begin_identified) (give_up_batch-Settled s now _ _ rows c)
        | inr e ↦
            rw e (prepare_turn-Begun d s now i turn_key (max_of (λ r. r.attempts) rows) rows c)
      ]

  begin_claimed-Begun :
      (d : Deps) (s : Store) (now : ℕ) (rows : List InboxRow)
      → Covered key (ids_of rows) s.files.inbox.rows
      → let p = begin_claimed d s now key rows in Begun (ids_of rows) p.0 p.1
  unfolding begin_claimed Begun
  begin_claimed-Begun d s now [] c = All-map_to _ _ (λ r h. ground (arith, h)) s.files.inbox.rows c
  begin_claimed-Begun d s now (first ∷ rest) c =
      elim (Option-cases (identify d.route first (first ∷ rest))) [
        | inl e ↦ rw (e, begin_claimed) (failed-Settled s now (ids_of (first ∷ rest)) c)
        | inr (i, e) ↦
            rw (e, begin_claimed)
              (begin_identified-Begun d s now i first.dedupe_key (first ∷ rest) c)
      ]

  pub begin_batch-Begun :
      (d : Deps) (s : Store) (now : ℕ)
      → IsValid s.files.inbox
      → let p = begin_batch d s now key in Begun (claim_ids s.files.inbox key) p.0 p.1
  unfolding begin_batch
  begin_batch-Begun d s now v =
      begin_claimed-Begun d _ now (claim_batch s.files.inbox key).1
        (Covered-claim key s.files.inbox v)

  -- Settled, or tried again.
  pub Answered : Store → Type 0
  Answered s =
      Settled key s.files.inbox.rows ⊎ ((due : ℕ) × (lookup key s.timers.retries ≡ some due))

  arm_retry-due :
      (t : Timers) (now : ℕ) → (due : ℕ) × (lookup key (arm_retry t key now).retries ≡ some due)
  unfolding arm_retry
  arm_retry-due t now = elim (Option-cases (lookup key t.retries)) [
    | inl e ↦ (
      now + retry_delay_ms,
      rw (e, arm_retry)
          (lookup-insert key key (now + retry_delay_ms) t.retries ∙ rw (==_refl key) refl),
    )
    | inr (due, e) ↦ (due, rw (e, arm_retry) e)
  ]

  finish_batch-Answered :
      (s : Store) (now : ℕ) (r : Running) (returned : Bool)
      → r.key ≡ key
      → Covered key r.ids s.files.inbox.rows
      → Answered (finish_batch s now r returned)
  unfolding finish_batch Answered
  finish_batch-Answered s now r true k c = inl (done-Settled s now r.ids c)
  finish_batch-Answered s now r false k c = elim (Bool-cases (leb max_batch_attempts r.attempts)) [
    | inl e ↦ rw e (inl (failed-Settled s now r.ids c))
    | inr e ↦ rw (e, k) (inr (arm_retry-due s.timers now))
  ]

-- A row of the conversation that is unsettled after the turn was so before it; the rows of other
-- conversations may change in any way.
abbrev pub Undisturbed : Text → Store → Store → Type 0
Undisturbed key before after =
    Covered key (ids_of (select (in_flight key) before.files.inbox.rows)) after.files.inbox.rows

Covered-includes :
    (key : Text) (i : ℕ) (ids : List ℕ) (rs : List InboxRow)
    → Covered key ids rs
    → includes i (ids_of (select (in_flight key) rs)) ≡ true
    → includes i ids ≡ true
Covered-includes key i ids [] c h = cc
Covered-includes key i ids (r ∷ rs) c h = ground (arith, c.0, Covered-includes key i ids rs c.1)

pub Covered-Undisturbed :
    (key : Text) (ids : List ℕ) (before after : Store)
    → Undisturbed key before after
    → Covered key ids before.files.inbox.rows
    → Covered key ids after.files.inbox.rows
Covered-Undisturbed key ids before after u c =
    All-map_to _ _ (λ r h e. Covered-includes key r.id ids before.files.inbox.rows c (h e))
      after.files.inbox.rows u

-- After the processing of a conversation's batch, with the inbox valid before it and with no
-- message of the conversation stored during the turn, either no row of the conversation is still unsettled, or a retry of the conversation is
-- due; this holds whether the batch is empty, cannot be identified, has spent its attempts or has
-- nothing to say, and whether the turn returns or throws.
pub process_batch-Answered :
    (d : Deps) (on_message : Envelope → TurnContext → Store → Store × Bool) (s : Store)
    (now later : ℕ) (key : Text)
    → IsValid s.files.inbox
    → ((e : Envelope) (c : TurnContext) (t : Store) → Undisturbed key t (on_message e c t).0)
    → Answered key (process_batch d on_message s now later key)
unfolding process_batch Begun Answered
process_batch-Answered d on_message s now later key v h = from (begin_batch d s now key).1 refl
  where
    from :
        (o : Option Running)
        → (begin_batch d s now key).1 ≡ o
        → Answered key (process_batch d on_message s now later key)
    from none e =
        rw (e, process_batch)
          (inl (
            subst (Begun key (claim_ids s.files.inbox key) (begin_batch d s now key).0) e
              (begin_batch-Begun key d s now v)))
    from (some r) e =
        let (k, c, _) =
          subst (Begun key (claim_ids s.files.inbox key) (begin_batch d s now key).0) e
            (begin_batch-Begun key d s now v) in
        rw (e, process_batch)
          (finish_batch-Answered key _ later r _ k (
            Covered-Undisturbed key r.ids (begin_batch d s now key).0
              (on_message r.envelope r.context (begin_batch d s now key).0).0
              (h r.envelope r.context (begin_batch d s now key).0) c))
