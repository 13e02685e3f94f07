-- ===== src/System/Turns.antt =====
-- The end of a turn keeps the invariant.
use shopify_vitrina.Base.{
  ℕ, ◌<◌, ◌≡◌, refl, subst, ◌⊎◌, Bool, true, false, ◌&&◌, ◌||◌, some, List, [], ◌∷◌, any, All,
  All-map_to, Text, ◌==◌, ==→eq, ==_refl, leb, arith, Bool-cases, Option-cases, inl, inr,
}
use mathlib.Core.Option.{some-injective}
use shopify_vitrina.Inbox.Rows.{InboxRow, unsettled}
use shopify_vitrina.Inbox.Tables.{
  Inbox, for_ids, as_done, as_failed, as_pending, mark_batch_done, mark_batch_failed,
  mark_batch_pending,
}
use shopify_vitrina.Inbox.Ids.{includes}
use shopify_vitrina.Inbox.Valid.{for_ids-IsValid}
use shopify_vitrina.Batcher.Timers.{arm_retry}
use shopify_vitrina.Batcher.Process.{
  Store, Running, seconds, max_batch_attempts, finish_batch, set_inbox_done, set_inbox_failed,
}
use shopify_vitrina.Batcher.Process.Declines.{Each}
use shopify_vitrina.System.{System, of_key, take_first, drop_first, finish_turn}
use shopify_vitrina.System.Kept.{Inv, pending, held, kept, pending-arm_retry}
use shopify_vitrina.System.Rows.{
  KeepsKey, Unsettled-weaken, Each-for_ids, Unsettled-settle, Unsettled-revive,
}

-- The turns of a conversation have no other's rows.
abbrev pub Owned : Inbox → Running → Type 0
Owned db t = Each (λ id key. includes id t.ids ≡ true → key ≡ t.key) db

abbrev Below : ℕ → Running → Type 0
Below n t = (i : ℕ) → includes i t.ids ≡ true → i < n

module _ (p : Running → Bool) where
  take_first-all :
      (Q : Running → Type 0) (ts : List Running) (t : Running)
      → All Q ts
      → take_first p ts ≡ some t
      → Q t
  unfolding take_first
  take_first-all Q [] t a e = absurd (cc e)
  take_first-all Q (u ∷ ts) t a e = elim (Bool-cases (p u)) [
    | inl h ↦ subst Q (some-injective _ _ (rw h at e)) a.0
    | inr h ↦ take_first-all Q ts t a.1 (rw h at e)
  ]

  drop_first-all : (Q : Running → Type 0) (ts : List Running) → All Q ts → All Q (drop_first p ts)
  unfolding drop_first
  drop_first-all Q [] a = tt
  drop_first-all Q (u ∷ ts) a = elim (Bool-cases (p u)) [
    | inl h ↦ rw h a.1
    | inr h ↦ rw h (a.0, drop_first-all Q ts a.1)
  ]

  take_first-any :
      (q : Running → Bool) (ts : List Running) (t : Running)
      → take_first p ts ≡ some t
      → any q ts ≡ (q t || any q (drop_first p ts))
  unfolding take_first drop_first
  take_first-any q [] t e = absurd (cc e)
  take_first-any q (u ∷ ts) t e = elim (Bool-cases (p u)) [
    | inl h ↦ rw (h, some-injective _ _ (rw h at e)) refl
    | inr h ↦ rw (h, take_first-any q ts t (rw h at e)) (ground arith)
  ]

  take_first-test : (ts : List Running) (t : Running) → take_first p ts ≡ some t → p t ≡ true
  unfolding take_first
  take_first-test [] t e = absurd (cc e)
  take_first-test (u ∷ ts) t e = elim (Bool-cases (p u)) [
    | inl h ↦ subst (λ x. p x ≡ true) (some-injective _ _ (rw h at e)) h
    | inr h ↦ take_first-test ts t (rw h at e)
  ]

-- A turn ends, `s` being the system before it.
module _ (s : System) (now : ℕ) (key : Text) (t : Running)
    (e : take_first (of_key key) s.turns ≡ some t) (v : Inv s) where
  abbrev rest : List Running
  rest = drop_first (of_key key) s.turns

  t-key : t.key ≡ key
  t-key = ==→eq t.key key (take_first-test (of_key key) s.turns t e)

  t-Owned : Owned s.store.files.inbox t
  t-Owned = take_first-all (of_key key) (Owned s.store.files.inbox) s.turns t v.owned e

  held-rest :
      (id : ℕ) (k : Text)
      → held id k s.turns ≡ ((t.key == k && includes id t.ids) || held id k rest)
  held-rest id k = take_first-any (of_key key) (λ u. u.key == k && includes id u.ids) s.turns t e

  -- The batch is settled.
  settled-Inv :
      (f : InboxRow → InboxRow) (store : Store)
      → ((r : InboxRow) → ((f r).id ≡ r.id) × ((f r).dedupe_key ≡ r.dedupe_key))
      → KeepsKey f
      → ((r : InboxRow) → unsettled (f r).status ≡ false)
      → store.timers ≡ s.store.timers
      → store.files.inbox
        ≡ record s.store.files.inbox { rows = for_ids f t.ids s.store.files.inbox.rows }
      → Inv (record s { store = store; turns = rest })
  settled-Inv f store k k' off same e' = record {
    valid = rw e' (for_ids-IsValid f k t.ids s.store.files.inbox v.valid);
    answered =
        rw (e', same)
          (Unsettled-settle f k' _ t.ids s.store.files.inbox.rows off
            (Unsettled-weaken _ _ s.store.files.inbox.rows other v.answered));
    owned = rw e' (
        All-map_to _ _ (λ u a. Each-for_ids f k' _ t.ids s.store.files.inbox.rows a) rest
          (drop_first-all (of_key key) _ s.turns v.owned));
    below = rw e' (drop_first-all (of_key key) _ s.turns v.below);
  }
    where
      other :
          (id : ℕ) (k : Text)
          → kept s id k ≡ true
          → (includes id t.ids ≡ true) ⊎ ((pending k s.store.timers || held id k rest) ≡ true)
      other id k h = elim (Bool-cases (includes id t.ids)) [
        | inl i ↦ inl i
        | inr n ↦ inr (ground (arith, held-rest id k, h, n))
      ]

  -- It goes back to 'pending', with a retry.
  revived-Inv :
      (store : Store)
      → store.timers ≡ arm_retry s.store.timers t.key now
      → store.files.inbox
        ≡ record s.store.files.inbox { rows = for_ids as_pending t.ids s.store.files.inbox.rows }
      → Inv (record s { store = store; turns = rest })
  revived-Inv store same e' = record {
    valid =
        rw e' (for_ids-IsValid as_pending (λ r. (refl, refl)) t.ids s.store.files.inbox v.valid);
    answered =
        rw (e', same)
          (Unsettled-revive as_pending (λ r. (refl, refl)) _ t.ids s.store.files.inbox.rows
            (All-map_to _ _ (λ r o i. own r.id r.conversation_key (o i)) s.store.files.inbox.rows
              t-Owned)
            (Unsettled-weaken _ _ s.store.files.inbox.rows other v.answered));
    owned = rw e' (
        All-map_to _ _
          (λ u a. Each-for_ids as_pending (λ r. (refl, refl)) _ t.ids s.store.files.inbox.rows a)
          rest (drop_first-all (of_key key) _ s.turns v.owned));
    below = rw e' (drop_first-all (of_key key) _ s.turns v.below);
  }
    where
      own :
          (id : ℕ) (k : Text)
          → k ≡ t.key
          → (pending k (arm_retry s.store.timers t.key now) || held id k rest) ≡ true
      own id k q = rw (pending-arm_retry k t.key now s.store.timers, q, ==_refl t.key) refl

      other :
          (id : ℕ) (k : Text)
          → kept s id k ≡ true
          → (pending k (arm_retry s.store.timers t.key now) || held id k rest) ≡ true
      other id k h =
          rw (pending-arm_retry k t.key now s.store.timers) (ground (arith, held-rest id k, h))

  finish_batch-Inv :
      (returned : Bool)
      → Inv (record s { store = finish_batch s.store now t returned; turns = rest })
  unfolding finish_batch set_inbox_done set_inbox_failed mark_batch_done mark_batch_failed
      mark_batch_pending
  finish_batch-Inv true =
      settled-Inv (as_done (seconds now)) _ (λ r. (refl, refl)) (λ r. (refl, refl)) (λ r. refl) refl
        refl
  finish_batch-Inv false = elim (Bool-cases (leb max_batch_attempts t.attempts)) [
    | inl l ↦ rw l (
        settled-Inv (as_failed (seconds now)) _ (λ r. (refl, refl)) (λ r. (refl, refl)) (λ r. refl)
          refl refl)
    | inr l ↦ rw l (revived-Inv _ refl refl)
  ]

pub finish-Inv :
    (s : System) (now : ℕ) (key : Text) (returned : Bool)
    → Inv s
    → Inv (finish_turn s now key returned)
unfolding finish_turn
finish-Inv s now key returned v = elim (Option-cases (take_first (of_key key) s.turns)) [
  | inl e ↦ rw (e, finish_turn) v
  | inr (t, e) ↦ rw (e, finish_turn) (finish_batch-Inv s now key t e v returned)
]
