-- ===== src/System/Starts.antt =====
-- The start of a turn keeps the invariant.
use shopify_vitrina.Base.{
  ℕ, ◌<◌, ◌≡◌, refl, subst, true, false, ◌||◌, Option, none, some, List, [], ◌∷◌, any, All,
  All-map_to, Text, ◌==◌, ==→eq, ==_refl, arith, Bool-cases, inl, inr,
}
use shopify_vitrina.Inbox.Rows.{InboxRow, unsettled}
use shopify_vitrina.Inbox.Tables.{Inbox, in_flight}
use shopify_vitrina.Inbox.Ids.{includes}
use shopify_vitrina.Inbox.Valid.{IsValid}
use shopify_vitrina.Inbox.Settling.{claim_ids}
use shopify_vitrina.Batcher.Timers.{Timers}
use shopify_vitrina.Batcher.Process.{Deps, Store, Running, begin_batch}
use shopify_vitrina.Batcher.Process.Declines.{
  Closed, Unsettled, Unsettled-Closed, Each-Closed, IsValid-Closed,
}
use shopify_vitrina.Batcher.Process.Begins.{begin_batch-Closed, begin_batch-timers}
use shopify_vitrina.Batcher.Process.Settled.{Settled, Covered}
use shopify_vitrina.Batcher.Process.Outcome.{Begun, begin_batch-Begun}
use shopify_vitrina.System.{System, with_timers, drop_first, add_turn, start_job}
use shopify_vitrina.System.Kept.{Inv, pending, held, kept, pending-start}
use shopify_vitrina.System.Rows.{Unsettled-weaken, claim_ids-Each, claim_ids-lt}
use shopify_vitrina.System.Turns.{Owned}

-- Each row is answered for when those of the conversation and those of the others are.
answered-by :
    (key : Text) (R : ℕ → Text → Type 0) (rs : List InboxRow)
    → All (λ r. in_flight key r ≡ true → R r.id key) rs
    → All
        (λ r.
          unsettled r.status ≡ true
          → (key == r.conversation_key) ≡ false
          → R r.id r.conversation_key)
        rs
    → All (λ r. unsettled r.status ≡ true → R r.id r.conversation_key) rs
answered-by key R [] a b = tt
answered-by key R (r ∷ rs) a b = (one, answered-by key R rs a.1 b.1)
  where
    one : unsettled r.status ≡ true → R r.id r.conversation_key
    one h = elim (Bool-cases (key == r.conversation_key)) [
      | inl e ↦
          subst (R r.id) (==→eq key r.conversation_key e)
            (a.0 (ground (arith, e, h, ==→eq key r.conversation_key, ==_refl key)))
      | inr e ↦ b.0 h e
    ]

-- The start of a turn, the timers being those of the shortened queue.
module _ (d : Deps) (s : System) (now : ℕ) (key : Text) (v : Inv s) where
  abbrev waiting : Timers
  waiting = record s.store.timers { queued = drop_first (λ q. q == key) s.store.timers.queued }

  abbrev begun : Store × Option Running
  begun = begin_batch d (with_timers s.store waiting) now key

  abbrev db : Inbox
  db = s.store.files.inbox

  closed : (P : Inbox → Type 0) → Closed P → P db → P begun.0.files.inbox
  closed P k c = begin_batch-Closed P k key d (with_timers s.store waiting) now v.valid c

  same-id : begun.0.files.inbox.next_id ≡ db.next_id
  same-id = closed (λ e. e.next_id ≡ db.next_id) (λ p f e x h. h) refl

  outcome-none : begun.1 ≡ none → Settled key begun.0.files.inbox.rows
  unfolding Begun
  outcome-none e =
      subst (Begun key (claim_ids db key) begun.0) e
        (begin_batch-Begun key d (with_timers s.store waiting) now v.valid)

  outcome-some :
      (r : Running)
      → begun.1 ≡ some r
      → (r.key ≡ key) × Covered key r.ids begun.0.files.inbox.rows × (r.ids ≡ claim_ids db key)
  unfolding Begun
  outcome-some r e =
      subst (Begun key (claim_ids db key) begun.0) e
        (begin_batch-Begun key d (with_timers s.store waiting) now v.valid)

  -- Rows of another conversation are answered as before.
  other-kept :
      (ts : List Running)
      → ((id : ℕ) (k : Text) → (key == k) ≡ false → held id k ts ≡ held id k s.turns)
      → Unsettled
          (λ id k. (key == k) ≡ false → (pending k waiting || held id k ts) ≡ true)
          begun.0.files.inbox
  other-kept ts same =
      closed (Unsettled (λ id k. (key == k) ≡ false → (pending k waiting || held id k ts) ≡ true))
        (Unsettled-Closed _)
        (Unsettled-weaken (λ id k. kept s id k ≡ true) _ db.rows
          (λ id k h n. rw (pending-start k key s.store.timers n, same id k n) h) v.answered)

  below-old : All (λ t. (i : ℕ) → includes i t.ids ≡ true → i < begun.0.files.inbox.next_id) s.turns
  below-old = rw same-id v.below

  begun-Inv :
      (o : Option Running)
      → begun.1 ≡ o
      → Inv (record s { store = begun.0; turns = add_turn o s.turns })
  begun-Inv none e = record {
    valid = closed IsValid IsValid-Closed v.valid;
    answered = rw (begin_batch-timers d now key (with_timers s.store waiting)) (
        answered-by key (λ id k. (pending k waiting || held id k s.turns) ≡ true)
          begun.0.files.inbox.rows
          (All-map_to _ _ (λ r h i. absurd (cc (h, i))) begun.0.files.inbox.rows (outcome-none e))
          (other-kept s.turns (λ id k n. refl)));
    owned = All-map_to _ _ (λ t a. closed (λ x. Owned x t) (Each-Closed _) a) s.turns v.owned;
    below = below-old;
  }
  begun-Inv (some r) e = record {
    valid = closed IsValid IsValid-Closed v.valid;
    answered = rw (begin_batch-timers d now key (with_timers s.store waiting)) (
        answered-by key (λ id k. (pending k waiting || held id k (r ∷ s.turns)) ≡ true)
          begun.0.files.inbox.rows
          (All-map_to _ _ (λ q h i. own q.id (h i)) begun.0.files.inbox.rows (outcome-some r e).1)
          (other-kept (r ∷ s.turns) (λ id k n. rw ((outcome-some r e).0, n) refl)));
    owned = (
      closed (λ x. Owned x r) (Each-Closed _)
          (rw ((outcome-some r e).0, (outcome-some r e).2) (claim_ids-Each db key v.valid)),
      All-map_to _ _ (λ t a. closed (λ x. Owned x t) (Each-Closed _) a) s.turns v.owned,
    );
    below = (rw same-id (rw (outcome-some r e).2 (claim_ids-lt db key v.valid)), below-old);
  }
    where
      own :
          (id : ℕ)
          → includes id r.ids ≡ true
          → (pending key waiting || held id key (r ∷ s.turns)) ≡ true
      own id h = rw ((outcome-some r e).0, ==_refl key, h) (ground arith)

pub start-Inv : (d : Deps) (s : System) (now : ℕ) (key : Text) → Inv s → Inv (start_job d s now key)
unfolding start_job
start-Inv d s now key v = elim (Bool-cases (any (λ k. k == key) s.store.timers.queued)) [
  | inl e ↦ rw e (begun-Inv d s now key v (begun d s now key v).1 refl)
  | inr e ↦ rw e v
]
