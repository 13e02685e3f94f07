-- ===== src/System/Kept.antt =====
-- Who answers for a row that is not settled.
use shopify_vitrina.Base.{
  ℕ, ◌+◌, ◌<◌, ◌≡◌, refl, Bool, true, false, ◌&&◌, ◌||◌, Option, none, some, List, [], ◌∷◌, any,
  All, Text, ◌==◌, ==→eq, lookup, lookup-insert, lookup-remove, arith, Option-cases, inl, inr,
}
use shopify_vitrina.Inbox.Rows.{MessageKind}
use shopify_vitrina.Inbox.Ids.{includes}
use shopify_vitrina.Inbox.Valid.{IsValid}
use shopify_vitrina.Batcher.Timers.{
  Windows, Timers, schedule, deliver_now, flush, arm_retry, fire_retry, retry_delay_ms,
}
use shopify_vitrina.Batcher.Timers.Replay.{
  remembered, remembered-schedule, remembered-deliver_now, any-snoc,
}
use shopify_vitrina.Batcher.Process.{Running}
use shopify_vitrina.Batcher.Process.Declines.{Unsettled, Each}
use shopify_vitrina.System.{System, drop_first}

abbrev is_due : Option ℕ → Bool
is_due none = false
is_due (some at) = true

-- A burst, a place in the queue or a retry of the conversation.
unfoldable pub pending : Text → Timers → Bool
pending key t = remembered key t || is_due (lookup key t.retries)

-- A turn of the conversation that has the row.
abbrev pub held : ℕ → Text → List Running → Bool
held id key ts = any (λ t. t.key == key && includes id t.ids) ts

abbrev pub kept : System → ℕ → Text → Bool
kept s id key = pending key s.store.timers || held id key s.turns

pub record Inv (s : System) : Type 0 where
  pub valid : IsValid s.store.files.inbox
  pub answered : Unsettled (λ id key. kept s id key ≡ true) s.store.files.inbox
  pub owned :
      All (λ t. Each (λ id key. includes id t.ids ≡ true → key ≡ t.key) s.store.files.inbox) s.turns
  pub below : All (λ t. (i : ℕ) → includes i t.ids ≡ true → i < s.store.files.inbox.next_id) s.turns

pub pending-schedule :
    (w : Windows) (key k : Text) (kind : MessageKind) (now : ℕ) (t : Timers)
    → pending key (schedule w t k kind now) ≡ (k == key || pending key t)
unfolding pending
pending-schedule w key k kind now t =
    rw (remembered-schedule w key k kind now t) (unfold schedule in ground arith)

pub pending-deliver_now :
    (key k : Text) (t : Timers) → pending key (deliver_now t k) ≡ (k == key || pending key t)
unfolding pending
pending-deliver_now key k t =
    rw (remembered-deliver_now key k t) (unfold deliver_now in ground arith)

pub pending-flush :
    (key phone : Text) (t : Timers) → pending key t ≡ true → pending key (flush t phone) ≡ true
unfolding pending flush
pending-flush key phone t h = elim (Option-cases (lookup phone t.bursts)) [
  | inl e ↦ rw (e, flush) h
  | inr (b, e) ↦
      rw (e, flush, lookup-remove phone key t.bursts, any-snoc key phone t.queued)
        (ground (arith, h, ==→eq phone key))
]

pub pending-arm_retry :
    (key k : Text) (now : ℕ) (t : Timers)
    → pending key (arm_retry t k now) ≡ (k == key || pending key t)
unfolding pending arm_retry
pending-arm_retry key k now t = elim (Option-cases (lookup k t.retries)) [
  | inl e ↦ rw (e, arm_retry, lookup-insert k key (now + retry_delay_ms) t.retries) (ground arith)
  | inr (due, e) ↦ rw (e, arm_retry) (ground (arith, e, ==→eq k key))
]

pub pending-fire_retry :
    (key k : Text) (t : Timers) → pending key t ≡ true → pending key (fire_retry t k) ≡ true
unfolding pending fire_retry deliver_now
pending-fire_retry key k t h = elim (Option-cases (lookup k t.bursts)) [
  | inl e ↦
      rw (e, fire_retry, lookup-remove k key t.retries, any-snoc key k t.queued)
        (ground (arith, h, ==→eq k key))
  | inr (b, e) ↦
      rw (e, fire_retry, lookup-remove k key t.retries) (ground (arith, h, e, ==→eq k key))
]

drop_first-other :
    (key k : Text) (qs : List Text)
    → (k == key) ≡ false
    → any (λ q. q == key) (drop_first (λ q. q == k) qs) ≡ any (λ q. q == key) qs
unfolding drop_first
drop_first-other key k [] h = refl
drop_first-other key k (q ∷ qs) h = ground (arith, drop_first-other key k qs h, ==→eq q k)

-- The start of a job takes away what was pending of its own conversation at most.
pub pending-start :
    (key k : Text) (t : Timers)
    → (k == key) ≡ false
    → pending key (record t { queued = drop_first (λ q. q == k) t.queued }) ≡ pending key t
unfolding pending
pending-start key k t h = rw (drop_first-other key k t.queued h) refl

pub pending-remembered : (key : Text) (t : Timers) → remembered key t ≡ true → pending key t ≡ true
unfolding pending
pending-remembered key t h = rw h refl
