-- ===== src/Replies/Past.antt =====
-- The calls on the waiting callers, and what they leave of one whose wait is over.
use shopify_vitrina.Turn.{truthy}
use mathlib.Core.Option.{some-injective}
use shopify_vitrina.Base.{
  ℕ, ◌<◌, ◌≡◌, ◌≢◌, inl, inr, refl, ◌∙◌, Bool, false, ◌&&◌, Option, none, some, List, [], ◌∷◌,
  if◌then◌else◌, eqb, Text, ◌==◌, ==_refl, lookup, remove, lookup-remove, arith, Bool-cases,
  Option-cases, ◌⊎◌, ap, eqb→eq, insert, lookup-insert, true,
}
use shopify_vitrina.Replies.{
  Verdict, replied, timed_out, turn_failed, Callback, AgentReplies, ReplyRoute, verdict, settle,
  register, release, time_out, deliver, fail, settle_waiter, post_callback,
}

pub data Call : Type 0 where
  register_call : Text → Call
  release_call : Text → ℕ → Call
  time_out_call : Text → Call
  deliver_call : ReplyRoute → Text → Call
  fail_call : Text → Call

abbrev pub registered : AgentReplies → Option (AgentReplies × ℕ) → AgentReplies
registered r none = r
registered r (some (r', p)) = r'

unfoldable pub step : Option (Callback → Bool) → AgentReplies → Call → AgentReplies
step fetch r (register_call key) = registered r (register r key)
step fetch r (release_call key p) = release r key p
step fetch r (time_out_call key) = time_out r key
step fetch r (deliver_call route reply) = (deliver fetch r route reply).0
step fetch r (fail_call key) = fail r key

unfoldable pub run : Option (Callback → Bool) → AgentReplies → List Call → AgentReplies
run fetch r [] = r
run fetch r (c ∷ cs) = run fetch (step fetch r c) cs

-- What the calls after its registration make of promise `p` on `key`: the first that ends the wait.
unfoldable pub first_verdict : Text → ℕ → List Call → Option Verdict
first_verdict key p [] = none
first_verdict key p (register_call k ∷ cs) = first_verdict key p cs
first_verdict key p (release_call k q ∷ cs) =
    let later = first_verdict key p cs in if (k == key) && eqb p q then none else later
first_verdict key p (time_out_call k ∷ cs) =
    let later = first_verdict key p cs in if k == key then some timed_out else later
first_verdict key p (deliver_call route reply ∷ cs) =
    let later = first_verdict key p cs in
    if route.conversation_key == key then some (replied reply) else later
first_verdict key p (fail_call k ∷ cs) =
    let later = first_verdict key p cs in if k == key then some turn_failed else later

pub verdict-settle :
    (p q : ℕ) (v : Verdict) (es : List (ℕ × Verdict))
    → eqb p q ≡ false
    → verdict q (settle p v es) ≡ verdict q es
unfolding settle verdict
verdict-settle p q v es h = elim (Option-cases (verdict p es)) [
  | inl e ↦ rw (e, settle) (ground (arith, h))
  | inr (w, e) ↦ rw (e, settle) refl
]

pub verdict-own :
    (p : ℕ) (v : Verdict) (es : List (ℕ × Verdict))
    → verdict p es ≡ none
    → verdict p (settle p v es) ≡ some v
unfolding settle verdict
verdict-own p v es h = rw (h, settle) (ground arith)

-- The promise waits under its key and under no other.
pub record Parked (p : ℕ) (key : Text) (r : AgentReplies) : Type 0 where
  pub own : lookup key r.waiters ≡ some p
  pub only : (k : Text) → lookup k r.waiters ≡ some p → k ≡ key
  pub below : p < r.next
  pub open_yet : verdict p r.settled ≡ none

-- It waits no more.
pub record Gone (p : ℕ) (r : AgentReplies) : Type 0 where
  pub nowhere : (k : Text) → lookup k r.waiters ≢ some p
  pub below : p < r.next

-- What a call leaves of a promise that is gone: the same verdict.
abbrev pub Past : ℕ → Option Verdict → AgentReplies → Type 0
Past p v r = Gone p r × (verdict p r.settled ≡ v)

-- The removal of a key.
module _ (p : ℕ) (k : Text) (r : AgentReplies) where
  pub removed-nowhere :
      ((k' : Text) → lookup k' r.waiters ≢ some p)
      → (k' : Text) → lookup k' (remove k r.waiters) ≢ some p
  removed-nowhere h k' e = elim (Bool-cases (k == k')) [
    | inl b ↦ absurd (cc (rw (lookup-remove k k' r.waiters, b) at e))
    | inr b ↦ h k' (rw (lookup-remove k k' r.waiters, b) at e)
  ]

  pub own-nowhere :
      ((k' : Text) → lookup k' r.waiters ≡ some p → k' ≡ k)
      → (k' : Text) → lookup k' (remove k r.waiters) ≢ some p
  own-nowhere h k' e = elim (Bool-cases (k == k')) [
    | inl b ↦ absurd (cc (rw (lookup-remove k k' r.waiters, b) at e))
    | inr b ↦ absurd (cc (==_refl k, rw (h k' (rw (lookup-remove k k' r.waiters, b) at e)) at b))
  ]

  pub removed-only :
      (key : Text)
      → ((k' : Text) → lookup k' r.waiters ≡ some p → k' ≡ key)
      → (k' : Text) → lookup k' (remove k r.waiters) ≡ some p
      → k' ≡ key
  removed-only key h k' e = elim (Bool-cases (k == k')) [
    | inl b ↦ absurd (cc (rw (lookup-remove k k' r.waiters, b) at e))
    | inr b ↦ h k' (rw (lookup-remove k k' r.waiters, b) at e)
  ]

  pub removed-own :
      (key : Text)
      → (k == key) ≡ false
      → lookup key r.waiters ≡ some p
      → lookup key (remove k r.waiters) ≡ some p
  removed-own key b e = lookup-remove k key r.waiters ∙ rw b e

module _ (p : ℕ) where
  pub other :
      (r : AgentReplies) (k : Text) (q : ℕ)
      → lookup k r.waiters ≡ some q
      → (lookup k r.waiters ≢ some p)
      → eqb q p ≡ false
  other r k q e h = elim (Bool-cases (eqb q p)) [
    | inl b ↦ absurd (h (e ∙ ap some (eqb→eq q p b)))
    | inr b ↦ b
  ]

  pub settle-Past :
      (v : Option Verdict) (r : AgentReplies) (k : Text) (q : ℕ) (w : Verdict)
      → lookup k r.waiters ≡ some q
      → Past p v r
      → Past p v (settle_waiter r k q w)
  unfolding settle_waiter
  settle-Past v r k q w e (g, h) = (
    record { nowhere = removed-nowhere p k r g.nowhere; below = g.below },
    verdict-settle q p w r.settled (other r k q e (g.nowhere k)) ∙ h,
  )

  pub register-Past :
      (v : Option Verdict) (r : AgentReplies) (k : Text)
      → Past p v r
      → Past p v (registered r (register r k))
  unfolding register
  register-Past v r k (g, h) = elim (Option-cases (lookup k r.waiters)) [
    | inl e ↦
        rw (e, register)
          (
            record {
              nowhere = λ k' e'. fresh k' (Bool-cases (k == k')) e';
              below = omega (arith, g.below);
            },
            h,
          )
    | inr (q, e) ↦ rw (e, register) (g, h)
  ]
    where
      fresh :
          (k' : Text)
          → ((k == k') ≡ true) ⊎ ((k == k') ≡ false)
          → lookup k' (insert k r.next r.waiters) ≢ some p
      fresh k' (inl b) e = absurd (
          omega
            (arith, g.below, some-injective _ _ (rw (lookup-insert k k' r.next r.waiters, b) at e)))
      fresh k' (inr b) e = g.nowhere k' (rw (lookup-insert k k' r.next r.waiters, b) at e)

  pub release-Past :
      (v : Option Verdict) (r : AgentReplies) (k : Text) (q : ℕ)
      → Past p v r
      → Past p v (release r k q)
  unfolding release
  release-Past v r k q (g, h) = elim (Option-cases (lookup k r.waiters)) [
    | inl e ↦ rw (e, release) (g, h)
    | inr (c, e) ↦
        rw (e, release)
          (elim (Bool-cases (eqb c q)) [
            | inl b ↦
                rw b (record { nowhere = removed-nowhere p k r g.nowhere; below = g.below }, h)
            | inr b ↦ rw b (g, h)
          ])
  ]

  pub time_out-Past :
      (v : Option Verdict) (r : AgentReplies) (k : Text) → Past p v r → Past p v (time_out r k)
  unfolding time_out
  time_out-Past v r k g = elim (Option-cases (lookup k r.waiters)) [
    | inl e ↦ rw (e, time_out) g
    | inr (q, e) ↦ rw (e, time_out) (settle-Past v r k q timed_out e g)
  ]

  pub fail-Past :
      (v : Option Verdict) (r : AgentReplies) (k : Text) → Past p v r → Past p v (fail r k)
  unfolding fail
  fail-Past v r k g = elim (Option-cases (lookup k r.waiters)) [
    | inl e ↦ rw (e, fail) g
    | inr (q, e) ↦ rw (e, fail) (settle-Past v r k q turn_failed e g)
  ]

  pub deliver-Past :
      (fetch : Option (Callback → Bool)) (v : Option Verdict) (r : AgentReplies)
      (route : ReplyRoute) (reply : Text)
      → Past p v r
      → Past p v (deliver fetch r route reply).0
  unfolding deliver
  deliver-Past fetch v r route reply g =
      elim (Option-cases (lookup route.conversation_key r.waiters)) [
        | inl e ↦
            rw (e, deliver)
              (elim (Option-cases (truthy route.reply_to)) [
                | inl n ↦ rw (n, deliver) g
                | inr (url, n) ↦
                    rw (n, deliver)
                      (posted fetch (record {
                        url = url;
                        conversation_key = route.conversation_key;
                        reply = reply;
                      }))
              ])
        | inr (q, e) ↦
            rw (e, deliver) (settle-Past v r route.conversation_key q (replied reply) e g)
      ]
    where
      posted : (f : Option (Callback → Bool)) (c : Callback) → Past p v (post_callback f r c).0
      posted none c = unfold post_callback in g
      posted (some f) c =
          unfold post_callback in (record { nowhere = g.0.nowhere; below = g.0.below }, g.1)

  pub step-Past :
      (fetch : Option (Callback → Bool)) (v : Option Verdict) (r : AgentReplies) (c : Call)
      → Past p v r
      → Past p v (step fetch r c)
  unfolding step
  step-Past fetch v r (register_call k) g = register-Past v r k g
  step-Past fetch v r (release_call k q) g = release-Past v r k q g
  step-Past fetch v r (time_out_call k) g = time_out-Past v r k g
  step-Past fetch v r (deliver_call route reply) g = deliver-Past fetch v r route reply g
  step-Past fetch v r (fail_call k) g = fail-Past v r k g

  pub run-Past :
      (fetch : Option (Callback → Bool)) (v : Option Verdict) (r : AgentReplies) (cs : List Call)
      → Past p v r
      → verdict p (run fetch r cs).settled ≡ v
  unfolding run
  run-Past fetch v r [] g = g.1
  run-Past fetch v r (c ∷ cs) g = run-Past fetch v (step fetch r c) cs (step-Past fetch v r c g)
