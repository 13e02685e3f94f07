-- ===== src/RateLimit/Notice.antt =====
-- The "slow down" notice.
use shopify_vitrina.Base.{
  ℕ, ◌+◌, ◌≤◌, ◌≡◌, refl, Bool, true, false, some, List, [], ◌∷◌, Text, ◌==◌, ==→eq, lookup,
  lookup-insert, arith, if◌then◌else◌, head?, Bool-cases, inl, inr,
}
use shopify_vitrina.RateLimit.{RateLimiter, RateLimiterOptions, init, should_notify, hour_ms}
use shopify_vitrina.RateLimit.History.{Turn}
use shopify_vitrina.RateLimit.Hour.{times}

abbrev add_if : Bool → Turn → List Turn → List Turn
add_if true t ts = t ∷ ts
add_if false t ts = ts

-- The calls of `shouldNotify` in order, with the notices that it allowed, the latest first.
pub run : RateLimiter → List Turn → List Turn → RateLimiter × List Turn
run r sent [] = (r, sent)
run r sent ((p, now) ∷ calls) =
    run (should_notify r p now).0 (add_if (should_notify r p now).1 (p, now) sent) calls

-- Times, the latest first, an hour or more apart.
abbrev pub Spaced : List ℕ → Type 0
Spaced [] = Unit
Spaced (t ∷ []) = Unit
Spaced (t ∷ s ∷ ts) = (s + hour_ms ≤ t) × Spaced (s ∷ ts)

record Inv (r : RateLimiter) (sent : List Turn) : Type 0 where
  remembered : (p : Text) → lookup p r.notice_sent_at ≡ head? (times p sent)
  spaced : (p : Text) → Spaced (times p sent)

Spaced-cons :
    (t : ℕ) (ts : List ℕ)
    → ((s : ℕ) → head? ts ≡ some s → s + hour_ms ≤ t)
    → Spaced ts
    → Spaced (t ∷ ts)
Spaced-cons t [] h k = tt
Spaced-cons t (s ∷ ts) h k = (h s refl, k)

should_notify-spaced :
    (r : RateLimiter) (p : Text) (now s : ℕ)
    → (should_notify r p now).1 ≡ true
    → lookup p r.notice_sent_at ≡ some s
    → s + hour_ms ≤ now
unfolding should_notify
should_notify-spaced r p now s h e = ground arith

should_notify-lookup :
    (r : RateLimiter) (p q : Text) (now : ℕ)
    → (should_notify r p now).1 ≡ true
    → lookup q (should_notify r p now).0.notice_sent_at
      ≡ (if p == q then some now else lookup q r.notice_sent_at)
unfolding should_notify
should_notify-lookup r p q now h = ground (arith, lookup-insert p q now r.notice_sent_at)

should_notify-refused :
    (r : RateLimiter) (p : Text) (now : ℕ)
    → (should_notify r p now).1 ≡ false
    → (should_notify r p now).0 ≡ r
unfolding should_notify
should_notify-refused r p now h = ground arith

step-Inv :
    (r : RateLimiter) (p : Text) (now : ℕ) (sent : List Turn)
    → Inv r sent
    → Inv (should_notify r p now).0 (add_if (should_notify r p now).1 (p, now) sent)
step-Inv r p now sent inv = elim (Bool-cases (should_notify r p now).1) [
  | inr e ↦ rw (e, should_notify-refused r p now e) inv
  | inl e ↦ rw e (record {
    remembered = λ q. ground (arith, should_notify-lookup r p q now e, inv.remembered q);
    spaced = λ q. elim (Bool-cases (p == q)) [
      | inl same ↦ rw same (
          Spaced-cons now (times q sent)
            (λ s k.
              should_notify-spaced r p now s e (ground (arith, inv.remembered q, ==→eq p q same)))
            (inv.spaced q))
      | inr other ↦ rw other (inv.spaced q)
    ];
  })
]

run-Inv :
    (r : RateLimiter) (sent calls : List Turn)
    → Inv r sent
    → Inv (run r sent calls).0 (run r sent calls).1
unfolding run
run-Inv r sent [] inv = inv
run-Inv r sent ((p, now) ∷ calls) inv =
    run-Inv (should_notify r p now).0 _ calls (step-Inv r p now sent inv)

-- Whatever calls of `shouldNotify` follow on a new limiter, in whatever order and at whatever times,
-- two notices that it allows in a row for one phone are an hour or more apart.
pub run-Spaced :
    (o : RateLimiterOptions) (calls : List Turn) (p : Text)
    → Spaced (times p (run (init o) [] calls).1)
unfolding init lookup
run-Spaced o calls p =
    (run-Inv (init o) [] calls (record { remembered = λ q. refl; spaced = λ q. tt })).spaced p
