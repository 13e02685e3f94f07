-- ===== src/RateLimit/Hour.antt =====
-- The sliding hour of one phone.
use mathlib.Core.List.{append-nil}
use shopify_vitrina.Base.{
  ℕ, ◌+◌, ◌≤◌, ◌<◌, ◌≡◌, refl, sym, ap, true, List, [], ◌∷◌, ◌++◌, ltb, leb, if◌then◌else◌, length,
  length-append, Text, ◌==◌, ==→eq, lookup, insert, lookup-insert, select, length-select-le,
  select-append, select-select, arith, Bool-cases, inl, inr, ltb→lt,
}
use shopify_vitrina.RateLimit.{
  RateLimiter, RateLimiterOptions, init, check, roll_day, admit, recent, within_hour, or_empty,
  same_day, day_of,
}
use shopify_vitrina.RateLimit.History.{Turn, in_hour, add_if_ok, run, Ordered, latest}

abbrev pub entries : RateLimiter → Text → List ℕ
entries r p = or_empty (lookup p r.per_phone)

abbrev pub times : Text → List Turn → List ℕ
times p [] = []
times p ((q, t) ∷ ts) = let rest = times p ts in if q == p then t ∷ rest else rest

abbrev times_of : Text → Text → ℕ → List ℕ
times_of p q t = if q == p then t ∷ [] else []

times-snoc :
    (p q : Text) (t : ℕ) (ts : List Turn)
    → times p (ts ++ (q, t) ∷ []) ≡ times p ts ++ times_of p q t
times-snoc p q t [] = ground arith
times-snoc p q t ((q', t') ∷ ts) = ground (arith, times-snoc p q t ts)

pub in_hour-le :
    (p : Text) (w : ℕ) (ts : List Turn)
    → length (in_hour p w ts) ≤ length (select (within_hour w) (times p ts))
in_hour-le p w [] = omega arith
in_hour-le p w ((q, t) ∷ ts) = ground (arith, in_hour-le p w ts)

in_hour_later :
    (p q : Text) (w t : ℕ) (ts : List Turn)
    → w < t
    → in_hour p w (ts ++ (q, t) ∷ []) ≡ in_hour p w ts
in_hour_later p q w t [] h = ground arith
in_hour_later p q w t (u ∷ ts) h = ground (arith, in_hour_later p q w t ts h)

-- What the limiter remembers of a phone is enough to count any later hour.
pub record Inv (limit last : ℕ) (r : RateLimiter) (done : List Turn) : Type 0 where
  pub limited : r.options.per_phone_per_hour ≡ limit
  pub bounded : (p : Text) → length (entries r p) ≤ limit
  pub kept :
      (p : Text) (w : ℕ)
      → last ≤ w
      → select (within_hour w) (entries r p) ≡ select (within_hour w) (times p done)
  pub capped : (p : Text) (w : ℕ) → length (in_hour p w done) ≤ limit

within_later : (now w t : ℕ) → now ≤ w → within_hour w t ≡ true → within_hour now t ≡ true
within_later now w t h e = ground arith

recent-select :
    (r : RateLimiter) (p : Text) (now w : ℕ)
    → now ≤ w
    → select (within_hour w) (recent r p now) ≡ select (within_hour w) (entries r p)
unfolding recent
recent-select r p now w h =
    select-select (within_hour w) (within_hour now) (entries r p) (λ t. within_later now w t h)

recent-le : (r : RateLimiter) (p : Text) (now : ℕ) → length (recent r p now) ≤ length (entries r p)
unfolding recent
recent-le r p now = length-select-le (within_hour now) (entries r p)

-- The rest follows from the first two fields at the new time, and the third at the old one.
capped-later :
    (limit : ℕ) (r : RateLimiter) (done : List Turn) (p : Text) (w : ℕ)
    → length (entries r p) ≤ limit
    → select (within_hour w) (entries r p) ≡ select (within_hour w) (times p done)
    → length (in_hour p w done) ≤ limit
capped-later limit r done p w b k =
    omega (arith, in_hour-le p w done, ap length k, length-select-le (within_hour w) (entries r p))

module _ (limit last now : ℕ) (r : RateLimiter) (q : Text) (done : List Turn)
    (inv : Inv limit last r done) (h : last ≤ now) where
  -- The limiter after a call that admits, and after one that refuses.
  admitted : ℕ → RateLimiter
  admitted n = record r {
    per_phone = insert q (recent r q now ++ now ∷ []) r.per_phone;
    day_count = n;
  }

  refused : RateLimiter
  refused = record r { per_phone = insert q (recent r q now) r.per_phone }

  entries-admitted :
      (n : ℕ) (p : Text)
      → entries (admitted n) p ≡ (if q == p then recent r q now ++ now ∷ [] else entries r p)
  unfolding admitted
  entries-admitted n p = ground (arith, lookup-insert q p (recent r q now ++ now ∷ []) r.per_phone)

  entries-refused :
      (p : Text) → entries refused p ≡ (if q == p then recent r q now else entries r p)
  unfolding refused
  entries-refused p = ground (arith, lookup-insert q p (recent r q now) r.per_phone)

  kept-refused :
      (p : Text) (w : ℕ)
      → now ≤ w
      → select (within_hour w) (entries refused p) ≡ select (within_hour w) (times p done)
  kept-refused p w k = rw (entries-refused p) (elim (Bool-cases (q == p)) [
    | inl e ↦ rw (e, recent-select r q now w k, ==→eq q p e) (inv.kept p w (omega arith))
    | inr e ↦ rw e (inv.kept p w (omega arith))
  ])

  kept-admitted :
      (n : ℕ) (p : Text) (w : ℕ)
      → now ≤ w
      → select (within_hour w) (entries (admitted n) p)
        ≡ select (within_hour w) (times p (done ++ (q, now) ∷ []))
  kept-admitted n p w k =
      rw
        (
          entries-admitted n p,
          times-snoc p q now done,
          select-append (within_hour w) (times p done) (times_of p q now),
        )
        (elim (Bool-cases (q == p)) [
          | inl e ↦
              rw
                (
                  e,
                  select-append (within_hour w) (recent r q now) (now ∷ []),
                  recent-select r q now w k,
                  ==→eq q p e,
                  inv.kept p w (omega arith),
                )
                refl
          | inr e ↦ rw (e, inv.kept p w (omega arith)) (sym (append-nil _))
        ])

  -- With room left, the turn is recorded and the bounds hold at its time.
  admitted-Inv :
      (n : ℕ) → length (recent r q now) < limit → Inv limit now (admitted n) (done ++ (q, now) ∷ [])
  unfolding admitted
  admitted-Inv n room = record {
    limited = inv.limited;
    bounded = bound;
    kept = kept-admitted n;
    capped = λ p w. elim (Bool-cases (ltb w now)) [
      | inl e ↦ rw (in_hour_later p q w now done (ltb→lt w now e)) (inv.capped p w)
      | inr e ↦ capped-later limit (admitted n) _ p w (bound p) (kept-admitted n p w (ground arith))
    ];
  }
    where
      bound : (p : Text) → length (entries (admitted n) p) ≤ limit
      bound p =
          rw (entries-admitted n p)
            (ground (arith, length-append (recent r q now) (now ∷ []), inv.bounded p))

  refused-Inv : Inv limit now refused done
  unfolding refused
  refused-Inv = record {
    limited = inv.limited;
    bounded =
        λ p. rw (entries-refused p) (ground (arith, recent-le r q now, inv.bounded p, ==→eq q p));
    kept = kept-refused;
    capped = inv.capped;
  }

  later-Inv : Inv limit now r done
  later-Inv = record {
    limited = inv.limited;
    bounded = inv.bounded;
    kept = λ p w k. inv.kept p w (omega arith);
    capped = inv.capped;
  }

roll_day-Inv :
    (limit last now : ℕ) (r : RateLimiter) (done : List Turn)
    → Inv limit last r done
    → Inv limit last (roll_day r now) done
unfolding roll_day
roll_day-Inv limit last now r done inv = elim (Bool-cases (same_day (day_of now) r.day_key)) [
  | inl e ↦ rw e inv
  | inr e ↦ rw e (record {
    limited = inv.limited;
    bounded = inv.bounded;
    kept = inv.kept;
    capped = inv.capped;
  })
]

admit-Inv :
    (limit last now : ℕ) (r : RateLimiter) (q : Text) (done : List Turn)
    → Inv limit last r done
    → last ≤ now
    → Inv limit now (admit r q now).0 (add_if_ok (admit r q now).1 (q, now) done)
unfolding admit refused admitted
admit-Inv limit last now r q done inv h =
    elim (Bool-cases (leb r.options.global_per_day r.day_count)) [
      | inl e ↦ rw e (later-Inv limit last now r q done inv h)
      | inr e ↦
          rw e (elim (Bool-cases (leb r.options.per_phone_per_hour (length (recent r q now)))) [
            | inl f ↦ rw f (refused-Inv limit last now r q done inv h)
            | inr f ↦
                rw f (admitted-Inv limit last now r q done inv h (r.day_count + 1) (ground arith))
          ])
    ]

check-Inv :
    (limit last now : ℕ) (r : RateLimiter) (q : Text) (done : List Turn)
    → Inv limit last r done
    → last ≤ now
    → Inv limit now (check r q now).0 (add_if_ok (check r q now).1 (q, now) done)
unfolding check
check-Inv limit last now r q done inv h =
    admit-Inv limit last now (roll_day r now) q done (roll_day-Inv limit last now r done inv) h

pub run-Inv :
    (limit last : ℕ) (r : RateLimiter) (done calls : List Turn)
    → Inv limit last r done
    → Ordered last calls
    → Inv limit (latest last calls) (run r done calls).0 (run r done calls).1
unfolding run
run-Inv limit last r done [] inv h = inv
run-Inv limit last r done ((q, now) ∷ calls) inv h =
    run-Inv limit now _ _ calls (check-Inv limit last now r q done inv h.0) h.1

pub init-Inv : (o : RateLimiterOptions) → Inv o.per_phone_per_hour 0 (init o) []
unfolding init lookup
init-Inv o = record {
  limited = refl;
  bounded = λ q. ground arith;
  kept = λ q v k. ground arith;
  capped = λ q v. omega arith;
}

-- Whatever calls are made of a new limiter, as long as the clock does not run backwards, no phone
-- is let through more often than `perPhonePerHour` in the hour that ends at any time at all.
pub in_hour-run :
    (o : RateLimiterOptions) (calls : List Turn) (p : Text) (w : ℕ)
    → Ordered 0 calls
    → length (in_hour p w (run (init o) [] calls).1) ≤ o.per_phone_per_hour
in_hour-run o calls p w h = (run-Inv _ 0 (init o) [] calls (init-Inv o) h).capped p w
