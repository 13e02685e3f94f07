-- ===== src/RateLimit/Day.antt =====
-- The global cap of one day.
use shopify_vitrina.Base.{
  ℕ, ◌+◌, ◌≤◌, ◌<◌, ◌≡◌, refl, false, none, some, List, [], ◌∷◌, ◌++◌, leb, eqb, if◌then◌else◌,
  length, All, All-append, All-map_to, Text, arith, Bool-cases, inl, inr, ◌⊎◌,
}
use shopify_vitrina.RateLimit.{
  RateLimiter, RateLimiterOptions, init, check, roll_day, admit, recent, day_of,
}
use shopify_vitrina.RateLimit.History.{Turn, in_day, add_if_ok, run, Ordered, latest}

day_of_mono : (s t : ℕ) → s ≤ t → day_of s ≤ day_of t
day_of_mono s t h = omega arith

-- No turn of a day later than all of them.
in_day_later :
    (last d : ℕ) (ts : List Turn) → All (λ t. t.1 ≤ last) ts → day_of last < d → in_day d ts ≡ []
in_day_later last d [] a h = refl
in_day_later last d (t ∷ ts) a h =
    ground (arith, day_of_mono t.1 last, in_day_later last d ts a.1 h)

in_day-snoc :
    (d now : ℕ) (p : Text) (ts : List Turn)
    → length (in_day d (ts ++ (p, now) ∷ []))
      ≡ length (in_day d ts) + (if eqb (day_of now) d then 1 else 0)
in_day-snoc d now p [] = ground arith
in_day-snoc d now p (t ∷ ts) = ground (arith, in_day-snoc d now p ts)

pub record Inv (limit last : ℕ) (r : RateLimiter) (done : List Turn) : Type 0 where
  pub limited : r.options.global_per_day ≡ limit
  pub not_late : All (λ t. t.1 ≤ last) done
  pub capped : (d : ℕ) → length (in_day d done) ≤ limit
  pub counted :
      ((done ≡ []) × (r.day_key ≡ none) × (r.day_count ≡ 0))
      ⊎ ((r.day_key ≡ some (day_of last)) × (length (in_day (day_of last) done) ≡ r.day_count))

-- After the first lines of `check` the count is that of the day of the call.
pub record Rolled (limit now : ℕ) (r : RateLimiter) (done : List Turn) : Type 0 where
  pub limited : r.options.global_per_day ≡ limit
  pub not_late : All (λ t. t.1 ≤ now) done
  pub capped : (d : ℕ) → length (in_day d done) ≤ limit
  pub key : r.day_key ≡ some (day_of now)
  pub counted : length (in_day (day_of now) done) ≡ r.day_count

roll_day-key : (now : ℕ) (r : RateLimiter) → (roll_day r now).day_key ≡ some (day_of now)
unfolding roll_day
roll_day-key now r = ground arith

roll_day-options : (now : ℕ) (r : RateLimiter) → (roll_day r now).options ≡ r.options
unfolding roll_day
roll_day-options now r = ground arith

pub roll_day-counted :
    (limit last now : ℕ) (r : RateLimiter) (done : List Turn)
    → Inv limit last r done
    → last ≤ now
    → length (in_day (day_of now) done) ≡ (roll_day r now).day_count
unfolding roll_day
roll_day-counted limit last now r done inv h = elim inv.counted [
  | inl (e, k, z) ↦ rw (e, k) (ground arith)
  | inr (k, c) ↦
      rw k
        (ground (arith, day_of_mono last now h, in_day_later last (day_of now) done inv.not_late))
]

pub roll_day-Rolled :
    (limit last now : ℕ) (r : RateLimiter) (done : List Turn)
    → Inv limit last r done
    → last ≤ now
    → Rolled limit now (roll_day r now) done
roll_day-Rolled limit last now r done inv h = record {
  limited = rw (roll_day-options now r) inv.limited;
  not_late = All-map_to _ _ (λ t k. omega arith) done inv.not_late;
  capped = inv.capped;
  key = roll_day-key now r;
  counted = roll_day-counted limit last now r done inv h;
}

Rolled-Inv :
    (limit now : ℕ) (r : RateLimiter) (done : List Turn)
    → Rolled limit now r done
    → Inv limit now r done
Rolled-Inv limit now r done x = record {
  limited = x.limited;
  not_late = x.not_late;
  capped = x.capped;
  counted = inr (x.key, x.counted);
}

admit-Inv :
    (limit now : ℕ) (r : RateLimiter) (p : Text) (done : List Turn)
    → Rolled limit now r done
    → Inv limit now (admit r p now).0 (add_if_ok (admit r p now).1 (p, now) done)
unfolding admit
admit-Inv limit now r p done x = elim (Bool-cases (leb r.options.global_per_day r.day_count)) [
  | inl e ↦ rw e (Rolled-Inv limit now r done x)
  | inr e ↦ rw e (elim (Bool-cases (leb r.options.per_phone_per_hour (length (recent r p now)))) [
    | inl f ↦ rw f (record {
      limited = x.limited;
      not_late = x.not_late;
      capped = x.capped;
      counted = inr (x.key, x.counted);
    })
    | inr f ↦ rw f (record {
      limited = x.limited;
      not_late = All-append _ done ((p, now) ∷ []) x.not_late (omega arith);
      capped = λ d. omega (arith, room d e);
      counted = inr (x.key, ground (arith, in_day-snoc (day_of now) now p done, x.counted));
    })
  ])
]
  where
    room :
        (d : ℕ)
        → leb r.options.global_per_day r.day_count ≡ false
        → length (in_day d (done ++ (p, now) ∷ [])) ≤ limit
    room d e = ground (arith, in_day-snoc d now p done, x.counted, x.capped d, x.limited)

check-Inv :
    (limit last now : ℕ) (r : RateLimiter) (p : Text) (done : List Turn)
    → Inv limit last r done
    → last ≤ now
    → Inv limit now (check r p now).0 (add_if_ok (check r p now).1 (p, now) done)
unfolding check
check-Inv limit last now r p done inv h =
    admit-Inv limit now _ p done (roll_day-Rolled limit last now r done inv h)

pub run-Inv :
    (limit last : ℕ) (r : RateLimiter) (done calls : List Turn)
    → Inv limit last r done
    → Ordered last calls
    → Inv limit (latest last calls) (run r done calls).0 (run r done calls).1
unfolding run
run-Inv limit last r done [] inv h = inv
run-Inv limit last r done ((q, now) ∷ calls) inv h =
    run-Inv limit now _ _ calls (check-Inv limit last now r q done inv h.0) h.1

pub init-Inv : (o : RateLimiterOptions) → Inv o.global_per_day 0 (init o) []
unfolding init
init-Inv o = record {
  limited = refl;
  not_late = tt;
  capped = λ q. omega arith;
  counted = inl (refl, refl, refl);
}

-- Whatever calls are made of a new limiter, as long as the clock does not run backwards, no more
-- than `globalPerDay` turns are let through on any one day, over all phones.
pub in_day-run :
    (o : RateLimiterOptions) (calls : List Turn) (d : ℕ)
    → Ordered 0 calls
    → length (in_day d (run (init o) [] calls).1) ≤ o.global_per_day
in_day-run o calls d h = (run-Inv _ 0 (init o) [] calls (init-Inv o) h).capped d
