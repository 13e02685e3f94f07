-- ===== src/RateLimit/History.antt =====
-- A history of calls of `check`, and what it admitted, counted from the calls alone.
use shopify_vitrina.Base.{ℕ, ◌≤◌, List, [], ◌∷◌, ◌++◌, leb, eqb, Text, ◌==◌, select, ◌&&◌}
use shopify_vitrina.RateLimit.{
  RateLimiter, RateDecision, ok, phone_limited, global_limited, check, within_hour, day_of,
}

-- A turn: the phone and the time.
abbrev pub Turn : Type 0
Turn = Text × ℕ

-- The turns of a phone in the hour that ends at `now`, and those of a day.
abbrev pub in_hour : Text → ℕ → List Turn → List Turn
in_hour p now = select (λ t. (t.0 == p) && (within_hour now t.1 && leb t.1 now))

abbrev pub in_day : ℕ → List Turn → List Turn
in_day d = select (λ t. eqb (day_of t.1) d)

abbrev pub add_if_ok : RateDecision → Turn → List Turn → List Turn
add_if_ok ok t ts = ts ++ t ∷ []
add_if_ok phone_limited t ts = ts
add_if_ok global_limited t ts = ts

-- The calls of `check` in order: the limiter after them, and the turns that were admitted.
unfoldable pub run : RateLimiter → List Turn → List Turn → RateLimiter × List Turn
run r done [] = (r, done)
run r done ((p, now) ∷ calls) =
    run (check r p now).0 (add_if_ok (check r p now).1 (p, now) done) calls

-- The clock does not run backwards.
abbrev pub Ordered : ℕ → List Turn → Type 0
Ordered last [] = Unit
Ordered last ((p, now) ∷ calls) = (last ≤ now) × Ordered now calls

-- The time of the last call.
abbrev pub latest : ℕ → List Turn → ℕ
latest last [] = last
latest last ((p, now) ∷ calls) = latest now calls
