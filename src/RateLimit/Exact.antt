-- ===== src/RateLimit/Exact.antt =====
-- A turn with room in both quotas is let through, and no other is.
use mathlib.Core.Logic.{◌↔◌}
use shopify_vitrina.Base.{
  ℕ, ◌≤◌, ◌<◌, ◌≡◌, refl, ap, ◌∙◌, sym, List, [], ◌∷◌, length, All, Text, select, arith,
}
use shopify_vitrina.RateLimit.{
  RateLimiter, RateLimiterOptions, ok, init, check, roll_day, admit, recent, within_hour, day_of,
}
use shopify_vitrina.RateLimit.History.{Turn, in_hour, in_day, run, Ordered, latest}
use shopify_vitrina.RateLimit.Hour
use shopify_vitrina.RateLimit.Hour.{times, entries}
use shopify_vitrina.RateLimit.Day

in_hour-length :
    (p : Text) (now : ℕ) (ts : List Turn)
    → All (λ t. t.1 ≤ now) ts
    → length (in_hour p now ts) ≡ length (select (within_hour now) (times p ts))
in_hour-length p now [] a = refl
in_hour-length p now (t ∷ ts) a = ground (arith, in_hour-length p now ts a.1)

admit-ok_iff :
    (r : RateLimiter) (p : Text) (now : ℕ)
    → ((admit r p now).1 ≡ ok) ↔ (
        (length (recent r p now) < r.options.per_phone_per_hour)
        × (r.day_count < r.options.global_per_day))
unfolding admit
admit-ok_iff r p now = (λ e. ground arith, λ h. ground arith)

roll_day-same :
    (r : RateLimiter) (p : Text) (now : ℕ)
    → ((roll_day r now).options ≡ r.options) × (recent (roll_day r now) p now ≡ recent r p now)
unfolding roll_day recent
roll_day-same r p now = ground arith

in_hour-recent :
    (limit last now : ℕ) (r : RateLimiter) (p : Text) (done : List Turn)
    → Hour.Inv limit last r done
    → All (λ t. t.1 ≤ now) done
    → last ≤ now
    → length (recent r p now) ≡ length (in_hour p now done)
unfolding recent
in_hour-recent limit last now r p done inv a h =
    ap length (inv.kept p now h) ∙ sym (in_hour-length p now done a)

-- After any calls of a new limiter whose clock does not run backwards, a call of `check` says "ok"
-- exactly when the phone has been let through fewer than `perPhonePerHour` times in the hour that
-- ends now, and all phones together fewer than `globalPerDay` times today.
pub check-ok_iff :
    (o : RateLimiterOptions) (calls : List Turn) (p : Text) (now : ℕ)
    → Ordered 0 calls
    → latest 0 calls ≤ now
    → let s = run (init o) [] calls in
      ((check s.0 p now).1 ≡ ok) ↔ (
        (length (in_hour p now s.1) < o.per_phone_per_hour)
        × (length (in_day (day_of now) s.1) < o.global_per_day))
unfolding check
check-ok_iff o calls p now h k = (
  λ e.
      let both = (admit-ok_iff (roll_day r now) p now).0 e in
      (
        omega (
          arith,
          both.0,
          counts,
          hour.limited,
          ap length kept.1,
          ap (λ (x : RateLimiterOptions). x.per_phone_per_hour) kept.0,
        ),
        omega (arith, both.1, rolled.counted, rolled.limited),
      ),
  λ q. (admit-ok_iff (roll_day r now) p now).1 (
    omega (
      arith,
      q.0,
      counts,
      hour.limited,
      ap length kept.1,
      ap (λ (x : RateLimiterOptions). x.per_phone_per_hour) kept.0,
    ),
    omega (arith, q.1, rolled.counted, rolled.limited),
  ),
)
  where
    r : RateLimiter
    r = (run (init o) [] calls).0

    done : List Turn
    done = (run (init o) [] calls).1

    hour : Hour.Inv o.per_phone_per_hour (latest 0 calls) r done
    hour = Hour.run-Inv _ 0 (init o) [] calls (Hour.init-Inv o) h

    day : Day.Inv o.global_per_day (latest 0 calls) r done
    day = Day.run-Inv _ 0 (init o) [] calls (Day.init-Inv o) h

    rolled : Day.Rolled o.global_per_day now (roll_day r now) done
    rolled = Day.roll_day-Rolled _ _ now r done day k

    kept : ((roll_day r now).options ≡ r.options) × (recent (roll_day r now) p now ≡ recent r p now)
    kept = roll_day-same r p now

    counts : length (recent r p now) ≡ length (in_hour p now done)
    counts = in_hour-recent _ _ now r p done hour rolled.not_late k
