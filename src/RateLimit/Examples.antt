-- ===== src/RateLimit/Examples.antt =====
-- The theorems on the limiter at a short history: a limit of two an hour and three a day.
use mathlib.Core.Logic.{◌↔◌}
use shopify_vitrina.Base.{
  ◌≤◌, ◌<◌, ◌≡◌, refl, List, [], ◌∷◌, length, Text, str, arith, lookup, insert, ◌==◌,
}
use shopify_vitrina.RateLimit.{RateLimiterOptions, init, check, ok, day_of}
use shopify_vitrina.RateLimit.History.{Turn, in_hour, in_day, run}
use shopify_vitrina.RateLimit.Hour.{in_hour-run, times}
use shopify_vitrina.RateLimit.Day.{in_day-run}
use shopify_vitrina.RateLimit.Exact.{check-ok_iff}
use shopify_vitrina.RateLimit.Notice
use shopify_vitrina.RateLimit.Notice.{run-Spaced, Spaced}

abbrev options : RateLimiterOptions
options = record { per_phone_per_hour = 2; global_per_day = 3 }

abbrev ana : Text
ana = str "573001"

abbrev luis : Text
luis = str "573002"

abbrev calls : List Turn
calls = (ana, 1000) ∷ (ana, 2000) ∷ (ana, 3000) ∷ (luis, 4000) ∷ (luis, 5000) ∷ []

-- The third call of the first phone finds the hour full, the last one of the second the day.
calls_admitted : (run (init options) [] calls).1 ≡ (ana, 1000) ∷ (ana, 2000) ∷ (luis, 4000) ∷ []
unfolding run init check lookup insert ◌==◌
calls_admitted = refl

in_hour-run_example : length (in_hour ana 3000 (run (init options) [] calls).1) ≤ 2
in_hour-run_example = in_hour-run options calls ana 3000 (omega arith)

in_day-run_example : length (in_day 0 (run (init options) [] calls).1) ≤ 3
in_day-run_example = in_day-run options calls 0 (omega arith)

check-ok_iff_example :
    let s = run (init options) [] calls in
    ((check s.0 luis 90_000_000).1 ≡ ok)
    ↔ ((length (in_hour luis 90_000_000 s.1) < 2) × (length (in_day (day_of 90_000_000) s.1) < 3))
check-ok_iff_example = check-ok_iff options calls luis 90_000_000 (omega arith) (omega arith)

run-Spaced_example : Spaced (times ana (Notice.run (init options) [] calls).1)
run-Spaced_example = run-Spaced options calls ana
