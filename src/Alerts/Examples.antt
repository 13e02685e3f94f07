-- ===== src/Alerts/Examples.antt =====
-- The theorem on alerts at a run of three failures.
use mathlib.Core.Logic.{◌↔◌}
use shopify_vitrina.Base.{ℕ, ◌+◌, ◌≤◌, ◌≡◌, refl, true, some, List, [], ◌∷◌, head?}
use shopify_vitrina.Alerts.{init, record_failure, record_success}
use shopify_vitrina.Alerts.Streak.{Event, success, failure, streak, run, record_failure_iff}

abbrev events : List Event
events = failure 2000 ∷ failure 1000 ∷ success ∷ failure 500 ∷ []

third_failure : (record_failure (run (init 3 60_000) events).0 3000).1 ≡ true
unfolding run init record_failure record_success
third_failure = refl

record_failure_iff_example :
    let s = run (init 3 60_000) events in
    ((record_failure s.0 3000).1 ≡ true)
    ↔ ((3 ≤ streak (failure 3000 ∷ events)) × ((at : ℕ) → head? s.1 ≡ some at → at + 60_000 ≤ 3000))
record_failure_iff_example = record_failure_iff 3 60_000 events 3000
