-- ===== src/Alerts.antt =====
-- server/src/inbox/alerts.ts: the class `ConsecutiveFailureAlert`. Times are milliseconds.
pub mod Streak
mod Examples
use shopify_vitrina.Base.{ℕ, ◌+◌, Bool, true, false, Option, none, some, ltb, if◌then◌else◌}

pub record Alert : Type 0 where
  pub threshold : ℕ
  pub cooldown_ms : ℕ
  pub failures : ℕ
  pub last_alert_at : Option ℕ

unfoldable pub init : ℕ → ℕ → Alert
init threshold cooldown_ms = record {
  threshold = threshold;
  cooldown_ms = cooldown_ms;
  failures = 0;
  last_alert_at = none;
}

unfoldable pub record_success : Alert → Alert
record_success a = record a { failures = 0 }

-- `lastAlertAt !== undefined && now - lastAlertAt < cooldownMs`
abbrev pub cooling : ℕ → ℕ → Option ℕ → Bool
cooling now cooldown none = false
cooling now cooldown (some at) = ltb now (at + cooldown)

-- The Boolean says whether an alert should be sent now.
unfoldable pub record_failure : Alert → ℕ → Alert × Bool
record_failure a now =
    let a' = record a { failures = a.failures + 1 } in
    if ltb a'.failures a'.threshold
    then (a', false)
    else if cooling now a'.cooldown_ms a'.last_alert_at
    then (a', false)
    else (record a' { last_alert_at = some now }, true)
