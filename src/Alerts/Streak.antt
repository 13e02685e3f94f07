-- ===== src/Alerts/Streak.antt =====
-- When an alert is sent, told from the events before it.
use mathlib.Core.Logic.{◌↔◌}
use shopify_vitrina.Base.{
  ℕ, suc, ◌+◌, ◌≤◌, ◌≡◌, refl, sym, ◌∙◌, Bool, true, false, Option, none, some, List, [], ◌∷◌,
  arith, head?,
}
use shopify_vitrina.Alerts.{Alert, init, record_success, record_failure, cooling}

pub data Event : Type 0 where
  success : Event
  failure : ℕ → Event

-- How many failures stand at the end of a history, the latest event first.
abbrev pub streak : List Event → ℕ
streak [] = 0
streak (success ∷ es) = 0
streak (failure now ∷ es) = suc (streak es)

abbrev add_if : Bool → ℕ → List ℕ → List ℕ
add_if true t ts = t ∷ ts
add_if false t ts = ts

-- The tracker after a history, and the times of the alerts that it has sent, the latest first.
unfoldable pub run : Alert → List Event → Alert × List ℕ
run a [] = (a, [])
run a (success ∷ es) = let (b, sent) = run a es in (record_success b, sent)
run a (failure now ∷ es) =
    let (b, sent) = run a es in let (c, alert) = record_failure b now in (c, add_if alert now sent)

record Inv (threshold cooldown : ℕ) (es : List Event) (a : Alert) (sent : List ℕ) : Type 0 where
  limit : a.threshold ≡ threshold
  wait : a.cooldown_ms ≡ cooldown
  counted : a.failures ≡ streak es
  last : a.last_alert_at ≡ head? sent

success-Inv :
    (t c : ℕ) (es : List Event) (a : Alert) (sent : List ℕ)
    → Inv t c es a sent
    → Inv t c (success ∷ es) (record_success a) sent
unfolding record_success
success-Inv t c es a sent v = ground arith

failure-Inv :
    (t c now : ℕ) (es : List Event) (a : Alert) (sent : List ℕ)
    → Inv t c es a sent
    → Inv t c (failure now ∷ es) (record_failure a now).0 (add_if (record_failure a now).1 now sent)
unfolding record_failure
failure-Inv t c now es a sent v = ground arith

run-Inv : (t c : ℕ) (es : List Event) → Inv t c es (run (init t c) es).0 (run (init t c) es).1
unfolding run init
run-Inv t c [] = ground arith
run-Inv t c (success ∷ es) = success-Inv t c es _ _ (run-Inv t c es)
run-Inv t c (failure now ∷ es) = failure-Inv t c now es _ _ (run-Inv t c es)

record_failure-true_iff :
    (a : Alert) (now : ℕ)
    → ((record_failure a now).1 ≡ true)
      ↔ ((a.threshold ≤ a.failures + 1) × (cooling now a.cooldown_ms a.last_alert_at ≡ false))
unfolding record_failure
record_failure-true_iff a now = (λ e. ground arith, λ h. ground arith)

cooling→wait :
    (now c : ℕ) (o : Option ℕ) → cooling now c o ≡ false → (at : ℕ) → o ≡ some at → at + c ≤ now
cooling→wait now c none h at e = cc
cooling→wait now c (some b) h at e = ground arith

wait→cooling :
    (now c : ℕ) (o : Option ℕ) → ((at : ℕ) → o ≡ some at → at + c ≤ now) → cooling now c o ≡ false
wait→cooling now c none h = refl
wait→cooling now c (some b) h = ground (arith, h b refl)

-- After any history of events, a failure sends an alert exactly when it makes the unbroken run of
-- failures at least `threshold` long and the last alert sent, if any, is `cooldownMs` or more ago.
pub record_failure_iff :
    (threshold cooldown : ℕ) (es : List Event) (now : ℕ)
    → let s = run (init threshold cooldown) es in
      ((record_failure s.0 now).1 ≡ true) ↔ (
        (threshold ≤ streak (failure now ∷ es))
        × ((at : ℕ) → head? s.1 ≡ some at → at + cooldown ≤ now))
record_failure_iff threshold cooldown es now = (
  λ e.
      let both = (record_failure-true_iff a now).0 e in
      (
        omega (arith, both.0, v.limit, v.counted),
        λ at h. cooling→wait now cooldown a.last_alert_at (rw v.wait at (both.1)) at (v.last ∙ h),
      ),
  λ h. (record_failure-true_iff a now).1 (
    omega (arith, h.0, v.limit, v.counted),
    rw v.wait (wait→cooling now cooldown a.last_alert_at (λ at e. h.1 at (sym v.last ∙ e))),
  ),
)
  where
    a : Alert
    a = (run (init threshold cooldown) es).0

    v : Inv threshold cooldown es a (run (init threshold cooldown) es).1
    v = run-Inv threshold cooldown es
