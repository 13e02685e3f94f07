-- ===== src/System/Never.antt =====
-- What the batcher at work keeps of the rows that are not settled.
use shopify_vitrina.Base.{ℕ, ◌≡◌, true, List, [], ◌∷◌, Text}
use shopify_vitrina.Turn.{Role}
use shopify_vitrina.Inbox.Valid.{IsValid}
use shopify_vitrina.Batcher.Process.{Deps, seconds}
use shopify_vitrina.Batcher.Process.Declines.{Unsettled}
use shopify_vitrina.System.{
  System, Event, receive, receive_agent, close_burst, retry, start, finish, sweep, restart, step,
  run, restart_process,
}
use shopify_vitrina.System.Kept.{Inv, kept}
use shopify_vitrina.System.Doors.{receive_agent-Inv, flush-Inv, retry-Inv, sweep-Inv, restart-Inv}
use shopify_vitrina.System.Receives.{receive-Inv}
use shopify_vitrina.System.Turns.{finish-Inv}
use shopify_vitrina.System.Starts.{start-Inv}

module _ (d : Deps) (role_for : Text → Role) where
  pub step-Inv : (s : System) (e : Event) → Inv s → Inv (step d role_for s e)
  unfolding step
  step-Inv s (receive now digest m) v = receive-Inv d role_for s now digest m v
  step-Inv s (receive_agent now key input) v = receive_agent-Inv s now key input v
  step-Inv s (close_burst phone) v = flush-Inv s phone v
  step-Inv s (retry key) v = retry-Inv s key v
  step-Inv s (start now key) v = start-Inv d s now key v
  step-Inv s (finish now key returned) v = finish-Inv s now key returned v
  step-Inv s (sweep now done_days failed_days) v = sweep-Inv s (seconds now) done_days failed_days v
  step-Inv s (restart now) v = restart-Inv d s now v.valid

  run-Inv : (s : System) (es : List Event) → Inv s → Inv (run d role_for s es)
  unfolding run
  run-Inv s [] v = v
  run-Inv s (e ∷ es) v = run-Inv (step d role_for s e) es (step-Inv s e v)

  -- A process boots on any valid inbox, and then sees any events. Every row that is neither done
  -- nor failed has a burst, a place in the queue or a retry of its conversation, or is one of the
  -- rows of a turn of its conversation that runs.
  pub run-kept :
      (s : System) (now : ℕ) (es : List Event)
      → IsValid s.store.files.inbox
      → let t = run d role_for (restart_process d s now) es in
        Unsettled (λ id key. kept t id key ≡ true) t.store.files.inbox
  run-kept s now es v = (run-Inv (restart_process d s now) es (restart-Inv d s now v)).answered
