-- ===== src/Queue/Examples.antt =====
-- Two jobs of one conversation and one of another.
use shopify_vitrina.Base.{◌≡◌, refl, List, [], ◌∷◌, str, ◌==◌, lookup, insert}
use shopify_vitrina.Queue.{enqueue, begin, settle, clean, find_job, ready}
use shopify_vitrina.Queue.Links.{EachWith}
use shopify_vitrina.Queue.Serial.{
  Step, enqueue_step, begin_step, settle_step, run, step, empty_queue, InTurn, run-InTurn,
}

-- The second job of the conversation is tried too early, and then in its turn.
abbrev steps : List Step
steps =
    enqueue_step (str "573001")
    ∷ enqueue_step (str "573001")
    ∷ enqueue_step (str "573002")
    ∷ begin_step 2
    ∷ begin_step 3
    ∷ begin_step 1
    ∷ settle_step 1
    ∷ begin_step 2
    ∷ []

started-steps : (run empty_queue steps).started ≡ 2 ∷ 1 ∷ 3 ∷ []
unfolding run step enqueue begin settle clean find_job ready ◌==◌ lookup insert
started-steps = refl

run-InTurn_example : EachWith (InTurn (run empty_queue steps)) (run empty_queue steps).jobs
run-InTurn_example = run-InTurn steps
