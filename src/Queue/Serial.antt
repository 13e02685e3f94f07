-- ===== src/Queue/Serial.antt =====
-- The steps of the queue, and when a job of it may be begun.
use shopify_vitrina.Base.{
  ℕ, ◌<◌, ◌≡◌, refl, sym, subst, ◌∙◌, true, false, ◌&&◌, Option, none, some, List, [], ◌∷◌, All,
  All-map_to, eqb, eqb→eq, Text, ◌==◌, ==→eq, lookup, remove, arith, Bool-cases, Option-cases, inl,
  inr, lookup-insert_own, lookup-insert_other, lookup-remove_own, lookup-remove_other,
}
use shopify_vitrina.Inbox.Ids.{includes}
use shopify_vitrina.Queue.{
  Job, PerConversationQueue, enqueue, find_job, ready, begin, settle, clean, is_tail,
}
use shopify_vitrina.Queue.Links.{
  drained, EachWith, Tail, Link, latest-drained, Tail-more, ready-drained, links-begin,
  find_job-below, links-settle,
}

pub data Step : Type 0 where
  enqueue_step : Text → Step
  begin_step : ℕ → Step
  settle_step : ℕ → Step
  clean_step : ℕ → Step

unfoldable pub step : PerConversationQueue → Step → PerConversationQueue
step q (enqueue_step key) = enqueue q key
step q (begin_step id) = begin q id
step q (settle_step id) = settle q id
step q (clean_step id) = clean q id

unfoldable pub run : PerConversationQueue → List Step → PerConversationQueue
run q [] = q
run q (e ∷ es) = run (step q e) es

abbrev pub empty_queue : PerConversationQueue
empty_queue = record { tails = []; jobs = []; started = []; settled = []; next = 1 }

pub record Inv (q : PerConversationQueue) : Type 0 where
  pub links : EachWith (Link q.started q.settled) q.jobs
  pub below : All (λ j. j.id < q.next) q.jobs
  pub given : (i : ℕ) → includes i q.started ≡ true → i < q.next
  pub ran : (i : ℕ) → includes i q.settled ≡ true → includes i q.started ≡ true
  pub tail : (key : Text) → Tail q.settled key q.jobs (lookup key q.tails)

module _ (q : PerConversationQueue) (v : Inv q) where
  pub begin-Inv : (id : ℕ) → Inv (begin q id)
  unfolding begin
  begin-Inv id = elim (Option-cases (find_job id q.jobs)) [
    | inl e ↦ rw (e, begin) v
    | inr (j, e) ↦
        rw (e, begin)
          (elim (Bool-cases (ready q.settled j)) [
            | inl d ↦ rw d (record {
              links = links-begin q.started q.settled id q.jobs j e d v.ran v.links;
              below = v.below;
              given =
                  λ i h. ground (arith, v.given i, h, find_job-below id q.next q.jobs j e v.below);
              ran = λ i h. ground (arith, v.ran i, h);
              tail = v.tail;
            })
            | inr d ↦ rw d v
          ])
  ]

  pub settle-Inv : (id : ℕ) → Inv (settle q id)
  unfolding settle
  settle-Inv id = elim (Bool-cases (includes id q.started)) [
    | inl e ↦ rw e (record {
      links = links-settle q.started q.settled id q.jobs v.links;
      below = v.below;
      given = v.given;
      ran = λ i h. elim (Bool-cases (eqb id i)) [
        | inl b ↦ subst (λ n. includes n q.started ≡ true) (eqb→eq id i b) e
        | inr b ↦ v.ran i (rw b at h)
      ];
      tail = λ key. Tail-more q.settled id key q.jobs (lookup key q.tails) (v.tail key);
    })
    | inr e ↦ rw e v
  ]

  -- The chains of the other conversations stay as they are.
  Tail-other :
      (j : Job) (key : Text) (o : Option ℕ)
      → (j.key == key) ≡ false
      → Tail q.settled key q.jobs o
      → Tail q.settled key (j ∷ q.jobs) o
  Tail-other j key none b t = rw b t
  Tail-other j key (some p) b t = rw b t

  pub enqueue-Inv : (key : Text) → Inv (enqueue q key)
  unfolding enqueue
  enqueue-Inv key = record {
    links = ((v.below, v.tail key, λ h. absurd (omega (arith, v.given q.next h))), v.links);
    below = (omega arith, All-map_to _ _ (λ j h. omega (arith, h)) q.jobs v.below);
    given = λ i h. omega (arith, v.given i h);
    ran = v.ran;
    tail = λ k. elim (Bool-cases (key == k)) [
      | inl b ↦
          subst (Tail q.settled k (job ∷ q.jobs)) (sym (lookup-insert_own key k q.next q.tails b))
            (rw b refl)
      | inr b ↦
          subst (Tail q.settled k (job ∷ q.jobs)) (sym (lookup-insert_other key k q.next q.tails b))
            (Tail-other job k (lookup k q.tails) b (v.tail k))
    ];
  }
    where
      job : Job
      job = record { id = q.next; key = key; after = lookup key q.tails }

  clean-Tail :
      (id : ℕ) (key : Text)
      → includes id q.settled ≡ true
      → is_tail id (lookup key q.tails) ≡ true
      → (k : Text) → Tail q.settled k q.jobs (lookup k (remove key q.tails))
  clean-Tail id key h t k = elim (Bool-cases (key == k)) [
    | inl b ↦ subst (Tail q.settled k q.jobs) (sym (lookup-remove_own key k q.tails b)) (
        subst (λ x. drained q.settled x q.jobs ≡ true) (==→eq key k b)
          (done (lookup key q.tails) (v.tail key) t))
    | inr b ↦ subst (Tail q.settled k q.jobs) (sym (lookup-remove_other key k q.tails b)) (v.tail k)
  ]
    where
      done :
          (o : Option ℕ)
          → Tail q.settled key q.jobs o
          → is_tail id o ≡ true
          → drained q.settled key q.jobs ≡ true
      done none t i = t
      done (some p) t i =
          sym (latest-drained q.started q.settled key q.jobs p v.links v.ran t)
          ∙ subst (λ n. includes n q.settled ≡ true) (sym (eqb→eq p id i)) h

  clean-Inv : (id : ℕ) → Inv (clean q id)
  unfolding clean
  clean-Inv id = elim (Option-cases (find_job id q.jobs)) [
    | inl e ↦ rw (e, clean) v
    | inr (j, e) ↦
        rw (e, clean)
          (elim (Bool-cases (includes id q.settled && is_tail id (lookup j.key q.tails))) [
            | inl b ↦ rw b (record {
              links = v.links;
              below = v.below;
              given = v.given;
              ran = v.ran;
              tail = clean-Tail id j.key (ground (arith, b)) (ground (arith, b));
            })
            | inr b ↦ rw b v
          ])
  ]

  step-Inv : (e : Step) → Inv (step q e)
  unfolding step
  step-Inv (enqueue_step key) = enqueue-Inv key
  step-Inv (begin_step id) = begin-Inv id
  step-Inv (settle_step id) = settle-Inv id
  step-Inv (clean_step id) = clean-Inv id

run-Inv : (q : PerConversationQueue) (es : List Step) → Inv q → Inv (run q es)
unfolding run
run-Inv q [] v = v
run-Inv q (e ∷ es) v = run-Inv (step q e) es (step-Inv q v e)

-- What a queue of each conversation with one job at a time promises of a job and the older ones: it
-- may be begun exactly when all those of its conversation have settled, and it has not been before.
abbrev pub InTurn : PerConversationQueue → Job → List Job → Type 0
InTurn q j older =
    (ready q.settled j ≡ drained q.settled j.key older)
    × (includes j.id q.started ≡ true → drained q.settled j.key older ≡ true)

links-InTurn :
    (q : PerConversationQueue) (js : List Job)
    → EachWith (Link q.started q.settled) js
    → ((i : ℕ) → includes i q.settled ≡ true → includes i q.started ≡ true)
    → EachWith (InTurn q) js
links-InTurn q [] l r = tt
links-InTurn q (j ∷ js) l r =
    ((ready-drained q.started q.settled j js l r, l.0.2), links-InTurn q js l.1 r)

pub empty-Inv : Inv empty_queue
unfolding lookup
empty-Inv = record {
  links = tt;
  below = tt;
  given = λ i h. absurd (cc h);
  ran = λ i h. h;
  tail = λ key. refl;
}

-- After any steps of an empty queue, a job may be begun exactly when every job that its
-- conversation was given before it has settled, and no job has been begun earlier than that.
pub run-InTurn : (es : List Step) → EachWith (InTurn (run empty_queue es)) (run empty_queue es).jobs
run-InTurn es =
    let v = run-Inv empty_queue es empty-Inv in
    links-InTurn (run empty_queue es) (run empty_queue es).jobs v.links v.ran
