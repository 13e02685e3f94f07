-- ===== src/Queue/Links.antt =====
-- How the jobs of a conversation hang on each other.
use shopify_vitrina.Base.{
  ℕ, ◌<◌, ◌≡◌, refl, sym, subst, ap, ◌∙◌, Bool, true, ◌&&◌, ◌||◌, not, Option, none, some, List, [],
  ◌∷◌, All, if◌then◌else◌, eqb, eqb→eq, Text, ◌==◌, ==→eq, arith, Bool-cases, inl, inr,
}
use mathlib.Core.Option.{some-injective}
use shopify_vitrina.Inbox.Ids.{includes}
use shopify_vitrina.Queue.{Job, find_job, ready}

-- Each job of the conversation has settled.
abbrev pub drained : List ℕ → Text → List Job → Bool
drained settled key [] = true
drained settled key (j ∷ js) =
    (not (j.key == key) || includes j.id settled) && drained settled key js

abbrev pub latest : Text → List Job → Option ℕ
latest key [] = none
latest key (j ∷ js) = if j.key == key then some j.id else latest key js

-- Each job with the older ones.
abbrev pub EachWith : (Job → List Job → Type 0) → List Job → Type 0
EachWith P [] = Unit
EachWith P (j ∷ js) = P j js × EachWith P js

-- A tail, or what it was: all that came before has settled, or it is the latest.
abbrev pub Tail : List ℕ → Text → List Job → Option ℕ → Type 0
Tail settled key js none = drained settled key js ≡ true
Tail settled key js (some p) = latest key js ≡ some p

abbrev pub Link : List ℕ → List ℕ → Job → List Job → Type 0
Link started settled j js =
    All (λ i. i.id < j.id) js
    × Tail settled j.key js j.after
    × (includes j.id started ≡ true → drained settled j.key js ≡ true)

-- The latest job has settled exactly if all of them have.
pub latest-drained :
    (started settled : List ℕ) (key : Text) (js : List Job) (p : ℕ)
    → EachWith (Link started settled) js
    → ((i : ℕ) → includes i settled ≡ true → includes i started ≡ true)
    → latest key js ≡ some p
    → includes p settled ≡ drained settled key js
latest-drained started settled key [] p l r e = absurd (cc e)
latest-drained started settled key (j ∷ js) p l r e = elim (Bool-cases (j.key == key)) [
  | inl b ↦ own b (some-injective _ _ (rw b at e))
  | inr b ↦ rw b (latest-drained started settled key js p l.1 r (rw b at e))
]
  where
    own : (j.key == key) ≡ true → j.id ≡ p → includes p settled ≡ drained settled key (j ∷ js)
    own b q = elim (Bool-cases (includes p settled)) [
      | inl h ↦ rw (b, same q, h, older b (rw (sym (same q)) at h)) refl
      | inr h ↦ rw (b, same q, h) refl
    ]
      where
        same : j.id ≡ p → includes j.id settled ≡ includes p settled
        same e = ap (λ i. includes i settled) e

        older : (j.key == key) ≡ true → includes j.id settled ≡ true → drained settled key js ≡ true
        older c h = subst (λ k. drained settled k js ≡ true) (==→eq j.key key c) (l.0.2 (r j.id h))

pub drained-more :
    (settled : List ℕ) (id : ℕ) (key : Text) (js : List Job)
    → drained settled key js ≡ true
    → drained (id ∷ settled) key js ≡ true
drained-more settled id key [] h = refl
drained-more settled id key (j ∷ js) h = ground (arith, h, drained-more settled id key js)

pub Tail-more :
    (settled : List ℕ) (id : ℕ) (key : Text) (js : List Job) (o : Option ℕ)
    → Tail settled key js o
    → Tail (id ∷ settled) key js o
Tail-more settled id key js none t = drained-more settled id key js t
Tail-more settled id key js (some p) t = t

pub Tail-drained :
    (started settled : List ℕ) (key : Text) (js : List Job) (o : Option ℕ)
    → EachWith (Link started settled) js
    → ((i : ℕ) → includes i settled ≡ true → includes i started ≡ true)
    → Tail settled key js o
    → elim o [ none ↦ true | some p ↦ includes p settled ] ≡ drained settled key js
Tail-drained started settled key js none l r t = sym t
Tail-drained started settled key js (some p) l r t = latest-drained started settled key js p l r t

-- A job is ready exactly if every older one of its conversation has settled.
pub ready-drained :
    (started settled : List ℕ) (j : Job) (js : List Job)
    → EachWith (Link started settled) (j ∷ js)
    → ((i : ℕ) → includes i settled ≡ true → includes i started ≡ true)
    → ready settled j ≡ drained settled j.key js
unfolding ready
ready-drained started settled j js l r = Tail-drained started settled j.key js j.after l.1 r l.0.1

pub links-start :
    (started settled : List ℕ) (id : ℕ) (js : List Job)
    → All (λ j. j.id < id) js
    → EachWith (Link started settled) js
    → EachWith (Link (id ∷ started) settled) js
links-start started settled id [] a l = tt
links-start started settled id (j ∷ js) a l =
    ((l.0.0, l.0.1, λ h. l.0.2 (ground (arith, a.0, h))), links-start started settled id js a.1 l.1)

-- A job is begun that is ready.
pub links-begin :
    (started settled : List ℕ) (id : ℕ) (js : List Job) (j : Job)
    → find_job id js ≡ some j
    → ready settled j ≡ true
    → ((i : ℕ) → includes i settled ≡ true → includes i started ≡ true)
    → EachWith (Link started settled) js
    → EachWith (Link (id ∷ started) settled) js
unfolding find_job
links-begin started settled id [] j e d r l = absurd (cc e)
links-begin started settled id (i ∷ js) j e d r l = elim (Bool-cases (eqb i.id id)) [
  | inl b ↦ (
    (
      l.0.0,
      l.0.1,
      λ h.
          sym (ready-drained started settled i js l r)
          ∙ (subst (λ k. ready settled k ≡ true) (sym (some-injective _ _ (rw b at e))) d),
    ),
    links-start started settled id js (subst (λ n. All (λ k. k.id < n) js) (eqb→eq i.id id b) l.0.0)
        l.1,
  )
  | inr b ↦ (
    (l.0.0, l.0.1, λ h. l.0.2 (ground (arith, b, h))),
    links-begin started settled id js j (rw b at e) d r l.1,
  )
]

pub find_job-id : (id : ℕ) (js : List Job) (j : Job) → find_job id js ≡ some j → j.id ≡ id
unfolding find_job
find_job-id id [] j e = absurd (cc e)
find_job-id id (i ∷ js) j e = elim (Bool-cases (eqb i.id id)) [
  | inl b ↦ subst (λ k. k.id ≡ id) (some-injective _ _ (rw b at e)) (eqb→eq i.id id b)
  | inr b ↦ find_job-id id js j (rw b at e)
]

pub find_job-below :
    (id n : ℕ) (js : List Job) (j : Job) → find_job id js ≡ some j → All (λ k. k.id < n) js → id < n
unfolding find_job
find_job-below id n [] j e a = absurd (cc e)
find_job-below id n (i ∷ js) j e a = elim (Bool-cases (eqb i.id id)) [
  | inl b ↦ ground (arith, a.0, b)
  | inr b ↦ find_job-below id n js j (rw b at e) a.1
]

pub links-settle :
    (started settled : List ℕ) (id : ℕ) (js : List Job)
    → EachWith (Link started settled) js
    → EachWith (Link started (id ∷ settled)) js
links-settle started settled id [] l = tt
links-settle started settled id (j ∷ js) l = (
  (
    l.0.0,
    Tail-more settled id j.key js j.after l.0.1,
    λ h. drained-more settled id j.key js (l.0.2 h),
  ),
  links-settle started settled id js l.1,
)
