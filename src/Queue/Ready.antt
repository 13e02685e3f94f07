-- ===== src/Queue/Ready.antt =====
-- A job that may be begun, beside those of its conversation.
use mathlib.Core.Option.{some-injective}
use shopify_vitrina.Base.{
  ℕ, Bool, ◌≡◌, sym, ◌∙◌, subst, true, false, some, List, [], ◌∷◌, All, All-map_to, eqb, eqb→eq,
  Text, ◌==◌, ==→eq, ==_refl, arith, Bool-cases, inl, inr,
}
use shopify_vitrina.Inbox.Ids.{includes}
use shopify_vitrina.Queue.{Job, find_job, ready}
use shopify_vitrina.Queue.Links.{drained, EachWith, Link, ready-drained, find_job-id}

pub clash : {b : Bool} → b ≡ true → b ≡ false → ⊥
clash h k = cc (h, k)

pub find_job-All :
    (P : Job → Type 0) (id : ℕ) (js : List Job) (j : Job) → find_job id js ≡ some j → All P js → P j
unfolding find_job
find_job-All P id [] j e a = absurd (cc e)
find_job-All P id (i ∷ js) j e a = elim (Bool-cases (eqb i.id id)) [
  | inl b ↦ subst P (some-injective _ _ (rw b at e)) a.0
  | inr b ↦ find_job-All P id js j (rw b at e) a.1
]

drained-All :
    (settled : List ℕ) (key : Text) (js : List Job)
    → drained settled key js ≡ true
    → All (λ i. (i.key == key) ≡ true → includes i.id settled ≡ true) js
drained-All settled key [] h = tt
drained-All settled key (j ∷ js) h =
    (λ b. ground (arith, h, b), drained-All settled key js (ground (arith, h)))

turned : (k l : Text) → (k == l) ≡ true → (l == k) ≡ true
turned k l h = subst (λ x. (l == x) ≡ true) (sym (==→eq k l h)) (==_refl l)

-- Beside a job that is ready and has not been started, no job of its conversation is under way.
pub ready-alone :
    (started settled : List ℕ) (id : ℕ) (js : List Job) (j : Job)
    → EachWith (Link started settled) js
    → ((i : ℕ) → includes i settled ≡ true → includes i started ≡ true)
    → find_job id js ≡ some j
    → ready settled j ≡ true
    → includes id started ≡ false
    → All
        (λ i. (i.key == j.key) ≡ true → includes i.id started ≡ true → includes i.id settled ≡ true)
        js
unfolding find_job
ready-alone started settled id [] j l r e d n = tt
ready-alone started settled id (i ∷ js) j l r e d n = elim (Bool-cases (eqb i.id id)) [
  | inl b ↦ own b (some-injective _ _ (rw b at e))
  | inr b ↦ (newer (rw b at e), ready-alone started settled id js j l.1 r (rw b at e) d n)
]
  where
    own :
        eqb i.id id ≡ true
        → i ≡ j
        → All
            (λ k.
              (k.key == j.key) ≡ true → includes k.id started ≡ true → includes k.id settled ≡ true)
            (i ∷ js)
    own b q = (
      λ k h. absurd (clash (subst (λ x. includes x started ≡ true) (eqb→eq i.id id b) h) n),
      All-map_to _ _ (λ k f g h. f g) js
          (drained-All settled j.key js (
            subst (λ x. drained settled x.key js ≡ true) q
              (sym (ready-drained started settled i js l r)
                ∙ subst (λ x. ready settled x ≡ true) (sym q) d))),
    )

    newer :
        find_job id js ≡ some j
        → (i.key == j.key) ≡ true
        → includes i.id started ≡ true
        → includes i.id settled ≡ true
    newer e' k h = absurd (
        clash
          (subst (λ x. includes x started ≡ true) (find_job-id id js j e')
            (r j.id (
              find_job-All (λ x. (x.key == i.key) ≡ true → includes x.id settled ≡ true) id js j e'
                (drained-All settled i.key js (l.0.2 h)) (turned i.key j.key k))))
          n)
