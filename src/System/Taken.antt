-- ===== src/System/Taken.antt =====
-- Turns that are of conversations of their own, and the one that is taken out.
use mathlib.Core.Option.{some-injective}
use shopify_vitrina.Base.{
  ◌≡◌, subst, Bool, false, some, List, [], ◌∷◌, All, Text, ◌==◌, ==→eq, ==_refl, arith, Bool-cases,
  inl, inr,
}
use shopify_vitrina.System.{take_first, drop_first}
use shopify_vitrina.System.Chained.{Turn}

-- No two of the turns are of one conversation.
abbrev pub Apart : List Turn → Type 0
Apart [] = Unit
Apart (t ∷ ts) = All (λ u. (u.job.key == t.job.key) ≡ false) ts × Apart ts

-- The first of its kind is in the list, passes the test, and the rest is apart from it.
module _ (p : Turn → Bool) where
  pub drop_first-All : (P : Turn → Type 0) (ts : List Turn) → All P ts → All P (drop_first p ts)
  unfolding drop_first
  drop_first-All P [] a = tt
  drop_first-All P (t ∷ ts) a = elim (Bool-cases (p t)) [
    | inl e ↦ rw e a.1
    | inr e ↦ rw e (a.0, drop_first-All P ts a.1)
  ]

  pub drop_first-Apart : (ts : List Turn) → Apart ts → Apart (drop_first p ts)
  unfolding drop_first
  drop_first-Apart [] a = tt
  drop_first-Apart (t ∷ ts) a = elim (Bool-cases (p t)) [
    | inl e ↦ rw e a.1
    | inr e ↦ rw e (drop_first-All _ ts a.0, drop_first-Apart ts a.1)
  ]

  pub take_first-All :
      (P : Turn → Type 0) (ts : List Turn) (t : Turn) → take_first p ts ≡ some t → All P ts → P t
  unfolding take_first
  take_first-All P [] t e a = absurd (cc e)
  take_first-All P (u ∷ ts) t e a = elim (Bool-cases (p u)) [
    | inl b ↦ subst P (some-injective _ _ (rw b at e)) a.0
    | inr b ↦ take_first-All P ts t (rw b at e) a.1
  ]

  pub take_first-Apart :
      (ts : List Turn) (t : Turn)
      → take_first p ts ≡ some t
      → Apart ts
      → All (λ u. (u.job.key == t.job.key) ≡ false) (drop_first p ts)
  unfolding take_first drop_first
  take_first-Apart [] t e a = tt
  take_first-Apart (u ∷ ts) t e a = elim (Bool-cases (p u)) [
    | inl b ↦ rw b (
        subst (λ x. All (λ w. (w.job.key == x.job.key) ≡ false) ts) (some-injective _ _ (rw b at e))
          a.0)
    | inr b ↦ rw b (
      apart_sym u.job.key t.job.key
          (take_first-All (λ w. (w.job.key == u.job.key) ≡ false) ts t (rw b at e) a.0),
      take_first-Apart ts t (rw b at e) a.1,
    )
  ]
    where
      apart_sym : (k l : Text) → (l == k) ≡ false → (k == l) ≡ false
      apart_sym k l h = ground (arith, h, ==→eq k l, ==_refl k)
