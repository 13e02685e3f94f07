-- ===== src/Rank/Edits.antt =====
-- `edit_distance` and the edits that make one text another.
use shopify_vitrina.Base.{
  ℕ, suc, ◌+◌, ◌≤◌, ◌≡◌, refl, sym, subst, ap, ◌∙◌, min, List, [], ◌∷◌, eqb, eqb_refl, length, Text,
  arith, Bool-cases, inl, inr, leb, eqb→eq, ◌⊎◌,
}
use shopify_vitrina.Rank.Distance.{
  cost, first_of, fill, rows_from, count_from, at_length, edit_distance,
}

-- A text read from its end, in front of another.
abbrev pub onto : Text → Text → Text
onto [] acc = acc
onto (c ∷ s) acc = onto s (c ∷ acc)

-- One text is made the other in so many steps: a character is kept, replaced, inserted or removed.
pub data Edits : Text → Text → ℕ → Type 0 where
  done : Edits [] [] 0
  keep : (c : ℕ) (a b : Text) (n : ℕ) → Edits a b n → Edits (c ∷ a) (c ∷ b) n
  replace : (c d : ℕ) (a b : Text) (n : ℕ) → Edits a b n → Edits (c ∷ a) (d ∷ b) (suc n)
  insertion : (d : ℕ) (a b : Text) (n : ℕ) → Edits a b n → Edits a (d ∷ b) (suc n)
  removal : (c : ℕ) (a b : Text) (n : ℕ) → Edits a b n → Edits (c ∷ a) b (suc n)

-- The recursion, on the texts read from their ends.
abbrev next_distance : ℕ → (Text → ℕ) → Text → ℕ
next_distance c f [] = suc (f [])
next_distance c f (d ∷ b) = min (min (f b + cost c d) (next_distance c f b + 1)) (f (d ∷ b) + 1)

abbrev distance : Text → Text → ℕ
distance [] = length
distance (c ∷ a) = next_distance c (distance a)

-- A row: the distances of the beginnings of `b`.
abbrev row : (Text → ℕ) → Text → Text → List ℕ
row f acc [] = f acc ∷ []
row f acc (d ∷ b) = f acc ∷ row f (d ∷ acc) b

first_of-row : (f : Text → ℕ) (acc b : Text) → first_of (row f acc b) ≡ f acc
first_of-row f acc [] = refl
first_of-row f acc (d ∷ b) = refl

count_from-row : (acc b : Text) → count_from (length acc) b ≡ row length acc b
unfolding count_from
count_from-row acc [] = refl
count_from-row acc (d ∷ b) = ap (λ r. length acc ∷ r) (count_from-row (d ∷ acc) b)

fill-row :
    (c : ℕ) (f : Text → ℕ) (acc b : Text)
    → next_distance c f acc ∷ fill c (next_distance c f acc) b (row f acc b)
      ≡ row (next_distance c f) acc b
unfolding fill
fill-row c f acc [] = refl
fill-row c f acc (d ∷ b) =
    ap (λ r. next_distance c f acc ∷ r) (rw (first_of-row f (d ∷ acc) b) (fill-row c f (d ∷ acc) b))

distance-nil : (a : Text) → distance a [] ≡ length a
distance-nil [] = refl
distance-nil (c ∷ a) = ap suc (distance-nil a)

rows_from-row :
    (a acc b : Text)
    → rows_from (row (distance acc) [] b) (suc (length acc)) a b ≡ row (distance (onto a acc)) [] b
unfolding rows_from
rows_from-row [] acc b = refl
rows_from-row (c ∷ a) acc b =
    ap (λ r. rows_from r (suc (suc (length acc))) a b)
      (rw⁻¹ (distance-nil acc) (fill-row c (distance acc) [] b))
    ∙ rows_from-row a (c ∷ acc) b

at_length-row : (f : Text → ℕ) (acc b : Text) → at_length (row f acc b) b ≡ f (onto b acc)
unfolding at_length
at_length-row f acc [] = refl
at_length-row f acc (d ∷ b) = at_length-row f (d ∷ acc) b

edit_distance-distance : (a b : Text) → edit_distance a b ≡ distance (onto a []) (onto b [])
unfolding edit_distance
edit_distance-distance a b =
    rw (count_from-row [] b) (rw (rows_from-row a [] b) (at_length-row (distance (onto a [])) [] b))

least-of : (x y z : ℕ) → (min (min x y) z ≡ x) ⊎ ((min (min x y) z ≡ y) ⊎ (min (min x y) z ≡ z))
least-of x y z = elim (Bool-cases (leb x y)) [
  | inl p ↦ elim (Bool-cases (leb x z)) [
    | inl q ↦ inl (ground (arith, p, q))
    | inr q ↦ inr (inr (ground (arith, p, q)))
  ]
  | inr p ↦ elim (Bool-cases (leb y z)) [
    | inl q ↦ inr (inl (ground (arith, p, q)))
    | inr q ↦ inr (inr (ground (arith, p, q)))
  ]
]

length-Edits : (b : Text) → Edits [] b (length b)
length-Edits [] = done
length-Edits (d ∷ b) = insertion d [] b (length b) (length-Edits b)

-- Two characters, kept or replaced.
change : (c d : ℕ) (a b : Text) (n : ℕ) → Edits a b n → Edits (c ∷ a) (d ∷ b) (n + cost c d)
change c d a b n e = elim (Bool-cases (eqb c d)) [
  | inl h ↦
      subst (λ m. Edits (c ∷ a) (d ∷ b) m) (rw h (omega arith))
        (subst (λ x. Edits (c ∷ a) (x ∷ b) n) (eqb→eq c d h) (keep c a b n e))
  | inr h ↦ subst (λ m. Edits (c ∷ a) (d ∷ b) m) (rw h (omega arith)) (replace c d a b n e)
]

next_distance-Edits :
    (c : ℕ) (a b : Text)
    → ((s : Text) → Edits a s (distance a s))
    → Edits (c ∷ a) b (next_distance c (distance a) b)
next_distance-Edits c a [] h = removal c a [] (distance a []) (h [])
next_distance-Edits c a (d ∷ b) h =
    elim (least-of (distance a b + cost c d) (next_distance c (distance a) b + 1)
      (distance a (d ∷ b) + 1)) [
        | inl e ↦ subst (Edits (c ∷ a) (d ∷ b)) (sym e) (change c d a b (distance a b) (h b))
        | inr (inl e) ↦
            subst (Edits (c ∷ a) (d ∷ b)) (omega (arith, e))
              (insertion d (c ∷ a) b (next_distance c (distance a) b) (next_distance-Edits c a b h))
        | inr (inr e) ↦
            subst (Edits (c ∷ a) (d ∷ b)) (omega (arith, e))
              (removal c a (d ∷ b) (distance a (d ∷ b)) (h (d ∷ b)))
      ]

distance-Edits : (a b : Text) → Edits a b (distance a b)
distance-Edits [] b = length-Edits b
distance-Edits (c ∷ a) b = next_distance-Edits c a b (distance-Edits a)

distance-insertion : (d : ℕ) (a b : Text) → distance a (d ∷ b) ≤ distance a b + 1
distance-insertion d [] b = omega arith
distance-insertion d (c ∷ a) b = ground arith

distance-removal : (c : ℕ) (a b : Text) → distance (c ∷ a) b ≤ distance a b + 1
distance-removal c a [] = omega arith
distance-removal c a (d ∷ b) = ground arith

distance-least : (a b : Text) (n : ℕ) → Edits a b n → distance a b ≤ n
distance-least _ _ _ done = omega arith
distance-least _ _ _ (keep c a b n e) = ground (arith, distance-least a b n e, eqb_refl c)
distance-least _ _ _ (replace c d a b n e) = ground (arith, distance-least a b n e)
distance-least _ _ _ (insertion d a b n e) =
    omega (arith, distance-least a b n e, distance-insertion d a b)
distance-least _ _ _ (removal c a b n e) =
    omega (arith, distance-least a b n e, distance-removal c a b)

-- The edit distance of two texts is the least number of edits that makes the one the other: so many
-- do, and fewer do not. The edits are told from the ends of the texts.
pub edit_distance-least :
    (a b : Text)
    → Edits (onto a []) (onto b []) (edit_distance a b)
      × ((n : ℕ) → Edits (onto a []) (onto b []) n → edit_distance a b ≤ n)
edit_distance-least a b =
    rw (edit_distance-distance a b)
      (distance-Edits (onto a []) (onto b []), distance-least (onto a []) (onto b []))
