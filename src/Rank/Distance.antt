-- ===== src/Rank/Distance.antt =====
-- `editDistance` of server/src/shopify/rank.ts, with its two rows.
use shopify_vitrina.Base.{ℕ, suc, ◌+◌, min, List, [], ◌∷◌, if◌then◌else◌, eqb, Text}

abbrev pub cost : ℕ → ℕ → ℕ
cost c d = if eqb c d then 0 else 1

-- `row[0] ?? 0`, and the row from 1 on.
abbrev pub first_of : List ℕ → ℕ
first_of [] = 0
first_of (n ∷ ns) = n

abbrev pub rest_of : List ℕ → List ℕ
rest_of [] = []
rest_of (n ∷ ns) = ns

-- The inner loop, for the character `c` of `a`: what is pushed after `left`, `previous` being the
-- last row from `j - 1` on.
unfoldable pub fill : ℕ → ℕ → Text → List ℕ → List ℕ
fill c left [] previous = []
fill c left (d ∷ b) previous =
    let m = min (min (first_of previous + cost c d) (left + 1)) (first_of (rest_of previous) + 1) in
    m ∷ fill c m b (rest_of previous)

-- The outer loop.
unfoldable pub rows_from : List ℕ → ℕ → Text → Text → List ℕ
rows_from previous i [] b = previous
rows_from previous i (c ∷ a) b = rows_from (i ∷ fill c i b previous) (suc i) a b

-- `Array.from({ length: n + 1 }, (_, i) => i)`, from `i` on.
unfoldable pub count_from : ℕ → Text → List ℕ
count_from i [] = i ∷ []
count_from i (d ∷ b) = i ∷ count_from (suc i) b

-- `row[n] ?? 0`, for the length of the text.
unfoldable pub at_length : List ℕ → Text → ℕ
at_length row [] = first_of row
at_length row (d ∷ b) = at_length (rest_of row) b

unfoldable pub edit_distance : Text → Text → ℕ
edit_distance a b = at_length (rows_from (count_from 0 b) 1 a b) b
