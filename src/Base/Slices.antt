-- ===== src/Base/Slices.antt =====
-- `startsWith`, `slice` and `indexOf` of a JavaScript string.
use Prim.Native.Nat.{ℕ, zero, suc}
use mathlib.Core.Bool.{Bool, true, false, ◌&&◌}
use mathlib.Core.Option.{Option, none, some}
use mathlib.Core.List.{List, [], ◌∷◌}
use shopify_vitrina.Base.Tests.{eqb, if◌then◌else◌}
use shopify_vitrina.Base.Strings.{Text}

-- `s.startsWith(prefix)`, on the prefix first.
unfoldable pub starts_with : Text → Text → Bool
starts_with [] s = true
starts_with (c ∷ prefix) [] = false
starts_with (c ∷ prefix) (d ∷ s) = eqb c d && starts_with prefix s

-- `s.slice(n)` and `s.slice(0, n)`.
unfoldable pub drop {ℓ} : {A : Type ℓ} → ℕ → List A → List A
drop zero s = s
drop (suc n) [] = []
drop (suc n) (c ∷ s) = drop n s

unfoldable pub take {ℓ} : {A : Type ℓ} → ℕ → List A → List A
take zero s = []
take (suc n) [] = []
take (suc n) (c ∷ s) = c ∷ take n s

-- `s.indexOf(c)`, with `none` for -1.
unfoldable pub index_of : ℕ → Text → Option ℕ
index_of c [] = none
index_of c (d ∷ s) =
    let later = index_of c s in
    if eqb d c then some 0 else elim later [ none ↦ none | some n ↦ some (suc n) ]
