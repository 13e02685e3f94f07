-- ===== src/Base/Ink.antt =====
-- `trim` leaves nothing exactly of a text that is all white space, and trimming twice is no more.
use mathlib.Core.List.{reverse, reverse-cons}
use shopify_vitrina.Base.Strings.{Text, is_space, trim_start, trim, is_empty}
use shopify_vitrina.Base.Lists.{any}
use Prim.Native.Nat.{ℕ}
use mathlib.Core.Path.{◌≡◌, refl, ap, ◌∙◌, sym}
use mathlib.Core.Bool.{Bool, false, not, ◌||◌}
use mathlib.Core.List.{[], ◌∷◌, ◌++◌}
use native.Mathlib.Omega.{arith}

-- Some character is no white space.
pub has_ink : Text → Bool
has_ink t = any (λ c. not (is_space c)) t

has_ink-snoc : (t : Text) (c : ℕ) → has_ink (t ++ c ∷ []) ≡ (has_ink t || not (is_space c))
unfolding has_ink
has_ink-snoc [] c = ground arith
has_ink-snoc (d ∷ t) c = ground (arith, has_ink-snoc t c)

has_ink-reverse : (t : Text) → has_ink (reverse t) ≡ has_ink t
unfolding has_ink
has_ink-reverse [] = refl
has_ink-reverse (c ∷ t) =
    rw (reverse-cons c t) (ground (arith, has_ink-snoc (reverse t) c, has_ink-reverse t))

has_ink-trim_start : (t : Text) → has_ink (trim_start t) ≡ has_ink t
unfolding has_ink trim_start
has_ink-trim_start [] = refl
has_ink-trim_start (c ∷ t) = ground (arith, has_ink-trim_start t)

is_empty-trim_start : (t : Text) → is_empty (trim_start t) ≡ not (has_ink t)
unfolding has_ink trim_start
is_empty-trim_start [] = refl
is_empty-trim_start (c ∷ t) = ground (arith, is_empty-trim_start t)

is_empty-snoc : (t : Text) (c : ℕ) → is_empty (t ++ c ∷ []) ≡ false
is_empty-snoc [] c = refl
is_empty-snoc (d ∷ t) c = refl

is_empty-reverse : (t : Text) → is_empty (reverse t) ≡ is_empty t
is_empty-reverse [] = refl
is_empty-reverse (c ∷ t) = rw (reverse-cons c t) (is_empty-snoc (reverse t) c)

pub is_empty-trim : (t : Text) → is_empty (trim t) ≡ not (has_ink t)
unfolding trim
is_empty-trim t =
    is_empty-reverse (trim_start (reverse (trim_start t)))
    ∙ is_empty-trim_start (reverse (trim_start t))
    ∙ ap not (has_ink-reverse (trim_start t) ∙ has_ink-trim_start t)

has_ink-trim : (t : Text) → has_ink (trim t) ≡ has_ink t
unfolding trim
has_ink-trim t =
    has_ink-reverse (trim_start (reverse (trim_start t)))
    ∙ has_ink-trim_start (reverse (trim_start t))
    ∙ has_ink-reverse (trim_start t)
    ∙ has_ink-trim_start t

pub is_empty-trim-trim : (t : Text) → is_empty (trim (trim t)) ≡ is_empty (trim t)
is_empty-trim-trim t = is_empty-trim (trim t) ∙ ap not (has_ink-trim t) ∙ sym (is_empty-trim t)
