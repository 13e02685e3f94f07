-- ===== src/Base/Dicts.antt =====
-- A JavaScript `Map` keyed by strings: entries in the order of their first insertion.
use mathlib.Core.Path.{◌≡◌, refl}
use mathlib.Core.Bool.{true, false}
use mathlib.Core.Option.{Option, none, some}
use mathlib.Core.List.{List, [], ◌∷◌}
use native.Mathlib.Omega.{arith}
use shopify_vitrina.Base.Tests.{if◌then◌else◌}
use shopify_vitrina.Base.Strings.{Text, ◌==◌, ==_refl, ==→eq, ==_sym}

abbrev pub Dict {ℓ} : Type ℓ → Type ℓ
Dict A = List (Text × A)

module _ {ℓ} {A : Type ℓ} where
  -- `get`
  unfoldable pub lookup : Text → Dict A → Option A
  lookup key [] = none
  lookup key (entry ∷ entries) =
      let later = lookup key entries in if entry.0 == key then some entry.1 else later

  -- `set`
  unfoldable pub insert : Text → A → Dict A → Dict A
  insert key a [] = (key, a) ∷ []
  insert key a (entry ∷ entries) =
      let later = insert key a entries in
      if entry.0 == key then (key, a) ∷ entries else entry ∷ later

  -- `delete`: every entry of the key, of which a map built by `insert` has at most one.
  unfoldable pub remove : Text → Dict A → Dict A
  remove key [] = []
  remove key (entry ∷ entries) =
      let later = remove key entries in if entry.0 == key then later else entry ∷ later

  pub lookup-insert :
      (key other : Text) (a : A) (entries : Dict A)
      → lookup other (insert key a entries)
        ≡ (if key == other then some a else lookup other entries)
  unfolding insert lookup
  lookup-insert key other a [] = refl
  lookup-insert key other a (entry ∷ entries) = ground (
    arith,
    lookup-insert key other a entries,
    ==→eq key other,
    ==→eq entry.0 key,
    ==→eq entry.0 other,
    ==_refl other,
    ==_refl key,
    ==_sym entry.0 other,
    ==_sym key entry.0,
  )

  pub lookup-remove :
      (key other : Text) (entries : Dict A)
      → lookup other (remove key entries) ≡ (if key == other then none else lookup other entries)
  unfolding remove lookup
  lookup-remove key other [] = ground arith
  lookup-remove key other (entry ∷ entries) = ground (
    arith,
    lookup-remove key other entries,
    ==→eq key other,
    ==→eq entry.0 key,
    ==→eq entry.0 other,
    ==_refl other,
    ==_refl key,
    ==_sym entry.0 other,
    ==_sym key entry.0,
  )

  pub lookup-insert_own :
      (key other : Text) (a : A) (entries : Dict A)
      → (key == other) ≡ true
      → lookup other (insert key a entries) ≡ some a
  lookup-insert_own key other a entries e = rw (lookup-insert key other a entries, e) refl

  pub lookup-insert_other :
      (key other : Text) (a : A) (entries : Dict A)
      → (key == other) ≡ false
      → lookup other (insert key a entries) ≡ lookup other entries
  lookup-insert_other key other a entries e = rw (lookup-insert key other a entries, e) refl

  pub lookup-remove_own :
      (key other : Text) (entries : Dict A)
      → (key == other) ≡ true
      → lookup other (remove key entries) ≡ none
  lookup-remove_own key other entries e = rw (lookup-remove key other entries, e) refl

  pub lookup-remove_other :
      (key other : Text) (entries : Dict A)
      → (key == other) ≡ false
      → lookup other (remove key entries) ≡ lookup other entries
  lookup-remove_other key other entries e = rw (lookup-remove key other entries, e) refl
