-- ===== src/Base/Maps.antt =====
-- Maps from texts as lists of entries (`HashMap`, `BTreeMap`).
use Prim.Native.Nat.{◌≤◌, ◌<◌}
use mathlib.Core.Bool.{Bool}
use mathlib.Core.List.{List, [], ◌∷◌}
use mathlib.Core.Option.{Option, none, some}
use mathlib.Core.Path.{◌≡◌, refl}
use native.Mathlib.Omega.{arith}
use dsearch.Base.Lists.{length, retain}
use dsearch.Base.Tests.{if◌then◌else◌}
use dsearch.Base.Texts.{Text, text_eq, text_eq_iff, text_eq_refl}

unfoldable pub lookup {ℓ} : {V : Type ℓ} → Text → List (Text × V) → Option V
lookup k [] = none
lookup k ((j, v) ∷ l) = let rest = lookup k l in if text_eq j k then some v else rest

-- No key stands twice.
abbrev pub Distinct {ℓ} : {V : Type ℓ} → List (Text × V) → Type ℓ
Distinct [] = Unit
Distinct ((k, v) ∷ l) = (lookup k l ≡ none) × Distinct l

unfoldable pub without {ℓ} : {V : Type ℓ} → Text → List (Text × V) → List (Text × V)
without k [] = []
without k ((j, v) ∷ l) = let rest = without k l in if text_eq j k then rest else (j, v) ∷ rest

unfoldable pub put {ℓ} : {V : Type ℓ} → Text → V → List (Text × V) → List (Text × V)
put k v l = (k, v) ∷ without k l

-- The value that `entry(k).or_insert(v)` refers to.
abbrev pub or_insert {ℓ} : {V : Type ℓ} → Option V → V → V
or_insert none v = v
or_insert (some w) v = w

module _ {ℓ} {V : Type ℓ} where
  pub lookup-without :
      (k j : Text) (l : List (Text × V))
      → lookup j (without k l) ≡ (if text_eq k j then none else lookup j l)
  unfolding lookup without
  lookup-without k j [] = ground arith
  lookup-without k j ((i, v) ∷ l) =
      ground (arith, lookup-without k j l, text_eq_iff i k, text_eq_iff i j, text_eq_iff k j)

  pub without-Distinct : (k : Text) (l : List (Text × V)) → Distinct l → Distinct (without k l)
  unfolding without
  without-Distinct k [] d = tt
  without-Distinct k ((j, v) ∷ l) (gone, d) =
      ground (arith, lookup-without k j l, without-Distinct k l d)

  pub lookup-put :
      (k : Text) (v : V) (j : Text) (l : List (Text × V))
      → lookup j (put k v l) ≡ (if text_eq k j then some v else lookup j l)
  unfolding lookup put
  lookup-put k v j l = ground (arith, lookup-without k j l)

  pub put-Distinct : (k : Text) (v : V) (l : List (Text × V)) → Distinct l → Distinct (put k v l)
  unfolding put
  put-Distinct k v l d =
      (ground (arith, lookup-without k k l, text_eq_refl k), without-Distinct k l d)

  pub length-without-le : (k : Text) (l : List (Text × V)) → length (without k l) ≤ length l
  unfolding without
  length-without-le k [] = omega arith
  length-without-le k ((j, v) ∷ l) = ground (arith, length-without-le k l)

  pub length-without-lt :
      (k : Text) (v : V) (l : List (Text × V))
      → lookup k l ≡ some v
      → length (without k l) < length l
  unfolding without lookup
  length-without-lt k v [] found = ground arith
  length-without-lt k v ((j, w) ∷ l) found =
      ground (arith, length-without-le k l, length-without-lt k v l)

  -- Dropping entries keeps a value or loses it.
  pub lookup-retain-none :
      (p : Text × V → Bool) (k : Text) (l : List (Text × V))
      → lookup k l ≡ none
      → lookup k (retain p l) ≡ none
  unfolding lookup retain
  lookup-retain-none p k [] h = h
  lookup-retain-none p k ((j, v) ∷ l) h = ground (arith, lookup-retain-none p k l)

  abbrev pub filtered : (Text × V → Bool) → Text → Option V → Option V
  filtered p k none = none
  filtered p k (some v) = if p (k, v) then some v else none

  pub lookup-retain :
      (p : Text × V → Bool) (k : Text) (l : List (Text × V))
      → Distinct l
      → lookup k (retain p l) ≡ filtered p k (lookup k l)
  unfolding lookup retain
  lookup-retain p k [] d = ground arith
  lookup-retain p k ((j, v) ∷ l) (gone, d) =
      ground (arith, lookup-retain p k l d, lookup-retain-none p j l gone, text_eq_iff j k)

  pub retain-Distinct :
      (p : Text × V → Bool) (l : List (Text × V)) → Distinct l → Distinct (retain p l)
  unfolding retain
  retain-Distinct p [] d = tt
  retain-Distinct p ((k, v) ∷ l) (gone, d) =
      ground (arith, lookup-retain-none p k l gone, retain-Distinct p l d)

  pub lookup_empty : (k : Text) → lookup {V = V} k [] ≡ none
  unfolding lookup
  lookup_empty k = refl
