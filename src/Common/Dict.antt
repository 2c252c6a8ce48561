-- ===== src/Common/Dict.antt =====
-- A dictionary, or a table that is read by its primary key: an association list in which the
-- first entry of a key counts.
use mathlib.Core.Path.{◌≡◌, refl}
use mathlib.Core.Bool.{Bool}
use mathlib.Core.Option.{Option, none, some}
use mathlib.Core.List.{List, [], ◌∷◌}
use native.Mathlib.Omega.{arith}
use docs_pe.Common.Tests.{if◌then◌else◌}
use docs_pe.Common.Eq.{Eq, same}

-- A value that is there and passes a test.
abbrev pub kept {ℓ} : {V : Type ℓ} → (V → Bool) → Option V → Option V
kept p none = none
kept p (some v) = if p v then some v else none

module _ {ℓ κ} {K : Type ℓ} {V : Type κ} ⦃e : Eq K⦄ where
  unfoldable pub lookup : K → List (K × V) → Option V
  lookup k [] = none
  lookup k ((j, v) ∷ d) = if same j k then some v else lookup k d

  -- d[k] = v, which keeps the place of a key that is there
  unfoldable pub put : K → V → List (K × V) → List (K × V)
  put k v [] = (k, v) ∷ []
  put k v ((j, w) ∷ d) = if same j k then (k, v) ∷ d else (j, w) ∷ put k v d

  -- del d[k], if it is there
  unfoldable pub remove : K → List (K × V) → List (K × V)
  remove k [] = []
  remove k ((j, v) ∷ d) = let rest = remove k d in if same j k then rest else (j, v) ∷ rest

  -- the entries that pass a test
  unfoldable pub keep : (V → Bool) → List (K × V) → List (K × V)
  keep p [] = []
  keep p ((j, v) ∷ d) = let rest = keep p d in if p v then (j, v) ∷ rest else rest

  -- No key twice.
  abbrev pub HasUniqueKeys : List (K × V) → Type κ
  HasUniqueKeys [] = Unit
  HasUniqueKeys ((j, v) ∷ d) = (lookup j d ≡ none) × HasUniqueKeys d

  pub lookup-put :
      (k j : K) (v : V) (d : List (K × V))
      → lookup j (put k v d) ≡ (if same k j then some v else lookup j d)
  unfolding lookup put
  lookup-put k j v [] = refl
  lookup-put k j v ((i, w) ∷ d) =
      ground (arith, lookup-put k j v d, e.beq_iff k j, e.beq_iff i k, e.beq_iff i j)

  pub lookup-remove :
      (k j : K) (d : List (K × V)) → lookup j (remove k d) ≡ (if same k j then none else lookup j d)
  unfolding lookup remove
  lookup-remove k j [] = ground arith
  lookup-remove k j ((i, w) ∷ d) =
      ground (arith, lookup-remove k j d, e.beq_iff k j, e.beq_iff i k, e.beq_iff i j)

  keep-none :
      (p : V → Bool) (k : K) (d : List (K × V)) → lookup k d ≡ none → lookup k (keep p d) ≡ none
  unfolding lookup keep
  keep-none p k [] h = refl
  keep-none p k ((i, w) ∷ d) h = ground (arith, keep-none p k d)

  pub lookup-keep :
      (p : V → Bool) (k : K) (d : List (K × V))
      → HasUniqueKeys d
      → lookup k (keep p d) ≡ kept p (lookup k d)
  unfolding lookup keep
  lookup-keep p k [] h = refl
  lookup-keep p k ((i, w) ∷ d) h =
      ground (arith, lookup-keep p k d h.1, keep-none p i d h.0, e.beq_iff i k)

  pub put-HasUniqueKeys :
      (k : K) (v : V) (d : List (K × V)) → HasUniqueKeys d → HasUniqueKeys (put k v d)
  unfolding lookup put
  put-HasUniqueKeys k v [] h = (refl, tt)
  put-HasUniqueKeys k v ((i, w) ∷ d) h =
      ground (arith, put-HasUniqueKeys k v d h.1, lookup-put k i v d, e.beq_iff i k, e.beq_iff k i)

  pub remove-HasUniqueKeys :
      (k : K) (d : List (K × V)) → HasUniqueKeys d → HasUniqueKeys (remove k d)
  unfolding lookup remove
  remove-HasUniqueKeys k [] h = tt
  remove-HasUniqueKeys k ((i, w) ∷ d) h =
      ground (arith, remove-HasUniqueKeys k d h.1, lookup-remove k i d)

  pub keep-HasUniqueKeys :
      (p : V → Bool) (d : List (K × V)) → HasUniqueKeys d → HasUniqueKeys (keep p d)
  unfolding keep
  keep-HasUniqueKeys p [] h = tt
  keep-HasUniqueKeys p ((i, w) ∷ d) h =
      ground (arith, keep-HasUniqueKeys p d h.1, keep-none p i d h.0)
