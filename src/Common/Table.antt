-- ===== src/Common/Table.antt =====
-- A database table is the list of its rows, and a statement a function of the list.
use Prim.Native.Nat.{ℕ, suc}
use mathlib.Core.Bool.{Bool}
use mathlib.Core.Option.{Option, none, some}
use mathlib.Core.List.{List, [], ◌∷◌}
use docs_pe.Common.Tests.{if◌then◌else◌}

module _ {ℓ} {R : Type ℓ} where
  -- SELECT … WHERE p
  abbrev pub select : (R → Bool) → List R → List R
  select p [] = []
  select p (r ∷ rs) = let rest = select p rs in if p r then r ∷ rest else rest

  -- SELECT … WHERE p LIMIT 1
  abbrev pub first : (R → Bool) → List R → Option R
  first p [] = none
  first p (r ∷ rs) = let rest = first p rs in if p r then some r else rest

  -- SELECT count(*) … WHERE p
  abbrev pub count : (R → Bool) → List R → ℕ
  count p [] = 0
  count p (r ∷ rs) = if p r then suc (count p rs) else count p rs

  -- UPDATE … SET f WHERE p
  abbrev pub update : (R → Bool) → (R → R) → List R → List R
  update p f [] = []
  update p f (r ∷ rs) = (if p r then f r else r) ∷ update p f rs

  -- DELETE … WHERE p
  abbrev pub delete : (R → Bool) → List R → List R
  delete p [] = []
  delete p (r ∷ rs) = let rest = delete p rs in if p r then rest else r ∷ rest
