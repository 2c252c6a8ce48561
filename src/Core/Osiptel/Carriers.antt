-- ===== src/Core/Osiptel/Carriers.antt =====
-- packages/core/core/sites/osiptel/site.py: what `_counts` counts.
use docs_pe.Common.{
  ℕ, ◌+◌, ◌≡◌, refl, ap, ◌∙◌, Bool, Option, none, some, List, [], ◌∷◌, Text, length, if◌then◌else◌,
  arith, text_eq, text_eq_iff, Bool-cases, inl, inr,
}
use docs_pe.Common.Dict.{lookup, put, HasUniqueKeys, lookup-put, put-HasUniqueKeys}
use docs_pe.Common.Table.{count}
use docs_pe.Common.Eq.{text_eq_key}
use docs_pe.Core.Types.{Row}
use docs_pe.Core.Osiptel.Paging.{
  bumped, tally, carrier_of, tallies, insert_sorted, sorted, count_rows, counts,
}

-- The number that a dictionary has for a carrier.
abbrev pub amount : Option ℕ → ℕ
amount none = 0
amount (some n) = n

abbrev pub sum : List (Text × ℕ) → ℕ
sum [] = 0
sum ((carrier, n) ∷ es) = n + sum es

abbrev pub has_carrier : Text → Row → Bool
has_carrier carrier row = text_eq (carrier_of row) carrier

sum-put :
    (k : Text) (counts : List (Text × ℕ))
    → sum (put k (bumped (lookup k counts)) counts) ≡ sum counts + 1
unfolding put lookup
sum-put k [] = ground arith
sum-put k ((j, n) ∷ es) = ground (arith, sum-put k es)

tallies_lem :
    (carrier : Text) (rows : List Row) (es : List (Text × ℕ))
    → HasUniqueKeys es
    → (amount (lookup carrier (tallies rows es))
        ≡ amount (lookup carrier es) + count (has_carrier carrier) rows)
      × (sum (tallies rows es) ≡ sum es + length rows)
      × HasUniqueKeys (tallies rows es)
unfolding tallies tally
tallies_lem carrier [] es w = (omega arith, omega arith, w)
tallies_lem carrier (row ∷ rows) es w =
    let k = carrier_of row in
    let n = bumped (lookup k es) in
    let (a, b, c) = tallies_lem carrier rows (put k n es) (put-HasUniqueKeys k n es w) in
    (
      elim (Bool-cases (text_eq k carrier)) [
        | inl e ↦
            let same_one : k ≡ carrier = (text_eq_iff k carrier).0 e in
            ground (arith, a, e, lookup-put k carrier n es, same_one)
        | inr e ↦ ground (arith, a, e, lookup-put k carrier n es)
      ],
      omega (arith, b, sum-put k es),
      c,
    )

lookup-insert_sorted :
    (k carrier : Text) (n : ℕ) (es : List (Text × ℕ))
    → lookup k es ≡ none
    → lookup carrier (insert_sorted (k, n) es)
      ≡ (if text_eq k carrier then some n else lookup carrier es)
unfolding insert_sorted lookup
lookup-insert_sorted k carrier n [] h = ground arith
lookup-insert_sorted k carrier n ((j, m) ∷ es) h = ground (
  arith,
  lookup-insert_sorted k carrier n es,
  text_eq_iff j k,
  text_eq_iff j carrier,
  text_eq_iff k carrier,
)

sum-insert_sorted :
    (k : Text) (n : ℕ) (es : List (Text × ℕ)) → sum (insert_sorted (k, n) es) ≡ n + sum es
unfolding insert_sorted
sum-insert_sorted k n [] = refl
sum-insert_sorted k n ((j, m) ∷ es) = ground (arith, sum-insert_sorted k n es)

sorted_lem :
    (carrier : Text) (es : List (Text × ℕ))
    → HasUniqueKeys es
    → (lookup carrier (sorted es) ≡ lookup carrier es) × (sum (sorted es) ≡ sum es)
unfolding sorted lookup
sorted_lem carrier [] w = (refl, refl)
sorted_lem carrier ((j, m) ∷ es) w =
    let free : lookup j (sorted es) ≡ none = (sorted_lem j es w.1).0 ∙ w.0 in
    (
      ground
          (arith, lookup-insert_sorted j carrier m (sorted es) free, (sorted_lem carrier es w.1).0),
      sum-insert_sorted j m (sorted es) ∙ ap (λ n. m + n) (sorted_lem carrier es w.1).1,
    )

counted :
    (carrier : Text) (rows : List Row)
    → amount (lookup carrier (sorted (tallies rows []))) ≡ count (has_carrier carrier) rows
unfolding lookup
counted carrier rows =
    let (a, b, c) = tallies_lem carrier rows [] tt in
    omega (arith, ap amount (sorted_lem carrier (tallies rows []) c).0, a)

-- The projection has a row for each carrier of the lines, with the number of its lines and that of
-- all lines: what it counts for a carrier is the number of lines that have it, and the counts of all
-- carriers add up to the lines.
pub counts_lem :
    (rows : List Row)
    → (entries : List (Text × ℕ)) × (counts rows ≡ count_rows (length rows) entries)
      × ((carrier : Text) → amount (lookup carrier entries) ≡ count (has_carrier carrier) rows)
      × (sum entries ≡ length rows)
unfolding counts
counts_lem rows = (
  sorted (tallies rows []),
  refl,
  λ carrier. counted carrier rows,
  let (a, b, c) = tallies_lem [] rows [] tt in
      let (e, f) = sorted_lem [] (tallies rows []) c in omega (arith, f, b),
)
