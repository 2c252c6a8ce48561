-- ===== src/Cli/Store/Retire.antt =====
-- packages/cli/cli/store/outcomes.py with MAX_TOTAL_ATTEMPTS of core/domain/policy.py: when the
-- failures of a document retire it.
use docs_pe.Common.{
  ℕ, ◌+◌, ◌≡◌, refl, true, Option, none, some, List, [], ◌∷◌, Text, text_eq_iff, leb, arith,
}
use docs_pe.Core.Types.{Status, Result}
use docs_pe.Cli.Store.{
  Outcome, counted_attempts, Write, failure, write, writes, outcome_of, is_terminal, failed_row,
  set_failed,
}
use docs_pe.Cli.Store.Lookup.{inserted, merged, same_pair, outcome_of-write}

-- The failures of one pair, as they come.
abbrev pub Failures : Text → Text → List (Text × Result) → Type 0
Failures site doc [] = Unit
Failures site doc ((now, r) ∷ rs) = (r.site ≡ site) × (r.doc.value ≡ doc) × Failures site doc rs

abbrev pub failures : List (Text × Result) → List (Text × Write)
failures [] = []
failures ((now, r) ∷ rs) = (now, failure r) ∷ failures rs

abbrev pub total : List (Text × Result) → ℕ
total [] = 0
total ((now, r) ∷ rs) = counted_attempts r + total rs

-- The row of a pair that has only failed.
abbrev pub HasFailed : ℕ → Option Outcome → Type 0
HasFailed n none = ⊥
HasFailed n (some r) = (r.status ≡ Status.failed) × (r.attempt_count ≡ n)

failed_row_once :
    (now : Text) (r : Result) (o : Option Outcome) (n : ℕ)
    → HasFailed n o
    → HasFailed (n + counted_attempts r) (some (merged (failed_row now r) (set_failed now r) o))
failed_row_once now r none n h = ground arith
failed_row_once now r (some old) n h = ground arith

retired :
    (cap : ℕ) (o : Option Outcome) (n : ℕ)
    → HasFailed n o
    → (row : Outcome) × (o ≡ some row) × (row.attempt_count ≡ n) × (is_terminal cap row ≡ leb cap n)
retired cap none n h = ground arith
retired cap (some row) n h = (row, refl, h.1, ground arith)

is_mine :
    (now site doc : Text) (r : Result)
    → r.site ≡ site
    → r.doc.value ≡ doc
    → same_pair (inserted now (failure r)) site doc ≡ true
is_mine now site doc r hs hd = ground (arith, text_eq_iff r.site site, text_eq_iff r.doc.value doc)

failed_once :
    (now site doc : Text) (r : Result) (rows : List Outcome) (n : ℕ)
    → r.site ≡ site
    → r.doc.value ≡ doc
    → HasFailed n (outcome_of site doc rows)
    → HasFailed (n + counted_attempts r) (outcome_of site doc (write now (failure r) rows))
failed_once now site doc r rows n hs hd h =
    rw (outcome_of-write now site doc (failure r) rows, is_mine now site doc r hs hd)
      (failed_row_once now r (outcome_of site doc rows) n h)

failed_many :
    (site doc : Text) (rs : List (Text × Result)) (rows : List Outcome) (n : ℕ)
    → Failures site doc rs
    → HasFailed n (outcome_of site doc rows)
    → HasFailed (n + total rs) (outcome_of site doc (writes (failures rs) rows))
unfolding writes
failed_many site doc [] rows n fs h = let e : n + 0 ≡ n = omega arith in rw e h
failed_many site doc ((now, r) ∷ rs) rows n fs h =
    let rest =
      failed_many site doc rs (write now (failure r) rows) (n + counted_attempts r) fs.2
        (failed_once now site doc r rows n fs.0 fs.1 h) in
    let e : n + (counted_attempts r + total rs) ≡ n + counted_attempts r + total rs = omega arith in
    rw e rest

first_failure :
    (now site doc : Text) (r : Result) (rows : List Outcome)
    → r.site ≡ site
    → r.doc.value ≡ doc
    → outcome_of site doc rows ≡ none
    → HasFailed (counted_attempts r) (outcome_of site doc (write now (failure r) rows))
first_failure now site doc r rows hs hd h =
    rw (outcome_of-write now site doc (failure r) rows, is_mine now site doc r hs hd, h)
      (refl, refl)

-- A pair with no row that only fails, at least once: its row counts the attempts of all failures
-- but those that met an open breaker, and the pair is done exactly when that sum has reached the cap.
pub failures_retire :
    (cap : ℕ) (site doc now : Text) (r : Result) (rs : List (Text × Result)) (rows : List Outcome)
    → outcome_of site doc rows ≡ none
    → Failures site doc ((now, r) ∷ rs)
    → (row : Outcome) × (outcome_of site doc (writes (failures ((now, r) ∷ rs)) rows) ≡ some row)
      × (row.attempt_count ≡ total ((now, r) ∷ rs))
      × (is_terminal cap row ≡ leb cap (total ((now, r) ∷ rs)))
unfolding writes
failures_retire cap site doc now r rs rows h fs =
    retired cap (outcome_of site doc (writes (failures rs) (write now (failure r) rows)))
      (total ((now, r) ∷ rs))
      (failed_many site doc rs (write now (failure r) rows) (counted_attempts r) fs.2
        (first_failure now site doc r rows fs.0 fs.1 h))
