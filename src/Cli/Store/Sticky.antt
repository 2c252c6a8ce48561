-- ===== src/Cli/Store/Sticky.antt =====
-- packages/cli/cli/store/outcomes.py: what later writes cannot undo.
use docs_pe.Common.{
  ℕ, ◌≡◌, ◌≤◌, refl, true, Option, none, some, List, [], ◌∷◌, Text, arith, Bool-cases, inl, inr,
}
use docs_pe.Cli.Store.{
  Outcome, is_ok, is_settled, is_terminal, Write, success, not_found, failure, import_rows, write,
  writes, outcome_of,
}
use docs_pe.Cli.Store.Lookup.{inserted, changed, same_pair, outcome_of-write}

-- What may become of a row: a done pair stays done, a success stays a success, a pair that the
-- site does not know is never a failure again, and the count of attempts does not go down.
abbrev pub IsProgress : ℕ → Outcome → Option Outcome → Type 0
IsProgress cap old none = ⊥
IsProgress cap old (some new) =
    (is_terminal cap old ≡ true → is_terminal cap new ≡ true)
    × (is_ok old.status ≡ true → is_ok new.status ≡ true)
    × (is_settled old.status ≡ true → is_settled new.status ≡ true)
    × (old.attempt_count ≤ new.attempt_count)

changed-IsProgress :
    (cap : ℕ) (now : Text) (w : Write) (old : Outcome)
    → IsProgress cap old (some (changed now w old))
changed-IsProgress cap now (success r) old = ground arith
changed-IsProgress cap now (import_rows s d rs) old = ground arith
changed-IsProgress cap now (not_found r) old = ground arith
changed-IsProgress cap now (failure r) old = ground arith

write-IsProgress :
    (cap : ℕ) (now site doc : Text) (w : Write) (rows : List Outcome) (old : Outcome)
    → outcome_of site doc rows ≡ some old
    → (new : Outcome) × (outcome_of site doc (write now w rows) ≡ some new)
      × IsProgress cap old (some new)
write-IsProgress cap now site doc w rows old h =
    elim (Bool-cases (same_pair (inserted now w) site doc)) [
      | inl hit ↦ (
        changed now w old,
        rw (outcome_of-write now site doc w rows, hit, h) refl,
        changed-IsProgress cap now w old,
      )
      | inr miss ↦ (old, rw (outcome_of-write now site doc w rows, miss) h, ground arith)
    ]

IsProgress-trans :
    (cap : ℕ) (a b : Outcome) (o : Option Outcome)
    → IsProgress cap a (some b)
    → IsProgress cap b o
    → IsProgress cap a o
IsProgress-trans cap a b none p q = q
IsProgress-trans cap a b (some c) p q =
    (λ h. q.0 (p.0 h), λ h. q.1 (p.1 h), λ h. q.2 (p.2 h), omega (arith, p.3, q.3))

-- The writes of any runs and imports, in any order, keep what they find: a row of a pair stays,
-- done if it was done, `ok` if it was `ok`, settled if it was settled, and its count of attempts
-- never goes down.
pub writes-IsProgress :
    (cap : ℕ) (site doc : Text) (ws : List (Text × Write)) (rows : List Outcome) (old : Outcome)
    → outcome_of site doc rows ≡ some old
    → IsProgress cap old (outcome_of site doc (writes ws rows))
unfolding writes
writes-IsProgress cap site doc [] rows old h = rw h (λ t. t, λ t. t, λ t. t, omega arith)
writes-IsProgress cap site doc ((now, w) ∷ ws) rows old h =
    let (new, e, p) = write-IsProgress cap now site doc w rows old h in
    let rest = writes-IsProgress cap site doc ws (write now w rows) new e in
    IsProgress-trans cap old new (outcome_of site doc (writes ws (write now w rows))) p rest
