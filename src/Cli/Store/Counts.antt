-- ===== src/Cli/Store/Counts.antt =====
-- packages/cli/cli/store/outcomes.py: what `counts` and `done_pairs` report of one table.
use docs_pe.Common.{ℕ, ◌+◌, ◌≡◌, List, [], ◌∷◌, Text, text_eq, arith, length}
use docs_pe.Common.Table.{select}
use docs_pe.Cli.Store.{Outcome, counts, done_pairs}

-- Rows of a site.
abbrev pub rows_of : Text → List Outcome → List Outcome
rows_of site = select (λ r. text_eq r.site site)

-- The four counts of a site add up to its rows: every row is a success, a document that the
-- site does not know, a retired failure or one to retry, and exactly one of these; and the three
-- that are done are as many as the pairs of the site that `done_pairs` skips.
pub counts_total :
    (site : Text) (cap : ℕ) (rows : List Outcome)
    → let c = counts site cap rows in
      (c.succeeded + c.not_found + c.terminal_failed + c.retryable ≡ length (rows_of site rows))
      × (c.succeeded + c.not_found + c.terminal_failed
          ≡ length (select (λ p. text_eq p.0 site) (done_pairs cap rows)))
unfolding counts done_pairs
counts_total site cap [] = ground arith
counts_total site cap (r ∷ rows) = ground (arith, counts_total site cap rows)
