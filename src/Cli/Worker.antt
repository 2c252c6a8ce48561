-- ===== src/Cli/Worker.antt =====
-- packages/cli/cli/pipeline/worker.py: a lane of a run, on the documents that it takes off the
-- queue. The world's replies are told for each document and each attempt at it; the writes and
-- counts of other lanes are not interleaved.
pub mod Lanes
use docs_pe.Common.{ℕ, ◌+◌, Bool, true, false, List, [], ◌∷◌, Text}
use docs_pe.Core.Doc.{Doc}
use docs_pe.Core.Types.{Status, Result, RunTotals}
use docs_pe.Core.Breaker.{CircuitBreaker}
use docs_pe.Core.Session.{WorkerState, new_state, Closing, close_session}
use docs_pe.Core.Fetch.{
  Reply, Lane, LaneState, Fetched, returned, unbound_session, out_of_fuel, fetch_one,
}
use docs_pe.Cli.Store.{Outcome, record_success, record_not_found, record_failure}

pub record Run : Type 0 where
  pub worker : WorkerState
  pub breaker : CircuitBreaker
  pub store : List Outcome
  pub totals : RunTotals

-- What a run meets: the replies to the attempts at each document, `_now()` of its write, and how
-- the last session closes.
pub record World : Type 0 where
  pub replies : ℕ → ℕ → Reply
  pub written_at : ℕ → Text
  pub at_end : Closing

abbrev pub recorded : Text → Result → Status → Run → Run
recorded now r Status.ok s = record s {
  store = record_success now r s.store;
  totals = record s.totals {
    succeeded = s.totals.succeeded + 1;
    processed = s.totals.processed + 1;
  };
}
recorded now r Status.not_found s = record s {
  store = record_not_found now r s.store;
  totals = record s.totals {
    not_found = s.totals.not_found + 1;
    processed = s.totals.processed + 1;
  };
}
recorded now r Status.failed s = record s {
  store = record_failure now r s.store;
  totals = record s.totals { failed = s.totals.failed + 1; processed = s.totals.processed + 1 };
}

-- A result is recorded and the loop goes on; an exception leaves it.
abbrev pub carry_on : Text → (Run → Bool × Run) → Run → Fetched × LaneState → Bool × Run
carry_on now next s (returned r, l) =
    next (recorded now r r.status (record s { worker = l.worker; breaker = l.breaker }))
carry_on now next s (unbound_session, l) =
    (false, record s { worker = l.worker; breaker = l.breaker })
carry_on now next s (out_of_fuel, l) = (false, record s { worker = l.worker; breaker = l.breaker })

-- The loop; whether it ended with the queue empty.
unfoldable pub work : Lane → World → ℕ → List Doc → Run → Bool × Run
work lane w i [] s = (true, s)
work lane w i (doc ∷ docs) s =
    carry_on (w.written_at i) (work lane w (i + 1) docs) s
      (fetch_one lane doc (w.replies i) s.worker s.breaker)

-- `run_worker`, with its `finally`
unfoldable pub run_worker :
    Lane → World → List Doc → CircuitBreaker → List Outcome → RunTotals → Bool × Run
unfolding work
run_worker lane w docs breaker store totals =
    let (completed, s) =
      work lane w 0 docs
        (record { worker = new_state; breaker = breaker; store = store; totals = totals }) in
    (completed, record s { worker = close_session w.at_end s.worker })
