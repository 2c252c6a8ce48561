-- ===== src/Cli/Worker/Lanes.antt =====
-- packages/cli/cli/pipeline/worker.py: what a lane's run leaves.
use docs_pe.Common.{
  ℕ, ◌+◌, ◌≡◌, refl, Bool, true, List, [], ◌∷◌, Text, length, map, none, ◌∙◌, ap, arith,
}
use docs_pe.Core.Doc.{Doc}
use docs_pe.Core.Types.{Status, Result, RunTotals}
use docs_pe.Core.Breaker.{CircuitBreaker}
use docs_pe.Core.Session.{new_state, closed}
use docs_pe.Core.Fetch.{Lane, LaneState, Fetched, returned, unbound_session, out_of_fuel, fetch_one}
use docs_pe.Core.Fetch.Attempts.{IsReady, IsComplete, fetch_one-IsComplete}
use docs_pe.Core.Fetch.Proxies.{IsBuilt, IsBalanced, fetch_one-IsBalanced, close_session-IsReleased}
use docs_pe.Cli.Store.{Outcome, Write, success, not_found, failure, import_rows, write, writes}
use docs_pe.Cli.Worker.{Run, World, recorded, carry_on, work, run_worker}

carry_on-IsBalanced :
    (now : Text) (next : Run → Bool × Run) (s : Run) (x : Fetched × LaneState)
    → IsBalanced x.1.worker
    → ((t : Run) → IsBalanced t.worker → IsBalanced (next t).1.worker)
    → IsBalanced (carry_on now next s x).1.worker
carry_on-IsBalanced now next s (returned r, l) b k =
    k (recorded now r r.status (record s { worker = l.worker; breaker = l.breaker }))
      (still r.status)
  where
    still :
        (t : Status)
        → IsBalanced (recorded now r t (record s { worker = l.worker; breaker = l.breaker })).worker
    still Status.ok = b
    still Status.not_found = b
    still Status.failed = b
carry_on-IsBalanced now next s (unbound_session, l) b k = b
carry_on-IsBalanced now next s (out_of_fuel, l) b k = b

work-IsBalanced :
    (lane : Lane) (w : World) (i : ℕ) (docs : List Doc) (s : Run)
    → ((i n : ℕ) → (w.replies i n).closing ≡ closed)
    → ((i n : ℕ) → IsBuilt (w.replies i n).opening)
    → IsBalanced s.worker
    → IsBalanced (work lane w i docs s).1.worker
unfolding work
work-IsBalanced lane w i [] s c k b = b
work-IsBalanced lane w i (doc ∷ docs) s c k b =
    carry_on-IsBalanced (w.written_at i) (work lane w (i + 1) docs) s
      (fetch_one lane doc (w.replies i) s.worker s.breaker)
      (fetch_one-IsBalanced lane doc (w.replies i) s.worker s.breaker (c i) (k i) b)
      (λ t h. work-IsBalanced lane w (i + 1) docs t c k h)

-- A lane that ends, also on an exception, has no session open, and it has released every proxy
-- that the provider handed out to it, in the same order, if a client was built for each of them and
-- no close raised an exception.
pub run_worker-releases :
    (lane : Lane) (w : World) (docs : List Doc) (breaker : CircuitBreaker) (store : List Outcome)
    (totals : RunTotals)
    → ((i n : ℕ) → (w.replies i n).closing ≡ closed)
    → ((i n : ℕ) → IsBuilt (w.replies i n).opening)
    → w.at_end ≡ closed
    → (let s = (run_worker lane w docs breaker store totals).1.worker in
        (s.session ≡ none) × (s.handed_out ≡ s.released))
unfolding run_worker
run_worker-releases lane w docs breaker store totals c k e =
    let start : Run = record {
      worker = new_state;
      breaker = breaker;
      store = store;
      totals = totals;
    } in
    let s = (work lane w 0 docs start).1.worker in
    rw e (close_session-IsReleased s (work-IsBalanced lane w 0 docs start c k refl))

abbrev pub target : Write → Text × Text
target (success r) = (r.site, r.doc.value)
target (not_found r) = (r.site, r.doc.value)
target (failure r) = (r.site, r.doc.value)
target (import_rows site doc rows) = (site, doc)

abbrev pub pairs : Lane → List Doc → List (Text × Text)
pairs lane docs = map (λ d. (lane.site, d.value)) docs

-- A run over documents: it ends with the queue empty, it has written one outcome for each
-- document, in order, under the lane's site, and it has counted each of them once.
abbrev pub IsWorked : Lane → List Doc → Run → Bool × Run → Type 0
IsWorked lane docs s (completed, t) =
    (completed ≡ true)
    × ((ws : List (Text × Write)) × (t.store ≡ writes ws s.store)
        × (map (λ w. target w.1) ws ≡ pairs lane docs))
    × (t.totals.processed ≡ s.totals.processed + length docs)
    × (t.totals.succeeded + t.totals.not_found + t.totals.failed
        ≡ s.totals.succeeded + s.totals.not_found + s.totals.failed + length docs)

abbrev written : Result → Status → Write
written r Status.ok = success r
written r Status.not_found = not_found r
written r Status.failed = failure r

written-target : (r : Result) (t : Status) → target (written r t) ≡ (r.site, r.doc.value)
written-target r Status.ok = refl
written-target r Status.not_found = refl
written-target r Status.failed = refl

recorded-store :
    (now : Text) (r : Result) (t : Status) (s : Run)
    → (recorded now r t s).store ≡ write now (written r t) s.store
unfolding write
recorded-store now r Status.ok s = refl
recorded-store now r Status.not_found s = refl
recorded-store now r Status.failed s = refl

recorded-totals :
    (now : Text) (r : Result) (t : Status) (s : Run)
    → (let u = (recorded now r t s).totals in
        (u.processed ≡ s.totals.processed + 1)
        × (u.succeeded + u.not_found + u.failed
            ≡ s.totals.succeeded + s.totals.not_found + s.totals.failed + 1))
recorded-totals now r Status.ok s = ground arith
recorded-totals now r Status.not_found s = ground arith
recorded-totals now r Status.failed s = ground arith

recorded-IsWorked :
    (lane : Lane) (doc : Doc) (docs : List Doc) (now : Text) (r : Result) (t : Status) (s : Run)
    (x : Bool × Run)
    → r.doc ≡ doc
    → r.site ≡ lane.site
    → IsWorked lane docs (recorded now r t s) x
    → IsWorked lane (doc ∷ docs) s x
unfolding writes
recorded-IsWorked lane doc docs now r t s x hd hs h =
    let (ws, e, p) = h.1 in
    let u = recorded-totals now r t s in
    let e' : x.1.store ≡ writes ws (write now (written r t) s.store) =
      e ∙ ap (writes ws) (recorded-store now r t s) in
    let here : target (written r t) ≡ (lane.site, doc.value) =
      written-target r t ∙ ground (arith, hd, hs) in
    (
      h.0,
      (
        (now, written r t) ∷ ws,
        e',
        ap (λ a. a ∷ map (λ w. target w.1) ws) here ∙ ap (λ zs. (lane.site, doc.value) ∷ zs) p,
      ),
      omega (arith, u.0, h.2),
      omega (arith, u.1, h.3),
    )

carry_on-IsWorked :
    (lane : Lane) (doc : Doc) (docs : List Doc) (now : Text) (next : Run → Bool × Run) (s : Run)
    (x : Fetched × LaneState)
    → IsComplete lane doc x.0
    → ((t : Run) → IsWorked lane docs t (next t))
    → IsWorked lane (doc ∷ docs) s (carry_on now next s x)
carry_on-IsWorked lane doc docs now next s (returned r, l) c k =
    let s' : Run = record s { worker = l.worker; breaker = l.breaker } in
    recorded-IsWorked lane doc docs now r r.status s' (next (recorded now r r.status s')) c.9 c.10
      (k (recorded now r r.status s'))
carry_on-IsWorked lane doc docs now next s (unbound_session, l) c k = absurd c
carry_on-IsWorked lane doc docs now next s (out_of_fuel, l) c k = absurd c

work-IsWorked :
    (lane : Lane) (w : World) (i : ℕ) (docs : List Doc) (s : Run)
    → ((i n : ℕ) → IsReady (w.replies i n).opening)
    → IsWorked lane docs s (work lane w i docs s)
unfolding work writes
work-IsWorked lane w i [] s ready = (refl, ([], refl, refl), omega arith, omega arith)
work-IsWorked lane w i (doc ∷ docs) s ready =
    carry_on-IsWorked lane doc docs (w.written_at i) (work lane w (i + 1) docs) s
      (fetch_one lane doc (w.replies i) s.worker s.breaker)
      (fetch_one-IsComplete lane doc (w.replies i) s.worker s.breaker (ready i))
      (λ t. work-IsWorked lane w (i + 1) docs t ready)

-- A lane's run over its documents ends with the queue empty when opening a session never raises
-- RucNotFoundError: it writes one outcome for each document, in order and under the lane's site,
-- it counts each document once as processed, and once among the three outcomes.
pub run_worker-IsWorked :
    (lane : Lane) (w : World) (docs : List Doc) (breaker : CircuitBreaker) (store : List Outcome)
    (totals : RunTotals)
    → ((i n : ℕ) → IsReady (w.replies i n).opening)
    → IsWorked lane docs
        (record { worker = new_state; breaker = breaker; store = store; totals = totals })
        (run_worker lane w docs breaker store totals)
unfolding run_worker
run_worker-IsWorked lane w docs breaker store totals ready =
    work-IsWorked lane w 0 docs
      (record { worker = new_state; breaker = breaker; store = store; totals = totals }) ready
