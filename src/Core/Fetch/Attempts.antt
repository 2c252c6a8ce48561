-- ===== src/Core/Fetch/Attempts.antt =====
-- packages/core/core/pipeline/fetch.py: the history of attempts that a result carries.
use docs_pe.Common.{
  ℕ, zero, suc, ◌+◌, ◌≡◌, ◌≢◌, ◌≤◌, refl, true, false, ◌⊎◌, inl, inr, Option, none, some, List, [],
  ◌∷◌, ◌++◌, leb, length, length-append, arith, Bool-cases,
}
use docs_pe.Core.Doc.{Doc}
use docs_pe.Core.Types.{Status, Row, AttemptOutcome}
use docs_pe.Core.Breaker.{CircuitBreaker}
use docs_pe.Core.Session.{
  Exc, WorkerSession, WorkerState, Closing, Opening, new_session_raised, client_raised,
  ready_raised, opened, ensure_session, open_session, ensure_from,
}
use docs_pe.Core.Policy.{max_attempts, classify_exception}
use docs_pe.Core.Fetch.{
  Reply, Lane, LaneState, Fetched, returned, unbound_session, out_of_fuel, is_not_found, looked,
  checked, try_lookup, answered, failed_attempt, failed_result, answer, conclude, rounds, fetch_one,
}

-- Opening a session never raises RucNotFoundError: `site.ready`, the client and the proxies know no
-- document.
abbrev pub IsReady : Opening → Type 0
IsReady (new_session_raised e) = is_not_found e ≡ false
IsReady (client_raised proxy e) = is_not_found e ≡ false
IsReady (ready_raised proxy e) = is_not_found e ≡ false
IsReady (opened w) = Unit

-- Failed attempts that are numbered one after the other.
abbrev pub IsFailedRun : ℕ → List AttemptOutcome → Type 0
IsFailedRun n [] = Unit
IsFailedRun n (a ∷ xs) = (a.attempt ≡ n) × (a.status ≡ Status.failed) × IsFailedRun (n + 1) xs

pub IsFailedRun-append :
    (n : ℕ) (xs : List AttemptOutcome) (a : AttemptOutcome)
    → IsFailedRun n xs
    → a.attempt ≡ n + length xs
    → a.status ≡ Status.failed
    → IsFailedRun n (xs ++ (a ∷ []))
IsFailedRun-append n [] a run num st = (omega arith, st, tt)
IsFailedRun-append n (b ∷ xs) a run num st =
    (run.0, run.1, IsFailedRun-append (n + 1) xs a run.2 (omega arith) st)

-- A result of a lane's lookup: its attempts are failures numbered from 1 and then the attempt
-- that the result is about, a failed one only after four attempts.
abbrev pub IsComplete : Lane → Doc → Fetched → Type 0
IsComplete l doc (returned r) =
    (failures : List AttemptOutcome) × (last : AttemptOutcome) × (r.attempts
      ≡ failures ++ (last ∷ []))
    × IsFailedRun 1 failures
    × (last.attempt ≡ 1 + length failures)
    × (last.status ≡ r.status)
    × (r.attempt ≡ last.attempt)
    × (r.attempt ≤ max_attempts)
    × (r.status ≡ Status.failed → r.attempt ≡ max_attempts)
    × (r.doc ≡ doc)
    × (r.site ≡ l.site)
IsComplete l doc unbound_session = ⊥
IsComplete l doc out_of_fuel = ⊥

-- What `try_lookup` leaves: an answer of the site needs a session.
abbrev pub IsTried : LaneState → (Exc ⊎ List Row) × LaneState → Type 0
IsTried s (inl e, s') =
    (s'.attempts ≡ s.attempts)
    × (s'.breaker ≡ s.breaker)
    × (is_not_found e ≡ true → (w : WorkerSession) × (s'.session ≡ some w))
IsTried s (inr rows, s') =
    (s'.attempts ≡ s.attempts)
    × (s'.breaker ≡ s.breaker)
    × ((w : WorkerSession) × (s'.session ≡ some w))

abbrev IsOpened : (Exc ⊎ WorkerSession) × WorkerState → Type 0
IsOpened (inl e, s) = is_not_found e ≡ false
IsOpened (inr w, s) = Unit

open_session-IsOpened :
    (c : Closing) (o : Opening) (s : WorkerState) → IsReady o → IsOpened (open_session c o s)
unfolding open_session
open_session-IsOpened c (new_session_raised e) s h = h
open_session-IsOpened c (client_raised p e) s h = h
open_session-IsOpened c (ready_raised p e) s h = h
open_session-IsOpened c (opened w) s h = tt

ensure_session-IsOpened :
    (c : Closing) (o : Opening) (s : WorkerState) → IsReady o → IsOpened (ensure_session c o s)
unfolding ensure_session
ensure_session-IsOpened c o s h = opened_from s.session
  where
    opened_from : (m : Option WorkerSession) → IsOpened (ensure_from c o s m)
    opened_from none = open_session-IsOpened c o s h
    opened_from (some w) = tt

looked-IsTried :
    (l : Lane) (r : Reply) (s : LaneState) (x : (Exc ⊎ WorkerSession) × WorkerState)
    → IsOpened x
    → IsTried s (looked l r s x)
looked-IsTried l r s (inl e, w) h = ground arith
looked-IsTried l r s (inr w, st) h = tried (checked l.allows_empty r.lookup)
  where
    tried : (x : Exc ⊎ List Row) → IsTried s (x, record s { worker = st; session = some w })
    tried (inl e) = (refl, refl, λ t. (w, refl))
    tried (inr rows) = (refl, refl, (w, refl))

try_lookup-IsTried :
    (l : Lane) (r : Reply) (s : LaneState) → IsReady r.opening → IsTried s (try_lookup l r s)
unfolding try_lookup
try_lookup-IsTried l r s h =
    looked-IsTried l r s (ensure_session r.closing r.opening s.worker)
      (ensure_session-IsOpened r.closing r.opening s.worker h)

-- A state before the attempt of a number.
abbrev pub IsBefore : ℕ → LaneState → Type 0
IsBefore attempt s =
    IsFailedRun 1 s.attempts × (attempt ≡ 1 + length s.attempts) × (attempt ≤ max_attempts)

answer-IsComplete :
    (l : Lane) (doc : Doc) (attempt : ℕ) (status : Status) (rows : List Row) (r : Reply)
    (s : LaneState) (w : WorkerSession)
    → IsBefore attempt s
    → status ≢ Status.failed
    → IsComplete l doc (answer l doc attempt status rows r s (some w)).0
unfolding answered
answer-IsComplete l doc attempt status rows r s w b nf = (
  s.attempts,
  record { attempt = attempt; status = status; elapsed_ms = r.elapsed_ms; error_code = [] },
  refl,
  b.0,
  b.1,
  refl,
  refl,
  b.2,
  λ e. absurd (nf e),
  refl,
  refl,
)

IsBefore-same :
    (attempt : ℕ) (s t : LaneState)
    → t.attempts ≡ s.attempts
    → IsBefore attempt s
    → IsBefore attempt t
IsBefore-same attempt s t e b = rw e b

abbrev pub last_attempt : ℕ → Exc → Reply → Lane → AttemptOutcome
last_attempt attempt e r l = record {
  attempt = attempt;
  status = Status.failed;
  elapsed_ms = r.elapsed_ms;
  error_code = (classify_exception e.error_class l.cfg.ban_cooldown_s).error_code;
}

failed_attempt-IsBefore :
    (l : Lane) (attempt : ℕ) (e : Exc) (r : Reply) (s : LaneState)
    → IsBefore attempt s
    → attempt + 1 ≤ max_attempts
    → IsBefore (attempt + 1) (failed_attempt l attempt e r s)
unfolding failed_attempt
failed_attempt-IsBefore l attempt e r s b m =
    let a = last_attempt attempt e r l in
    (
      IsFailedRun-append 1 s.attempts a b.0 b.1 refl,
      omega (arith, b.1, length-append s.attempts (a ∷ [])),
      m,
    )

conclude-IsComplete :
    (l : Lane) (doc : Doc) (attempt : ℕ) (r : Reply) (next : LaneState → Fetched × LaneState)
    (s : LaneState) (x : (Exc ⊎ List Row) × LaneState)
    → IsBefore attempt s
    → IsTried s x
    → ((s' : LaneState) → IsBefore (attempt + 1) s' → IsComplete l doc (next s').0)
    → IsComplete l doc (conclude l doc attempt r next x).0
unfolding failed_attempt failed_result answered
conclude-IsComplete l doc attempt r next s (inr rows, t) b h k = rw h.2.1 (
    answer-IsComplete l doc attempt Status.ok rows r t h.2.0 (IsBefore-same attempt s t h.0 b)
      (ground arith))
conclude-IsComplete l doc attempt r next s (inl e, t) b h k =
    let before = IsBefore-same attempt s t h.0 b in
    let after = failed_attempt l attempt e r t in
    elim (Bool-cases (is_not_found e)) [
      | inl met ↦
          let (w, at) = h.2 met in
          rw (met, at)
            (answer-IsComplete l doc attempt Status.not_found [] r t w before (ground arith))
      | inr other ↦ elim (Bool-cases (leb max_attempts attempt)) [
        | inl last ↦
            rw (other, last)
              (
                t.attempts,
                last_attempt attempt e r l,
                refl,
                before.0,
                before.1,
                refl,
                refl,
                before.2,
                λ f. ground arith,
                refl,
                refl,
              )
        | inr more ↦
            rw (other, more)
              (k after (failed_attempt-IsBefore l attempt e r t before (ground arith)))
      ]
    ]

rounds-IsComplete :
    (fuel : ℕ) (l : Lane) (doc : Doc) (replies : ℕ → Reply) (attempt : ℕ) (s : LaneState)
    → ((n : ℕ) → IsReady (replies n).opening)
    → IsBefore attempt s
    → attempt + fuel ≡ 1 + max_attempts
    → IsComplete l doc (rounds fuel l doc replies attempt s).0
unfolding rounds
rounds-IsComplete zero l doc replies attempt s ready b f = ground arith
rounds-IsComplete (suc fuel) l doc replies attempt s ready b f =
    conclude-IsComplete l doc attempt (replies attempt) (rounds fuel l doc replies (attempt + 1)) s
      (try_lookup l (replies attempt) s) b
      (try_lookup-IsTried l (replies attempt) s (ready attempt))
      (λ s' b'. rounds-IsComplete fuel l doc replies (attempt + 1) s' ready b' (omega (arith, f)))

-- `fetch_one` returns a result for whatever the site, the proxies and the other lanes do, as long
-- as opening a session never raises RucNotFoundError: it carries all its attempts, numbered from
-- 1, of which only the last may be other than failed and has the result's status; at most four,
-- and exactly four when the document failed.
pub fetch_one-IsComplete :
    (l : Lane) (doc : Doc) (replies : ℕ → Reply) (worker : WorkerState) (breaker : CircuitBreaker)
    → ((n : ℕ) → IsReady (replies n).opening)
    → IsComplete l doc (fetch_one l doc replies worker breaker).0
unfolding fetch_one
fetch_one-IsComplete l doc replies worker breaker ready =
    rounds-IsComplete max_attempts l doc replies 1
      (record { worker = worker; breaker = breaker; session = none; attempts = [] }) ready
      (tt, refl, omega arith) refl
