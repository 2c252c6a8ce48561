-- ===== src/Core/Fetch/Shared.antt =====
-- packages/core/core/pipeline/fetch.py with breaker.py: what a lane tells the breaker.
use docs_pe.Common.{
  ℕ, zero, suc, ◌+◌, ◌≡◌, refl, ◌⊎◌, inl, inr, Option, none, some, List, [], ◌∷◌, ◌++◌, leb, arith,
  Bool-cases,
}
use docs_pe.Core.Doc.{Doc}
use docs_pe.Core.Types.{Status, Row, AttemptOutcome}
use docs_pe.Core.Breaker.{Clock, CircuitBreaker, Outcome, record_outcome, replay}
use docs_pe.Core.Session.{Exc, WorkerSession, WorkerState, ensure_session}
use docs_pe.Core.Policy.{max_attempts}
use docs_pe.Core.Fetch.Attempts.{last_attempt}
use docs_pe.Core.Fetch.{
  Reply, Lane, LaneState, Fetched, is_not_found, try_lookup, looked, answered, failed_attempt,
  answer, conclude, rounds, fetch_one,
}

-- What the breaker is told while an attempt runs: by the other lanes, then of this attempt, then
-- by the other lanes again if the attempt failed.
abbrev pub told_by : Reply → Outcome → List (Clock × Outcome)
told_by r Outcome.success = r.others_before ++ ((r.now, Outcome.success) ∷ [])
told_by r Outcome.failure = r.others_before ++ ((r.now, Outcome.failure) ∷ r.others_closing)

abbrev pub told_status : Status → Outcome
told_status Status.failed = Outcome.failure
told_status Status.ok = Outcome.success
told_status Status.not_found = Outcome.success

abbrev pub told : AttemptOutcome → Outcome
told a = told_status a.status

-- The history of the breaker that a list of attempts stands for.
abbrev pub history : (ℕ → Reply) → List AttemptOutcome → List (Clock × Outcome)
history replies [] = []
history replies (a ∷ rest) = told_by (replies a.attempt) (told a) ++ history replies rest

pub replay-append :
    (xs ys : List (Clock × Outcome)) (b : CircuitBreaker)
    → replay (xs ++ ys) b ≡ replay ys (replay xs b)
unfolding replay
replay-append [] ys b = refl
replay-append ((now, o) ∷ xs) ys b = replay-append xs ys (record_outcome now o b)

history-append :
    (replies : ℕ → Reply) (xs : List AttemptOutcome) (a : AttemptOutcome) (b : CircuitBreaker)
    → replay (history replies (xs ++ (a ∷ []))) b
      ≡ replay (told_by (replies a.attempt) (told a)) (replay (history replies xs) b)
unfolding replay
history-append replies [] a b =
    ground (arith, replay-append (told_by (replies a.attempt) (told a)) [] b)
history-append replies (x ∷ xs) a b =
    rw
      (
        replay-append (told_by (replies x.attempt) (told x)) (history replies (xs ++ (a ∷ []))) b,
        replay-append (told_by (replies x.attempt) (told x)) (history replies xs) b,
      )
      (history-append replies xs a (replay (told_by (replies x.attempt) (told x)) b))

-- The breaker of a lane's state is the one that its attempts stand for.
abbrev pub IsShared : (ℕ → Reply) → CircuitBreaker → LaneState → Type 0
IsShared replies b s = s.breaker ≡ replay (history replies s.attempts) b

looked-IsShared :
    (l : Lane) (r : Reply) (s : LaneState) (x : (Exc ⊎ WorkerSession) × WorkerState)
    (replies : ℕ → Reply) (b : CircuitBreaker)
    → IsShared replies b s
    → IsShared replies b (looked l r s x).1
looked-IsShared l r s (inl e, w) replies b h = h
looked-IsShared l r s (inr v, w) replies b h = h

answer-IsShared :
    (l : Lane) (doc : Doc) (attempt : ℕ) (status : Status) (rows : List Row) (s : LaneState)
    (m : Option WorkerSession) (replies : ℕ → Reply) (b : CircuitBreaker)
    → told_status status ≡ Outcome.success
    → IsShared replies b s
    → IsShared replies b (answer l doc attempt status rows (replies attempt) s m).1
unfolding answered replay record_outcome
answer-IsShared l doc attempt status rows s none replies b t h = h
answer-IsShared l doc attempt status rows s (some w) replies b t h =
    let r = replies attempt in
    let a : AttemptOutcome = record {
      attempt = attempt;
      status = status;
      elapsed_ms = r.elapsed_ms;
      error_code = [];
    } in
    rw
      (
        history-append replies s.attempts a b,
        t,
        replay-append r.others_before ((r.now, Outcome.success) ∷ [])
            (replay (history replies s.attempts) b),
        h,
      )
      refl

failed_attempt-IsShared :
    (l : Lane) (attempt : ℕ) (e : Exc) (s : LaneState) (replies : ℕ → Reply) (b : CircuitBreaker)
    → IsShared replies b s
    → IsShared replies b (failed_attempt l attempt e (replies attempt) s)
unfolding failed_attempt replay record_outcome
failed_attempt-IsShared l attempt e s replies b h =
    let r = replies attempt in
    let a = last_attempt attempt e r l in
    rw
      (
        history-append replies s.attempts a b,
        replay-append r.others_before ((r.now, Outcome.failure) ∷ r.others_closing)
            (replay (history replies s.attempts) b),
        h,
      )
      refl

conclude-IsShared :
    (l : Lane) (doc : Doc) (attempt : ℕ) (next : LaneState → Fetched × LaneState)
    (x : (Exc ⊎ List Row) × LaneState) (replies : ℕ → Reply) (b : CircuitBreaker)
    → IsShared replies b x.1
    → ((s : LaneState) → IsShared replies b s → IsShared replies b (next s).1)
    → IsShared replies b (conclude l doc attempt (replies attempt) next x).1
conclude-IsShared l doc attempt next (inr rows, s) replies b h k =
    answer-IsShared l doc attempt Status.ok rows s s.session replies b refl h
conclude-IsShared l doc attempt next (inl e, s) replies b h k =
    let s' = failed_attempt l attempt e (replies attempt) s in
    let h' = failed_attempt-IsShared l attempt e s replies b h in
    elim (Bool-cases (is_not_found e)) [
      | inl met ↦
          rw met (answer-IsShared l doc attempt Status.not_found [] s s.session replies b refl h)
      | inr other ↦ elim (Bool-cases (leb max_attempts attempt)) [
        | inl last ↦ rw (other, last) h'
        | inr more ↦ rw (other, more) (k s' h')
      ]
    ]

rounds-IsShared :
    (fuel : ℕ) (l : Lane) (doc : Doc) (replies : ℕ → Reply) (attempt : ℕ) (s : LaneState)
    (b : CircuitBreaker)
    → IsShared replies b s
    → IsShared replies b (rounds fuel l doc replies attempt s).1
unfolding rounds try_lookup
rounds-IsShared zero l doc replies attempt s b h = h
rounds-IsShared (suc fuel) l doc replies attempt s b h =
    let r = replies attempt in
    conclude-IsShared l doc attempt (rounds fuel l doc replies (attempt + 1)) (try_lookup l r s)
      replies b (looked-IsShared l r s (ensure_session r.closing r.opening s.worker) replies b h)
      (λ s' h'. rounds-IsShared fuel l doc replies (attempt + 1) s' b h')

-- The breaker that `fetch_one` leaves is the one that results when each attempt, in order, tells it
-- one outcome: a failure for a failed attempt, a success for an answer of the site, also when the
-- answer is that the document is unknown; with what the other lanes tell it in between.
pub fetch_one-IsShared :
    (l : Lane) (doc : Doc) (replies : ℕ → Reply) (worker : WorkerState) (breaker : CircuitBreaker)
    → (let s = (fetch_one l doc replies worker breaker).1 in
        s.breaker ≡ replay (history replies s.attempts) breaker)
unfolding fetch_one replay
fetch_one-IsShared l doc replies worker breaker =
    rounds-IsShared max_attempts l doc replies 1
      (record { worker = worker; breaker = breaker; session = none; attempts = [] }) breaker refl
