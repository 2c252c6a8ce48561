-- ===== src/Core/Fetch/Proxies.antt =====
-- packages/core/core/pipeline/session.py and fetch.py: the proxies that a lane holds.
use docs_pe.Common.{
  ℕ, zero, suc, ◌+◌, ◌≡◌, refl, ◌⊎◌, inl, inr, Option, none, some, List, [], ◌∷◌, ◌++◌, Text, leb,
  ltb, arith, Bool-cases,
}
use docs_pe.Core.Doc.{Doc}
use docs_pe.Core.Types.{Status, Row}
use docs_pe.Core.Breaker.{CircuitBreaker}
use docs_pe.Core.Policy.{max_attempts, classify_exception}
use docs_pe.Core.Session.{
  Exc, WorkerConfig, WorkerSession, WorkerState, closed, Opening, new_session_raised, client_raised,
  ready_raised, opened, ensure_session, open_session, ensure_from, close_from, close_session,
  used_from, after_success, rotate_session, has_closed, cooled, noted,
}
use docs_pe.Core.Fetch.{
  Reply, Lane, LaneState, Fetched, is_not_found, looked, try_lookup, answered, failed_attempt,
  answer, conclude, rounds, fetch_one,
}

-- A client is built for each proxy that is handed out.
abbrev pub IsBuilt : Opening → Type 0
IsBuilt (client_raised proxy e) = ⊥
IsBuilt (new_session_raised e) = Unit
IsBuilt (ready_raised proxy e) = Unit
IsBuilt (opened w) = Unit

abbrev pub held : Option WorkerSession → List Text
held none = []
held (some w) = w.proxy ∷ []

-- Every proxy that was handed out is released, or it is the one of the open session.
abbrev pub IsBalanced : WorkerState → Type 0
IsBalanced s = s.handed_out ≡ held s.session ++ s.released

open_session-IsBalanced :
    (o : Opening) (s : WorkerState)
    → IsBuilt o
    → s.session ≡ none
    → IsBalanced s
    → IsBalanced (open_session closed o s).1
unfolding open_session
open_session-IsBalanced (client_raised p e) s k n b = absurd k
open_session-IsBalanced (new_session_raised e) s k n b = b
open_session-IsBalanced (ready_raised p e) s k n b = ground arith
open_session-IsBalanced (opened w) s k n b = ground arith

ensure_session-IsBalanced :
    (o : Opening) (s : WorkerState)
    → IsBuilt o
    → IsBalanced s
    → IsBalanced (ensure_session closed o s).1
unfolding ensure_session
ensure_session-IsBalanced o s k b = balanced_from s.session refl
  where
    balanced_from :
        (m : Option WorkerSession) → s.session ≡ m → IsBalanced (ensure_from closed o s m).1
    balanced_from none e = open_session-IsBalanced o s k e b
    balanced_from (some w) e = b

pub close_session-IsReleased :
    (s : WorkerState)
    → IsBalanced s
    → (let s' = close_session closed s in (s'.session ≡ none) × (s'.handed_out ≡ s'.released))
unfolding close_session
close_session-IsReleased s b = closed_from s.session refl
  where
    closed_from :
        (m : Option WorkerSession)
        → s.session ≡ m
        → (let s' = close_from closed s m in (s'.session ≡ none) × (s'.handed_out ≡ s'.released))
    closed_from none e = ground arith
    closed_from (some w) e = ground arith

close_session-IsBalanced : (s : WorkerState) → IsBalanced s → IsBalanced (close_session closed s)
close_session-IsBalanced s b = let c = close_session-IsReleased s b in ground arith

after_success-IsBalanced :
    (cfg : WorkerConfig) (s : WorkerState) → IsBalanced s → IsBalanced (after_success cfg closed s)
unfolding after_success
after_success-IsBalanced cfg s b = used s.session
  where
    used : (m : Option WorkerSession) → IsBalanced (used_from cfg closed s m)
    used none = b
    used (some w) = ground (arith, close_session-IsBalanced (record s { uses = s.uses + 1 }) b)

noted-IsBalanced :
    (m : Option WorkerSession) (s : WorkerState) → IsBalanced s → IsBalanced (noted m s)
noted-IsBalanced none s b = b
noted-IsBalanced (some w) s b = b

cooled-IsBalanced :
    (now cooldown : ℕ) (s : WorkerState) → IsBalanced s → IsBalanced (cooled now cooldown s)
cooled-IsBalanced now cooldown s b = elim (Bool-cases (ltb 0 cooldown)) [
  | inl e ↦ rw e b
  | inr e ↦ rw e b
]

rotate_session-IsBalanced :
    (now cooldown : ℕ) (s : WorkerState)
    → IsBalanced s
    → IsBalanced (rotate_session now closed cooldown s)
unfolding rotate_session
rotate_session-IsBalanced now cooldown s b =
    let s' = close_session closed (noted s.session s) in
    let b' = close_session-IsBalanced (noted s.session s) (noted-IsBalanced s.session s b) in
    elim (Bool-cases (has_closed closed s.session)) [
      | inl e ↦ rw e (cooled-IsBalanced now cooldown s' b')
      | inr e ↦ rw e b'
    ]

looked-IsBalanced :
    (l : Lane) (r : Reply) (s : LaneState) (x : (Exc ⊎ WorkerSession) × WorkerState)
    → IsBalanced x.1
    → IsBalanced (looked l r s x).1.worker
looked-IsBalanced l r s (inl e, w) b = b
looked-IsBalanced l r s (inr v, w) b = b

try_lookup-IsBalanced :
    (l : Lane) (r : Reply) (s : LaneState)
    → r.closing ≡ closed
    → IsBuilt r.opening
    → IsBalanced s.worker
    → IsBalanced (try_lookup l r s).1.worker
unfolding try_lookup
try_lookup-IsBalanced l r s c k b =
    looked-IsBalanced l r s (ensure_session r.closing r.opening s.worker)
      (rw c (ensure_session-IsBalanced r.opening s.worker k b))

answer-IsBalanced :
    (l : Lane) (doc : Doc) (attempt : ℕ) (status : Status) (rows : List Row) (r : Reply)
    (s : LaneState) (m : Option WorkerSession)
    → r.closing ≡ closed
    → IsBalanced s.worker
    → IsBalanced (answer l doc attempt status rows r s m).1.worker
unfolding answered
answer-IsBalanced l doc attempt status rows r s none c b = b
answer-IsBalanced l doc attempt status rows r s (some w) c b =
    rw c (after_success-IsBalanced l.cfg s.worker b)

failed_attempt-IsBalanced :
    (l : Lane) (attempt : ℕ) (e : Exc) (r : Reply) (s : LaneState)
    → r.closing ≡ closed
    → IsBalanced s.worker
    → IsBalanced (failed_attempt l attempt e r s).worker
unfolding failed_attempt
failed_attempt-IsBalanced l attempt e r s c b = rw c (
    rotate_session-IsBalanced r.now.monotonic
      (classify_exception e.error_class l.cfg.ban_cooldown_s).cooldown_s s.worker b)

conclude-IsBalanced :
    (l : Lane) (doc : Doc) (attempt : ℕ) (r : Reply) (next : LaneState → Fetched × LaneState)
    (x : (Exc ⊎ List Row) × LaneState)
    → r.closing ≡ closed
    → IsBalanced x.1.worker
    → ((s : LaneState) → IsBalanced s.worker → IsBalanced (next s).1.worker)
    → IsBalanced (conclude l doc attempt r next x).1.worker
conclude-IsBalanced l doc attempt r next (inr rows, s) c b k =
    answer-IsBalanced l doc attempt Status.ok rows r s s.session c b
conclude-IsBalanced l doc attempt r next (inl e, s) c b k =
    let s' = failed_attempt l attempt e r s in
    let b' = failed_attempt-IsBalanced l attempt e r s c b in
    elim (Bool-cases (is_not_found e)) [
      | inl met ↦ rw met (answer-IsBalanced l doc attempt Status.not_found [] r s s.session c b)
      | inr other ↦ elim (Bool-cases (leb max_attempts attempt)) [
        | inl last ↦ rw (other, last) b'
        | inr more ↦ rw (other, more) (k s' b')
      ]
    ]

rounds-IsBalanced :
    (fuel : ℕ) (l : Lane) (doc : Doc) (replies : ℕ → Reply) (attempt : ℕ) (s : LaneState)
    → ((n : ℕ) → (replies n).closing ≡ closed)
    → ((n : ℕ) → IsBuilt (replies n).opening)
    → IsBalanced s.worker
    → IsBalanced (rounds fuel l doc replies attempt s).1.worker
unfolding rounds
rounds-IsBalanced zero l doc replies attempt s c k b = b
rounds-IsBalanced (suc fuel) l doc replies attempt s c k b =
    conclude-IsBalanced l doc attempt (replies attempt) (rounds fuel l doc replies (attempt + 1))
      (try_lookup l (replies attempt) s) (c attempt)
      (try_lookup-IsBalanced l (replies attempt) s (c attempt) (k attempt) b)
      (λ s' b'. rounds-IsBalanced fuel l doc replies (attempt + 1) s' c k b')

pub fetch_one-IsBalanced :
    (l : Lane) (doc : Doc) (replies : ℕ → Reply) (worker : WorkerState) (breaker : CircuitBreaker)
    → ((n : ℕ) → (replies n).closing ≡ closed)
    → ((n : ℕ) → IsBuilt (replies n).opening)
    → IsBalanced worker
    → IsBalanced (fetch_one l doc replies worker breaker).1.worker
unfolding fetch_one
fetch_one-IsBalanced l doc replies worker breaker c k b =
    rounds-IsBalanced max_attempts l doc replies 1
      (record { worker = worker; breaker = breaker; session = none; attempts = [] }) c k b
