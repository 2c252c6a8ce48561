-- ===== src/Core/Fetch.antt =====
-- packages/core/core/pipeline/fetch.py: `fetch_one`, the attempts of a lane at one document.
pub mod Attempts
pub mod Shared
pub mod Proxies
use docs_pe.Common.{
  ℕ, zero, suc, ◌+◌, Bool, true, not, ◌||◌, ◌⊎◌, inl, inr, Option, none, some, List, [], ◌∷◌, ◌++◌,
  Text, text, is_empty, leb, ◌==◌, if◌then◌else◌,
}
use docs_pe.Core.Doc.{Doc}
use docs_pe.Core.Types.{Status, Row, AttemptOutcome, Result}
use docs_pe.Core.Breaker.{
  Clock, CircuitBreaker, Outcome, record_success, record_failure, is_open, replay,
}
use docs_pe.Core.Policy.{
  ruc_not_found, provider_schema, class_name, max_attempts, classify_exception,
}
use docs_pe.Core.Session.{
  Exc, WorkerConfig, WorkerSession, WorkerState, Closing, Opening, ensure_session, after_success,
  rotate_session, session_ids,
}

-- What the world answers in one attempt: how the session opens and what `site.lookup` gives, how
-- closing it goes, the readings of the clocks, and what the other lanes of the provider record
-- of the breaker before this lane does and while this lane closes its session.
pub record Reply : Type 0 where
  pub opening : Opening
  pub lookup : Exc ⊎ List Row
  pub closing : Closing
  pub elapsed_ms : ℕ
  pub now : Clock
  pub later : Clock
  pub others_before : List (Clock × Outcome)
  pub others_closing : List (Clock × Outcome)

-- The arguments of the lane: `site.name`, `site.allows_empty`, `provider.name`, and the rest.
pub record Lane : Type 0 where
  pub site : Text
  pub allows_empty : Bool
  pub provider : Text
  pub cfg : WorkerConfig

-- The state that the lane's attempts change; `session` is the local variable of `fetch_one`.
pub record LaneState : Type 0 where
  pub worker : WorkerState
  pub breaker : CircuitBreaker
  pub session : Option WorkerSession
  pub attempts : List AttemptOutcome

-- `fetch_one` returns, or it raises on a `session` that it has not assigned yet.
pub data Fetched : Type 0 where
  returned : Result → Fetched
  unbound_session out_of_fuel : Fetched

-- `_enforce_allows_empty`
abbrev pub enforce_allows_empty : Bool → List Row → Exc ⊎ List Row
enforce_allows_empty allows_empty rows =
    if not (is_empty rows) || allows_empty
    then inr rows
    else inl (record { error_class = provider_schema; detail = text "no rows" })

abbrev pub checked : Bool → Exc ⊎ List Row → Exc ⊎ List Row
checked allows_empty (inl e) = inl e
checked allows_empty (inr rows) = enforce_allows_empty allows_empty rows

abbrev pub looked :
    Lane → Reply → LaneState → (Exc ⊎ WorkerSession) × WorkerState → (Exc ⊎ List Row) × LaneState
looked l r s (inl e, worker) = (inl e, record s { worker = worker })
looked l r s (inr session, worker) =
    (checked l.allows_empty r.lookup, record s { worker = worker; session = some session })

-- The body of the `try` up to the rows. `breaker.acquire` before it changes nothing and raises
-- nothing: the time that it waits is between the readings of the clocks.
unfoldable pub try_lookup : Lane → Reply → LaneState → (Exc ⊎ List Row) × LaneState
try_lookup l r s = looked l r s (ensure_session r.closing r.opening s.worker)

abbrev pub noted : ℕ → Status → Text → Reply → List AttemptOutcome → List AttemptOutcome
noted attempt status code r attempts =
    attempts
    ++ (record { attempt = attempt; status = status; elapsed_ms = r.elapsed_ms; error_code = code }
        ∷ [])

-- A lookup that the site answered, with rows or with RucNotFoundError.
unfoldable pub answered :
    Lane → Doc → ℕ → Status → List Row → Reply → WorkerSession → LaneState → Result × LaneState
answered l doc attempt status rows r session s =
    let attempts = noted attempt status [] r s.attempts in
    (
      record {
        doc = doc;
        site = l.site;
        status = status;
        rows = rows;
        error_code = [];
        error_detail = [];
        made_healthy_contact = true;
        http_session_id = session.session_id;
        proxy_id = session.proxy;
        provider = l.provider;
        attempt = attempt;
        attempts = attempts;
      },
      record s {
        attempts = attempts;
        breaker = record_success (replay r.others_before s.breaker);
        worker = after_success l.cfg r.closing s.worker;
      },
    )

-- An attempt that failed, as the last `except` leaves it.
unfoldable pub failed_attempt : Lane → ℕ → Exc → Reply → LaneState → LaneState
failed_attempt l attempt e r s =
    let decision = classify_exception e.error_class l.cfg.ban_cooldown_s in
    record s {
      attempts = noted attempt Status.failed decision.error_code r s.attempts;
      breaker = replay r.others_closing (record_failure r.now (replay r.others_before s.breaker));
      worker = rotate_session r.now.monotonic r.closing decision.cooldown_s s.worker;
    }

-- The result of the last attempt, from the state before it and the state that it leaves.
unfoldable pub failed_result : Lane → Doc → ℕ → Exc → Reply → LaneState → LaneState → Result
failed_result l doc attempt e r s s' = record {
  doc = doc;
  site = l.site;
  status = Status.failed;
  rows = [];
  error_code = (classify_exception e.error_class l.cfg.ban_cooldown_s).error_code;
  error_detail = e.detail;
  made_healthy_contact = not (is_open r.later s'.breaker);
  http_session_id = (session_ids s.worker).0;
  proxy_id = (session_ids s.worker).1;
  provider = l.provider;
  attempt = attempt;
  attempts = s'.attempts;
}

abbrev pub is_not_found : Exc → Bool
is_not_found e = class_name e.error_class == class_name ruc_not_found

-- The two branches that return an answer, with the local variable `session`.
abbrev pub answer :
    Lane
    → Doc
    → ℕ
    → Status
    → List Row
    → Reply
    → LaneState
    → Option WorkerSession
    → Fetched × LaneState
answer l doc attempt status rows r s none = (unbound_session, s)
answer l doc attempt status rows r s (some session) =
    let (result, s') = answered l doc attempt status rows r session s in (returned result, s')

-- The end of a round: an answer, the result of the last attempt, or the next round.
abbrev pub conclude :
    Lane
    → Doc
    → ℕ
    → Reply
    → (LaneState → Fetched × LaneState)
    → (Exc ⊎ List Row) × LaneState
    → Fetched × LaneState
conclude l doc attempt r next (inr rows, s) = answer l doc attempt Status.ok rows r s s.session
conclude l doc attempt r next (inl e, s) =
    let s' = failed_attempt l attempt e r s in
    if is_not_found e
    then answer l doc attempt Status.not_found [] r s s.session
    else if leb max_attempts attempt
    then (returned (failed_result l doc attempt e r s s'), s')
    else next s'

-- The rounds of `while True`, from an attempt's number; `replies` answers each attempt. Fuel
-- bounds the rounds.
unfoldable pub rounds : ℕ → Lane → Doc → (ℕ → Reply) → ℕ → LaneState → Fetched × LaneState
rounds zero l doc replies attempt s = (out_of_fuel, s)
rounds (suc fuel) l doc replies attempt s =
    conclude l doc attempt (replies attempt) (rounds fuel l doc replies (attempt + 1))
      (try_lookup l (replies attempt) s)

-- `fetch_one`: no attempt yet, and `session` not assigned.
unfoldable pub fetch_one :
    Lane → Doc → (ℕ → Reply) → WorkerState → CircuitBreaker → Fetched × LaneState
unfolding rounds
fetch_one l doc replies worker breaker =
    rounds max_attempts l doc replies 1
      (record { worker = worker; breaker = breaker; session = none; attempts = [] })
