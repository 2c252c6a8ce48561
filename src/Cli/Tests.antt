-- ===== src/Cli/Tests.antt =====
-- packages/cli: the theorems of this folder at concrete inputs.
use docs_pe.Common.{
  Bool-cases, inl, ℕ, ◌≡◌, refl, Bool, true, false, ◌&&◌, none, some, List, [], ◌∷◌, Text, text,
  text_eq, arith, inl, inr, Bool-cases, none, leb, ◌==◌, if◌then◌else◌,
}
use docs_pe.Common.Unicode.{Unicode}
use docs_pe.Core.Doc.{Doc, DocKind}
use docs_pe.Core.Types.{Status, Result, RunTotals, Cell}
use docs_pe.Core.Breaker.{Clock, CircuitBreaker, default_tuning}
use docs_pe.Core.Policy.{ban_signal}
use docs_pe.Core.Fetch.Proxies.{IsBuilt}
use docs_pe.Core.Session.{new_state, closed, opened, new_session_raised}
use docs_pe.Core.Fetch.{Lane}
use docs_pe.Core.Fetch.Attempts.{IsReady}
use docs_pe.Cli.Store.{
  Outcome, Write, success, failure, outcome_of, writes, done_pairs, is_terminal, max_total_attempts,
}
use docs_pe.Cli.Store.Sticky.{IsProgress, writes-IsProgress}
use docs_pe.Cli.Store.Retire.{failures, failures_retire}
use docs_pe.Cli.Plan.{Site, plan_pending, read_docs}
use docs_pe.Cli.Plan.Counted.{IsRead, IsDistinct, docs_of, read_docs-IsRead}
use docs_pe.Cli.Plan.Resume.{ArePlanned, plan_pending-ArePlanned}
use docs_pe.Cli.Worker.{World, run_worker}
use docs_pe.Cli.Worker.Lanes.{IsWorked, run_worker-IsWorked, run_worker-releases}

abbrev ascii_digit : ℕ → Bool
ascii_digit c = leb 48 c && leb c 57

ascii_law : (c : ℕ) → ascii_digit c ≡ true → (c == 32) ≡ false
ascii_law c h = ground arith

abbrev ascii : Unicode
ascii = record {
  is_space = λ c. c == 32;
  is_digit = ascii_digit;
  lower = λ t. t;
  zero_digit = refl;
  digit_not_space = ascii_law;
}

abbrev dni : Doc
dni = record { value = text "01234567"; kind = DocKind.dni }

abbrev ruc : Doc
ruc = record { value = text "20100070970"; kind = DocKind.ruc }

abbrev result : Status → ℕ → Bool → Result
result status attempt contact = record {
  doc = dni;
  site = text "osiptel";
  status = status;
  rows = [];
  error_code = text "transport_error";
  error_detail = [];
  made_healthy_contact = contact;
  http_session_id = text "s";
  proxy_id = text "p";
  provider = text "geonode";
  attempt = attempt;
  attempts = [];
}

abbrev row : Status → ℕ → Outcome
row status attempts = record {
  site = text "osiptel";
  doc = text "01234567";
  status = status;
  payload = (Cell.word (text "movil") ∷ []) ∷ [];
  error_code = [];
  error_detail = [];
  attempt_count = attempts;
  session_id = [];
  proxy_id = [];
  provider = [];
  finished_at = text "t0";
}

abbrev later_writes : List (Text × Write)
later_writes =
    (text "t1", failure (result Status.failed 4 true))
    ∷ (text "t2", success (result Status.ok 1 true))
    ∷ []

kept_row :
    outcome_of (text "osiptel") (text "01234567") (row Status.failed 8 ∷ [])
    ≡ some (row Status.failed 8)
unfolding outcome_of text_eq
kept_row = refl

writes-IsProgress_example :
    IsProgress max_total_attempts (row Status.failed 8) (
      outcome_of
        (text "osiptel")
        (text "01234567")
        (writes later_writes (row Status.failed 8 ∷ [])))
writes-IsProgress_example =
    writes-IsProgress max_total_attempts (text "osiptel") (text "01234567") later_writes
      (row Status.failed 8 ∷ []) (row Status.failed 8) kept_row

abbrev more_failures : List (Text × Result)
more_failures =
    (text "t2", result Status.failed 4 false) ∷ (text "t3", result Status.failed 4 true) ∷ []

no_row : outcome_of (text "osiptel") (text "01234567") [] ≡ none
unfolding outcome_of
no_row = refl

failures_retire_example :
    (r : Outcome) × (outcome_of
        (text "osiptel")
        (text "01234567")
        (writes (failures ((text "t1", result Status.failed 4 true) ∷ more_failures)) [])
      ≡ some r)
    × (r.attempt_count ≡ 8)
    × (is_terminal max_total_attempts r ≡ false)
failures_retire_example =
    failures_retire max_total_attempts (text "osiptel") (text "01234567") (text "t1")
      (result Status.failed 4 true) more_failures [] no_row
      (refl, refl, (refl, refl, (refl, refl, tt)))

abbrev table : List Outcome
table = row Status.failed 12 ∷ record (row Status.ok 0) { doc = text "20100070970" } ∷ []

abbrev osiptel : Site
osiptel = record { name = text "osiptel"; accepts = λ d. true }

plan_pending-ArePlanned_example :
    ArePlanned max_total_attempts table
      (osiptel ∷ [])
      (plan_pending (dni ∷ ruc ∷ []) (osiptel ∷ []) (done_pairs max_total_attempts table))
plan_pending-ArePlanned_example =
    plan_pending-ArePlanned max_total_attempts table (dni ∷ ruc ∷ []) (osiptel ∷ [])

abbrev input : List (List Text)
input = (text "1234567" ∷ []) ∷ [] ∷ (text "01234567" ∷ []) ∷ (text "abc" ∷ []) ∷ []

read_docs-IsRead_example :
    IsRead true [] 4 (docs_of ascii input) (read_docs ascii true input)
    × (true ≡ true → IsDistinct [] (read_docs ascii true input).docs)
read_docs-IsRead_example = read_docs-IsRead ascii true input

abbrev lane : Lane
lane = record {
  site = text "osiptel";
  allows_empty = true;
  provider = text "geonode";
  cfg = record { session_budget = 1; ban_cooldown_s = 30 };
}

abbrev clock : Clock
clock = record { monotonic = 600; utc = 1600 }

-- The first attempt at the first document finds no proxy; all else succeeds.
abbrev world : World
world = record {
  replies = λ i n. record {
    opening =
        if i == 0 && n == 1
        then new_session_raised (record { error_class = ban_signal; detail = [] })
        else opened (record { proxy = text "p"; session_id = text "s"; egress_ip = [] });
    lookup = inr [];
    closing = closed;
    elapsed_ms = 20;
    now = clock;
    later = clock;
    others_before = [];
    others_closing = [];
  };
  written_at = λ i. text "t1";
  at_end = closed;
}

world-IsReady : (i n : ℕ) → IsReady (world.replies i n).opening
world-IsReady i n = elim (Bool-cases (i == 0 && n == 1)) [ inl e ↦ rw e refl | inr e ↦ rw e tt ]

abbrev no_totals : RunTotals
no_totals = record { processed = 0; succeeded = 0; not_found = 0; failed = 0 }

abbrev breaker : CircuitBreaker
breaker = record {
  provider = text "geonode";
  source = text "osiptel";
  tuning = default_tuning;
  consecutive = 8;
  level = 0;
  open_until = 0;
  open_until_at = none;
}

run_worker-IsWorked_example :
    IsWorked lane
      (dni ∷ ruc ∷ [])
      (record { worker = new_state; breaker = breaker; store = table; totals = no_totals })
      (run_worker lane world (dni ∷ ruc ∷ []) breaker table no_totals)
run_worker-IsWorked_example =
    run_worker-IsWorked lane world (dni ∷ ruc ∷ []) breaker table no_totals world-IsReady

built : (i n : ℕ) → IsBuilt (world.replies i n).opening
built i n = elim (Bool-cases (i == 0 && n == 1)) [ inl e ↦ rw e tt | inr e ↦ rw e tt ]

run_worker-releases_example :
    let s = (run_worker lane world (dni ∷ ruc ∷ []) breaker table no_totals).1.worker in
    (s.session ≡ none) × (s.handed_out ≡ s.released)
run_worker-releases_example =
    run_worker-releases lane world (dni ∷ ruc ∷ []) breaker table no_totals (λ i n. refl) built refl
