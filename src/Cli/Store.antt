-- ===== src/Cli/Store.antt =====
-- packages/cli/cli/store/outcomes.py: the SQLite table of outcomes and the statements on it. The
-- rows of a payload stand for their JSON text; `_now()` is an argument.
pub mod Lookup
pub mod Sticky
pub mod Retire
pub mod Counts
use docs_pe.Common.{
  ℕ, ◌+◌, Bool, true, false, ◌&&◌, ◌||◌, Option, List, [], ◌∷◌, Text, text_eq, leb, ltb, map,
  if◌then◌else◌,
}
use docs_pe.Common.Table.{select, count, first}
use docs_pe.Core.Types.{Status, Row, Result}

-- MAX_TOTAL_ATTEMPTS
abbrev pub max_total_attempts : ℕ
max_total_attempts = 12

-- A row of the table, which is also `OutcomeRecord`.
pub record Outcome : Type 0 where
  pub site : Text
  pub doc : Text
  pub status : Status
  pub payload : List Row
  pub error_code : Text
  pub error_detail : Text
  pub attempt_count : ℕ
  pub session_id : Text
  pub proxy_id : Text
  pub provider : Text
  pub finished_at : Text

abbrev pub has_pair : Text → Text → Outcome → Bool
has_pair site doc r = text_eq r.site site && text_eq r.doc doc

-- INSERT … ON CONFLICT(site, doc) DO UPDATE
unfoldable pub upsert : Outcome → (Outcome → Outcome) → List Outcome → List Outcome
upsert new on_conflict [] = new ∷ []
upsert new on_conflict (r ∷ rs) =
    let rest = upsert new on_conflict rs in
    if has_pair new.site new.doc r then on_conflict r ∷ rs else r ∷ rest

-- UPSERT_SUCCESS: the row that it inserts, the change on conflict, and `_write_success`
abbrev pub ok_row : Text → Text → Text → List Row → Text → Text → Text → Outcome
ok_row now site doc rows session_id proxy_id provider = record {
  site = site;
  doc = doc;
  status = Status.ok;
  payload = rows;
  error_code = [];
  error_detail = [];
  attempt_count = 0;
  session_id = session_id;
  proxy_id = proxy_id;
  provider = provider;
  finished_at = now;
}

abbrev pub set_ok : Text → List Row → Text → Text → Text → Outcome → Outcome
set_ok now rows session_id proxy_id provider old = record old {
  status = Status.ok;
  payload = rows;
  error_code = [];
  error_detail = [];
  session_id = session_id;
  proxy_id = proxy_id;
  provider = provider;
  finished_at = now;
}

unfoldable pub write_success :
    Text → Text → Text → List Row → Text → Text → Text → List Outcome → List Outcome
write_success now site doc rows session_id proxy_id provider =
    upsert (ok_row now site doc rows session_id proxy_id provider)
      (set_ok now rows session_id proxy_id provider)

unfoldable pub record_success : Text → Result → List Outcome → List Outcome
unfolding write_success
record_success now r =
    write_success now r.site r.doc.value r.rows r.http_session_id r.proxy_id r.provider

unfoldable pub record_import : Text → Text → Text → List Row → List Outcome → List Outcome
unfolding write_success
record_import now site doc rows = write_success now site doc rows [] [] []

abbrev pub is_ok : Status → Bool
is_ok Status.ok = true
is_ok _ = false

-- `status IN ('ok', 'not_found')`
abbrev pub is_settled : Status → Bool
is_settled Status.ok = true
is_settled Status.not_found = true
is_settled Status.failed = false

abbrev pub is_failed : Status → Bool
is_failed Status.failed = true
is_failed _ = false

abbrev pub is_not_found : Status → Bool
is_not_found Status.not_found = true
is_not_found _ = false

-- UPSERT_NOT_FOUND
abbrev pub not_found_row : Text → Result → Outcome
not_found_row now r = record {
  site = r.site;
  doc = r.doc.value;
  status = Status.not_found;
  payload = [];
  error_code = [];
  error_detail = [];
  attempt_count = 0;
  session_id = r.http_session_id;
  proxy_id = r.proxy_id;
  provider = r.provider;
  finished_at = now;
}

abbrev pub set_not_found : Text → Result → Outcome → Outcome
set_not_found now r old = if is_ok old.status then old else record old {
  status = Status.not_found;
  payload = [];
  error_code = [];
  error_detail = [];
  session_id = r.http_session_id;
  proxy_id = r.proxy_id;
  provider = r.provider;
  finished_at = now;
}

unfoldable pub record_not_found : Text → Result → List Outcome → List Outcome
record_not_found now r = upsert (not_found_row now r) (set_not_found now r)

-- The attempts that count: none of those that met an open breaker.
abbrev pub counted_attempts : Result → ℕ
counted_attempts r = if r.made_healthy_contact then r.attempt else 0

-- UPSERT_FAILURE
abbrev pub failed_row : Text → Result → Outcome
failed_row now r = record {
  site = r.site;
  doc = r.doc.value;
  status = Status.failed;
  payload = [];
  error_code = r.error_code;
  error_detail = r.error_detail;
  attempt_count = counted_attempts r;
  session_id = r.http_session_id;
  proxy_id = r.proxy_id;
  provider = r.provider;
  finished_at = now;
}

abbrev pub set_failed : Text → Result → Outcome → Outcome
set_failed now r old = if is_settled old.status then old else record old {
  status = Status.failed;
  error_code = r.error_code;
  error_detail = r.error_detail;
  attempt_count = old.attempt_count + counted_attempts r;
  session_id = r.http_session_id;
  proxy_id = r.proxy_id;
  provider = r.provider;
  finished_at = now;
}

unfoldable pub record_failure : Text → Result → List Outcome → List Outcome
record_failure now r = upsert (failed_row now r) (set_failed now r)

-- `_TERMINAL_PREDICATE`
abbrev pub is_terminal : ℕ → Outcome → Bool
is_terminal cap r = is_settled r.status || leb cap r.attempt_count

-- `done_pairs`
unfoldable pub done_pairs : ℕ → List Outcome → List (Text × Text)
done_pairs cap rows = map (λ r. (r.site, r.doc)) (select (is_terminal cap) rows)

pub record OutcomeCounts : Type 0 where
  pub succeeded : ℕ
  pub not_found : ℕ
  pub terminal_failed : ℕ
  pub retryable : ℕ

-- `counts`
unfoldable pub counts : Text → ℕ → List Outcome → OutcomeCounts
counts site cap rows = record {
  succeeded = count (λ r. text_eq r.site site && is_ok r.status) rows;
  not_found = count (λ r. text_eq r.site site && is_not_found r.status) rows;
  terminal_failed =
      count (λ r. text_eq r.site site && (is_failed r.status && leb cap r.attempt_count)) rows;
  retryable =
      count (λ r. text_eq r.site site && (is_failed r.status && ltb r.attempt_count cap)) rows;
}

-- What a lane or an import writes.
pub data Write : Type 0 where
  success not_found failure : Result → Write
  import_rows : Text → Text → List Row → Write

unfoldable pub write : Text → Write → List Outcome → List Outcome
write now (success r) = record_success now r
write now (not_found r) = record_not_found now r
write now (failure r) = record_failure now r
write now (import_rows site doc rows) = record_import now site doc rows

unfoldable pub writes : List (Text × Write) → List Outcome → List Outcome
writes [] rows = rows
writes ((now, w) ∷ ws) rows = writes ws (write now w rows)

-- The row of a pair.
unfoldable pub outcome_of : Text → Text → List Outcome → Option Outcome
outcome_of site doc = first (has_pair site doc)
