-- ===== src/Portal/Queue/Publish.antt =====
-- packages/portal/portal/repository/jobs.py: `_UPSERT_ENTRY`, `_INSERT_ATTEMPTS`, `_PUBLISH_FENCED`
-- and `publish`.
use docs_pe.Common.{
  ℕ, Bool, true, false, Option, none, some, List, [], ◌∷◌, ◌++◌, Text, text_eq, map, any, all, leb,
  text, is_some, ◌==◌, ◌&&◌, if◌then◌else◌,
}
use docs_pe.Common.Table.{update, first}
use docs_pe.Common.Maybe.{◌>>=◌}
use docs_pe.Portal.Queue.{Job, Queue, Item, ItemState, Entry, LookupAttempt, is_running, is_leased}
use docs_pe.Portal.Queue.Constraints.{
  References, is_known_source, is_filled, is_outcome, is_provider, equal,
}
use docs_pe.Portal.Queue.Finish.{finish_if_drained}

pub record AttemptRecord : Type 0 where
  pub fetch_attempt : ℕ
  pub outcome : Text
  pub elapsed_ms : ℕ
  pub error_code : Option Text

-- The arguments of `publish`, with the id that the new entry would get and the tables that its rows
-- refer to.
pub record Publication : Type 0 where
  pub item_id : ℕ
  pub worker_id : Text
  pub fence : ℕ
  pub document : Text
  pub source : Text
  pub provider : Text
  pub status : Text
  pub columns : List Text
  pub rows : Text
  pub error_code : Option Text
  pub result_object_id : ℕ
  pub lane_index : ℕ
  pub attempts : List AttemptRecord
  pub new_entry_id : ℕ
  pub references : References

abbrev pub is_entry : Text → Text → Entry → Bool
is_entry document source e = text_eq e.document document && text_eq e.source source

abbrev pub job_of_item : ℕ → List Item → Option ℕ
job_of_item item_id items = elim (first (λ i. i.id == item_id) items) [
  | none ↦ none
  | some i ↦ some i.job_id
]

-- The row that the statement inserts.
abbrev pub new_entry : Publication → Option ℕ → Entry
new_entry p job_id = record {
  id = p.new_entry_id;
  document = p.document;
  source = p.source;
  status = p.status;
  columns = p.columns;
  rows = p.rows;
  error_code = p.error_code;
  last_job_id = job_id;
}

-- The row that the statement leaves where the pair has one.
abbrev pub updated_entry : Publication → Option ℕ → Entry → Entry
updated_entry p job_id e = record e {
  status = p.status;
  columns = p.columns;
  rows = p.rows;
  error_code = p.error_code;
  last_job_id = job_id;
}

-- `_UPSERT_ENTRY`: it returns the id of the row of the pair.
unfoldable pub upsert_entry : Publication → Option ℕ → List Entry → ℕ × List Entry
upsert_entry p job_id [] = (p.new_entry_id, new_entry p job_id ∷ [])
upsert_entry p job_id (e ∷ es) =
    let rest = upsert_entry p job_id es in
    if is_entry p.document p.source e
    then (e.id, updated_entry p job_id e ∷ es)
    else (rest.0, e ∷ rest.1)

-- `_INSERT_ATTEMPTS`
unfoldable pub insert_attempts : Publication → List LookupAttempt → List LookupAttempt
insert_attempts p rows =
    rows
    ++ map
        (λ a. record {
          job_item_id = p.item_id;
          source = p.source;
          provider = p.provider;
          worker_id = p.worker_id;
          lane_index = p.lane_index;
          fetch_attempt = a.fetch_attempt;
          outcome = a.outcome;
          error_code = a.error_code;
          elapsed_ms = a.elapsed_ms;
        })
        p.attempts

abbrev pub is_owner : Text → Option Text → Bool
is_owner worker_id none = false
is_owner worker_id (some owner) = text_eq owner worker_id

abbrev pub fenced_job : ℕ → ℕ → Job → Bool
fenced_job job_id fence j = j.id == job_id && (is_running j.state && j.lease_fence == fence)

-- The WHERE clause of `_PUBLISH_FENCED`.
abbrev pub may_publish : Publication → List Job → Item → Bool
may_publish p jobs i =
    i.id == p.item_id
    && (is_leased i.state
        && (is_owner p.worker_id i.lease_owner
            && (i.lease_fence == p.fence && any (fenced_job i.job_id p.fence) jobs)))

abbrev pub published_item : Publication → ℕ → Item → Item
published_item p entry_id i = record i {
  state = ItemState.published;
  entry_id = some entry_id;
  result_object_id = some p.result_object_id;
  lease_owner = none;
  lease_expires_at = none;
}

-- The observations, which stay whether or not the item is published.
unfoldable pub observe : Publication → Queue → ℕ × Queue
unfolding upsert_entry insert_attempts
observe p q =
    let entry = upsert_entry p (job_of_item p.item_id q.items) q.entries in
    (entry.0, record q { entries = entry.1; lookup_attempts = insert_attempts p q.lookup_attempts })

-- The constraints of a row of portal_lookup_attempts.
abbrev pub is_valid_attempt : Publication → AttemptRecord → Bool
is_valid_attempt p a =
    is_provider p.provider
    && (leb 1 a.fetch_attempt
        && (is_outcome a.outcome
            && equal (text_eq a.outcome (text "failed")) (is_some a.error_code)))

-- `last_job_id` is NOT NULL and the job of the item.
abbrev pub has_job : Option ℕ → List Job → Bool
has_job none jobs = false
has_job (some id) jobs = any (λ j. j.id == id) jobs

-- The constraints that the observations meet; those of the entry that is proposed hold also where the
-- pair has one.
unfoldable pub is_observable : Publication → Queue → Bool
is_observable p q =
    has_job (job_of_item p.item_id q.items) q.jobs
    && (is_filled p.document
        && (is_known_source p.source
            && (is_outcome p.status && all (is_valid_attempt p) p.attempts)))

-- The rest of `publish`, by the row that the fenced update finds; the object of the result must be one
-- of the item's team.
unfoldable pub publish_found : Publication → ℕ → Queue → Option Item → Option (Bool × Queue)
publish_found p entry_id q none = some (false, q)
publish_found p entry_id q (some i) =
    if p.references.is_object_of p.result_object_id i.team_id
    then (finish_if_drained i.job_id
          (record q { items = update (may_publish p q.jobs) (published_item p entry_id) q.items })
        >>= λ q'. some (true, q'))
    else none

-- `publish`; `none` is an exception, with the tables as they were
unfoldable pub publish : Publication → Queue → Option (Bool × Queue)
unfolding observe publish_found is_observable
publish p q =
    let seen = observe p q in
    if is_observable p q
    then publish_found p seen.0 seen.1 (first (may_publish p q.jobs) q.items)
    else none
