-- ===== src/Portal/Queue/Admit.antt =====
-- packages/portal/portal/repository/jobs.py: `admit_submission` and `cancel`.
use docs_pe.Common.{
  ℕ, ◌+◌, Bool, true, Option, none, some, List, [], ◌∷◌, ◌++◌, Text, text, ◌==◌, ◌&&◌, ltb,
  if◌then◌else◌, is_empty, is_some, not, all, map, leb,
}
use docs_pe.Common.Table.{update, first}
use docs_pe.Common.Maybe.{◌>>=◌}
use docs_pe.Portal.Queue.Constraints.{References, is_known_source, is_filled, is_entry_id, differ}
use docs_pe.Portal.Queue.{
  Entry, Job, JobState, Queue, Item, ItemState, is_running, is_terminal, unfinished_of,
  active_count,
}
use docs_pe.Portal.Queue.Finish.{
  lock_queue_gate, event, job_event, terminal_intents, promote_locked,
}

-- packages/portal/portal/domain/models.py
pub record PlannedItem : Type 0 where
  pub ordinal : ℕ
  pub document : Text
  pub source : Text

pub record ExcludedInput : Type 0 where
  pub ordinal : ℕ
  pub value : Text
  pub reason : Text

pub record SubmissionPlan : Type 0 where
  pub items : List PlannedItem
  pub exclusions : List ExcludedInput

pub record SubmitJob : Type 0 where
  pub actor_id : ℕ
  pub team_id : ℕ
  pub credential_version_id : ℕ
  pub input_object_id : ℕ
  pub filename : Text
  pub sources : List Text

-- The entries that a team may reuse, by document and source.
abbrev pub Reusable : Type 0
Reusable = Text → Text → Option ℕ

-- The row of an item; `new_id` gives the ids, which the database does not look at.
abbrev blank_item : ℕ → ℕ → ℕ → ℕ → Text → Item
blank_item new_id job_id team_id ordinal document = record {
  id = new_id;
  job_id = job_id;
  team_id = team_id;
  ordinal = ordinal;
  document = document;
  source = none;
  state = ItemState.excluded;
  reason = none;
  attempts = 0;
  lease_owner = none;
  lease_fence = 0;
  lease_expires_at = none;
  entry_id = none;
  result_object_id = none;
}

-- The three INSERT statements, in their order: to fetch, reused, excluded.
unfoldable pub fetch_items : Reusable → ℕ → ℕ → (ℕ → ℕ) → List PlannedItem → List Item
fetch_items reusable job_id team_id new_id [] = []
fetch_items reusable job_id team_id new_id (p ∷ ps) =
    let rest = fetch_items reusable job_id team_id (λ n. new_id (n + 1)) ps in
    if is_some (reusable p.document p.source)
    then rest
    else record (blank_item (new_id 0) job_id team_id p.ordinal p.document) {
      source = some p.source;
      state = ItemState.pending;
    }
      ∷ rest

unfoldable pub reused_items : Reusable → ℕ → ℕ → (ℕ → ℕ) → List PlannedItem → List Item
reused_items reusable job_id team_id new_id [] = []
reused_items reusable job_id team_id new_id (p ∷ ps) =
    let rest = reused_items reusable job_id team_id (λ n. new_id (n + 1)) ps in
    elim (reusable p.document p.source) [
      | none ↦ rest
      | some entry ↦
          record (blank_item (new_id 0) job_id team_id p.ordinal p.document) {
            source = some p.source;
            state = ItemState.published;
            entry_id = some entry;
          }
          ∷ rest
    ]

unfoldable pub excluded_items : ℕ → ℕ → (ℕ → ℕ) → List ExcludedInput → List Item
excluded_items job_id team_id new_id [] = []
excluded_items job_id team_id new_id (x ∷ xs) =
    record (blank_item (new_id 0) job_id team_id x.ordinal x.value) { reason = some x.reason }
    ∷ excluded_items job_id team_id (λ n. new_id (n + 1)) xs

-- The ids that `uuid4` gives to the job and to its items, and the tables that the rows refer to.
pub record NewIds : Type 0 where
  pub job : ℕ
  pub fetched : ℕ → ℕ
  pub reused : ℕ → ℕ
  pub excluded : ℕ → ℕ
  pub references : References

abbrev pub admitted_state : Bool → ℕ → ℕ → JobState
admitted_state nothing_to_fetch active maximum =
    if nothing_to_fetch
    then JobState.completed
    else if ltb active maximum
    then JobState.running
    else JobState.queued

abbrev pub new_job : NewIds → SubmitJob → SubmissionPlan → JobState → Job
new_job ids command plan state = record {
  id = ids.job;
  team_id = command.team_id;
  submitted_by = command.actor_id;
  credential_version_id = command.credential_version_id;
  input_object_id = command.input_object_id;
  filename = command.filename;
  sources = command.sources;
  state = state;
  lease_fence = 0;
  terminal_reason = if is_empty plan.items then some (text "all_records_excluded") else none;
}

abbrev pub new_items : NewIds → SubmitJob → SubmissionPlan → Reusable → List Item
new_items ids command plan reusable =
    fetch_items reusable ids.job command.team_id ids.fetched plan.items
    ++ (reused_items reusable ids.job command.team_id ids.reused plan.items
        ++ excluded_items ids.job command.team_id ids.excluded plan.exclusions)

-- The event or the terminal intents of a new job.
abbrev pub announce : JobState → ℕ → Queue → Queue
announce state job_id q =
    if is_terminal state then terminal_intents job_id state q else event job_id (job_event state) q

unfoldable pub admit_with : NewIds → SubmitJob → SubmissionPlan → Reusable → ℕ → Queue → Job × Queue
unfolding event terminal_intents fetch_items reused_items excluded_items
admit_with ids command plan reusable maximum q =
    let nothing = is_empty (fetch_items reusable ids.job command.team_id ids.fetched plan.items) in
    let state = admitted_state nothing (active_count q.jobs) maximum in
    let job = new_job ids command plan state in
    (
      job,
      announce state ids.job (record q {
        jobs = q.jobs ++ job ∷ [];
        items = q.items ++ new_items ids command plan reusable;
      }),
    )

-- The constraints of the row of the job, with the trigger `portal_check_sources_known`.
abbrev pub is_valid_job : References → SubmitJob → Bool
is_valid_job r command =
    r.is_team command.team_id
    && (r.is_user command.actor_id
        && (r.is_credential_of command.credential_version_id command.team_id
            && (r.is_object_of command.input_object_id command.team_id
                && (is_filled command.filename
                    && (not (is_empty command.sources) && all is_known_source command.sources)))))

abbrev pub is_valid_entry : List Entry → Option ℕ → Bool
is_valid_entry entries none = true
is_valid_entry entries (some id) = is_entry_id entries id

-- Those of the rows of its items.
abbrev pub is_valid_item : Reusable → List Entry → PlannedItem → Bool
is_valid_item reusable entries p =
    leb 1 p.ordinal
    && (is_filled p.document
        && (is_known_source p.source && is_valid_entry entries (reusable p.document p.source)))

abbrev pub is_valid_exclusion : ExcludedInput → Bool
is_valid_exclusion x = leb 1 x.ordinal && is_filled x.value

unfoldable pub is_admissible : References → SubmitJob → SubmissionPlan → Reusable → Queue → Bool
is_admissible r command plan reusable q =
    is_valid_job r command
    && (all (is_valid_item reusable q.entries) plan.items
        && (all is_valid_exclusion plan.exclusions
            && (differ (map (λ p. (p.ordinal, p.source)) plan.items)
                && differ (map (λ x. (x.ordinal, [])) plan.exclusions))))

-- `admit_submission`; `none` is an exception, with the tables as they were
unfoldable pub admit_submission :
    NewIds → SubmitJob → SubmissionPlan → Reusable → Queue → Option (Job × Queue)
unfolding lock_queue_gate admit_with is_admissible
admit_submission ids command plan reusable q = lock_queue_gate q >>= λ maximum.
    if is_admissible ids.references command plan reusable q
    then some (admit_with ids command plan reusable maximum q)
    else none

abbrev pub is_job : ℕ → ℕ → Job → Bool
is_job job_id team_id j = j.id == job_id && j.team_id == team_id

abbrev pub has_id : ℕ → Job → Bool
has_id job_id j = j.id == job_id

-- The two updates of a running job, and the one of any other.
abbrev pub cancel_job : Job → Job
cancel_job j =
    if is_running j.state
    then record j { state = JobState.cancelled; lease_fence = j.lease_fence + 1 }
    else record j { state = JobState.cancelled }

abbrev pub request_event : Job → Queue → Queue
request_event j q =
    if is_running j.state then event j.id (text "job.cancellation_requested") q else q

-- The updates of both tables.
abbrev pub cancel_tables : Job → Queue → Queue
cancel_tables j q = record (request_event j q) {
  jobs = update (has_id j.id) cancel_job q.jobs;
  items = update (unfinished_of j.id) (λ i. record i { state = ItemState.cancelled }) q.items;
}

unfoldable pub cancel_rows : Job → Queue → Queue
unfolding event terminal_intents promote_locked
cancel_rows j q = promote_locked (terminal_intents j.id JobState.cancelled (cancel_tables j q))

unfoldable pub cancel_found : Queue → Option Job → Option Job × Queue
unfolding cancel_rows
cancel_found q none = (none, q)
cancel_found q (some j) =
    if is_terminal j.state then (some j, q) else (some (cancel_job j), cancel_rows j q)

-- `cancel`; it returns the job as it is then, or `none` where the team has no such job
unfoldable pub cancel : ℕ → ℕ → Queue → Option (Option Job × Queue)
unfolding lock_queue_gate cancel_found
cancel job_id team_id q =
    lock_queue_gate q >>= λ maximum. some (cancel_found q (first (is_job job_id team_id) q.jobs))
