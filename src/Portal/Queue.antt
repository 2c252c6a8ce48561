-- ===== src/Portal/Queue.antt =====
-- packages/portal/portal/repository/jobs.py and the states of packages/portal/portal/domain/models.py:
-- the tables of the job queue. A row of portal_jobs stands in the order of its queue_sequence; a
-- transaction is a function of the tables, and `none` is one that raised and was rolled back.
-- Generated ids and `now()` are arguments; timestamps that no statement reads back are left out.
pub mod Constraints
pub mod Finish
pub mod Lease
pub mod Publish
pub mod Admit
pub mod Capacity
pub mod Fair
pub mod Final
pub mod Ended
pub mod Fence
pub mod Observe
use docs_pe.Common.{ℕ, Bool, true, false, Option, List, Text, text, ◌==◌, ◌&&◌}
use docs_pe.Common.Table.{count}
use docs_pe.Portal.Breakers.{BreakerRow}

pub data JobState : Type 0 where
  queued running cancelling completed failed cancelled : JobState

pub data ItemState : Type 0 where
  pending running published excluded failed cancelled : ItemState

pub record Job : Type 0 where
  pub id : ℕ
  pub team_id : ℕ
  pub submitted_by : ℕ
  pub credential_version_id : ℕ
  pub input_object_id : ℕ
  pub filename : Text
  pub sources : List Text
  pub state : JobState
  pub lease_fence : ℕ
  pub terminal_reason : Option Text

pub record Item : Type 0 where
  pub id : ℕ
  pub job_id : ℕ
  pub team_id : ℕ
  pub ordinal : ℕ
  pub document : Text
  pub source : Option Text
  pub state : ItemState
  pub reason : Option Text
  pub attempts : ℕ
  pub lease_owner : Option Text
  pub lease_fence : ℕ
  pub lease_expires_at : Option ℕ
  pub entry_id : Option ℕ
  pub result_object_id : Option ℕ

pub record Event : Type 0 where
  pub job_id : ℕ
  pub event_type : Text

-- A row of portal_notification_outbox.
pub record Intent : Type 0 where
  pub job_id : ℕ
  pub channel : Text
  pub estado : Text

-- A row of portal_entries, with the columns that identify and date it.
pub record Entry : Type 0 where
  pub id : ℕ
  pub document : Text
  pub source : Text
  pub status : Text
  pub columns : List Text
  pub rows : Text
  pub error_code : Option Text
  pub last_job_id : Option ℕ

-- A row of portal_lookup_attempts.
pub record LookupAttempt : Type 0 where
  pub job_item_id : ℕ
  pub source : Text
  pub provider : Text
  pub worker_id : Text
  pub lane_index : ℕ
  pub fetch_attempt : ℕ
  pub outcome : Text
  pub error_code : Option Text
  pub elapsed_ms : ℕ

pub record Queue : Type 0 where
  pub max_active_jobs : ℕ
  pub jobs : List Job
  pub items : List Item
  pub events : List Event
  pub outbox : List Intent
  pub entries : List Entry
  pub lookup_attempts : List LookupAttempt
  pub breakers : List BreakerRow

-- MAX_ACTIVE_JOBS and MAX_LEASE_ATTEMPTS
abbrev pub max_active : ℕ
max_active = 5

abbrev pub max_lease_attempts : ℕ
max_lease_attempts = 4

-- JobState.value
abbrev pub job_state_value : JobState → Text
job_state_value JobState.queued = text "queued"
job_state_value JobState.running = text "running"
job_state_value JobState.cancelling = text "cancelling"
job_state_value JobState.completed = text "completed"
job_state_value JobState.failed = text "failed"
job_state_value JobState.cancelled = text "cancelled"

abbrev pub is_queued : JobState → Bool
is_queued JobState.queued = true
is_queued JobState.running = false
is_queued _ = false

abbrev pub is_running : JobState → Bool
is_running JobState.queued = false
is_running JobState.running = true
is_running _ = false

-- ACTIVE_JOB_STATES
abbrev pub is_active : JobState → Bool
is_active JobState.running = true
is_active JobState.cancelling = true
is_active _ = false

-- TERMINAL_JOB_STATES
abbrev pub is_terminal : JobState → Bool
is_terminal JobState.completed = true
is_terminal JobState.failed = true
is_terminal JobState.cancelled = true
is_terminal _ = false

abbrev pub is_pending : ItemState → Bool
is_pending ItemState.pending = true
is_pending _ = false

abbrev pub is_leased : ItemState → Bool
is_leased ItemState.running = true
is_leased _ = false

abbrev pub is_published : ItemState → Bool
is_published ItemState.published = true
is_published _ = false

-- `state IN ('pending', 'running')`
abbrev pub is_unfinished : ItemState → Bool
is_unfinished ItemState.pending = true
is_unfinished ItemState.running = true
is_unfinished _ = false

-- `_ACTIVE_COUNT`
abbrev pub active_count : List Job → ℕ
active_count = count (λ j. is_active j.state)

abbrev pub queued_count : List Job → ℕ
queued_count = count (λ j. is_queued j.state)

abbrev pub unfinished_of : ℕ → Item → Bool
unfinished_of job_id i = i.job_id == job_id && is_unfinished i.state

abbrev pub published_of : ℕ → Item → Bool
published_of job_id i = i.job_id == job_id && is_published i.state
