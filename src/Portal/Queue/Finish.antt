-- ===== src/Portal/Queue/Finish.antt =====
-- packages/portal/portal/repository/jobs.py: `_lock_queue_gate`, `_event`, `_terminal_intents`,
-- `_promote_locked` and `_finish_if_drained_locked`.
use docs_pe.Common.{
  ℕ, zero, suc, ◌-◌, Bool, not, Option, none, some, List, [], ◌∷◌, ◌++◌, Text, text, map, any, ◌==◌,
  ◌&&◌, if◌then◌else◌,
}
use docs_pe.Common.Table.{update}
use docs_pe.Common.Maybe.{◌>>=◌}
use docs_pe.Portal.Queue.{
  Job, JobState, Queue, Item, max_active, job_state_value, is_queued, is_running, active_count,
  unfinished_of, published_of,
}

-- `_lock_queue_gate`: it raises unless the table holds the fixed limit.
unfoldable pub lock_queue_gate : Queue → Option ℕ
lock_queue_gate q = if q.max_active_jobs == max_active then some q.max_active_jobs else none

unfoldable pub event : ℕ → Text → Queue → Queue
event job_id event_type q = record q {
  events = q.events ++ record { job_id = job_id; event_type = event_type } ∷ [];
}

abbrev channels : List Text
channels = text "in_app" ∷ text "email" ∷ text "kapso_whatsapp" ∷ []

abbrev pub job_event : JobState → Text
job_event state = text "job." ++ job_state_value state

unfoldable pub terminal_intents : ℕ → JobState → Queue → Queue
unfolding event
terminal_intents job_id state q =
    let q' = event job_id (job_event state) q in
    record q' {
      outbox =
          q'.outbox
          ++ map
              (λ channel. record {
                job_id = job_id;
                channel = channel;
                estado = job_state_value state;
              })
              channels;
    }

-- `_PROMOTE_FIFO`: the first `slots` queued jobs run; it returns their ids.
unfoldable pub promote_fifo : ℕ → List Job → List Job × List ℕ
promote_fifo zero js = (js, [])
promote_fifo (suc slots) [] = ([], [])
promote_fifo (suc slots) (j ∷ js) =
    let first = promote_fifo slots js in
    let later = promote_fifo (suc slots) js in
    if is_queued j.state
    then (record j { state = JobState.running } ∷ first.0, j.id ∷ first.1)
    else (j ∷ later.0, later.1)

unfoldable pub running_events : List ℕ → Queue → Queue
unfolding event
running_events [] q = q
running_events (id ∷ ids) q = running_events ids (event id (text "job.running") q)

-- `_promote_locked`
unfoldable pub promote_locked : Queue → Queue
unfolding promote_fifo running_events
promote_locked q =
    let slots = max_active - active_count q.jobs in
    let promoted = promote_fifo slots q.jobs in
    if slots == 0 then q else running_events promoted.1 (record q { jobs = promoted.0 })

-- The state and the reason that a drained job ends with.
abbrev pub drained_state : ℕ → List Item → JobState
drained_state job_id items =
    if any (published_of job_id) items then JobState.completed else JobState.failed

abbrev pub drained_job : ℕ → List Item → Job → Job
drained_job job_id items j = record j {
  state = drained_state job_id items;
  terminal_reason =
      if any (published_of job_id) items then j.terminal_reason else some (text "no_results");
}

abbrev pub is_running_job : ℕ → Job → Bool
is_running_job job_id j = j.id == job_id && is_running j.state

-- The WHERE clause of the update in `_finish_if_drained_locked`.
abbrev pub is_drained : ℕ → Queue → Bool
is_drained job_id q = any (is_running_job job_id) q.jobs && not (any (unfinished_of job_id) q.items)

abbrev finish_jobs : ℕ → Queue → Queue
finish_jobs job_id q = record q {
  jobs = update (is_running_job job_id) (drained_job job_id q.items) q.jobs;
}

-- `_finish_if_drained_locked`
unfoldable pub finish_if_drained : ℕ → Queue → Option Queue
unfolding lock_queue_gate terminal_intents promote_locked
finish_if_drained job_id q =
    let q' = terminal_intents job_id (drained_state job_id q.items) (finish_jobs job_id q) in
    if is_drained job_id q
    then (lock_queue_gate q' >>= λ maximum. some (promote_locked q'))
    else some q
