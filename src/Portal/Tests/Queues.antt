-- ===== src/Portal/Tests/Queues.antt =====
-- packages/portal: the theorems on the job queue at concrete inputs.
use docs_pe.Common.{
  ℕ, ◌+◌, ◌≡◌, refl, Bool, true, none, some, is_some, ◌==◌, text_eq, List, [], ◌∷◌, Text, text,
  arith,
}
use docs_pe.Common.Table.{first, select}
use docs_pe.Portal.Queue.{Job, JobState, Item, ItemState, Queue}
use docs_pe.Portal.Queue.Constraints.{References}
use docs_pe.Portal.Queue.Admit.{SubmissionPlan, SubmitJob, NewIds, Reusable, cancel_job, has_id}
use docs_pe.Portal.Queue.Lease.{Providers}
use docs_pe.Portal.Queue.Publish.{Publication, publish, is_observable, may_publish}
use docs_pe.Portal.Queue.Capacity.{IsFair}
use docs_pe.Portal.Queue.Fair.{Call, admits, cancels, claims, publishes, call, calls, calls-IsFair}
use docs_pe.Portal.Queue.Final.{IsEnded, IsOnly}
use docs_pe.Portal.Queue.Ended.{calls-IsEnded}
use docs_pe.Portal.Queue.Fence.{of_job, publish_after_cancel}
use docs_pe.Portal.Queue.Observe.{IsObserved, publish_commits}

abbrev osiptel : List Text
osiptel = text "osiptel" ∷ []

abbrev job : ℕ → JobState → Job
job id state = record {
  id = id;
  team_id = 7;
  submitted_by = 3;
  credential_version_id = 2;
  input_object_id = 4;
  filename = text "input.csv";
  sources = osiptel;
  state = state;
  lease_fence = 0;
  terminal_reason = none;
}

-- A leased item of job 1.
abbrev item : Item
item = record {
  id = 11;
  job_id = 1;
  team_id = 7;
  ordinal = 1;
  document = text "01234567";
  source = some (text "osiptel");
  state = ItemState.running;
  reason = none;
  attempts = 1;
  lease_owner = some (text "w1");
  lease_fence = 1;
  lease_expires_at = some 500;
  entry_id = none;
  result_object_id = none;
}

abbrev queue : Queue
queue = record {
  max_active_jobs = 5;
  jobs = job 1 JobState.running ∷ job 2 JobState.completed ∷ [];
  items = item ∷ [];
  events = [];
  outbox = [];
  entries = [];
  lookup_attempts = [];
  breakers = [];
}

abbrev references : References
references = record {
  is_team = λ i. i == 7;
  is_user = λ i. i == 3;
  is_credential_of = λ c i. c == 2;
  is_object_of = λ o i. true;
}

abbrev publication : Publication
publication = record {
  item_id = 11;
  worker_id = text "w1";
  fence = 1;
  document = text "01234567";
  source = text "osiptel";
  provider = text "geonode";
  status = text "ok";
  columns = text "numero" ∷ [];
  rows = text "[]";
  error_code = none;
  result_object_id = 9;
  lane_index = 0;
  attempts =
      record { fetch_attempt = 1; outcome = text "ok"; elapsed_ms = 30; error_code = none } ∷ [];
  new_entry_id = 77;
  references = references;
}

abbrev ids : NewIds
ids = record {
  job = 5;
  fetched = λ n. 100 + n;
  reused = λ n. 200 + n;
  excluded = λ n. 300 + n;
  references = references;
}

abbrev command : SubmitJob
command = record {
  actor_id = 3;
  team_id = 7;
  credential_version_id = 2;
  input_object_id = 6;
  filename = text "more.csv";
  sources = osiptel;
}

abbrev plan : SubmissionPlan
plan = record {
  items = record { ordinal = 1; document = text "20100070970"; source = text "osiptel" } ∷ [];
  exclusions = [];
}

abbrev nothing_known : Reusable
nothing_known document source = none

abbrev geonode : Providers
geonode version = text "geonode"

abbrev day : List Call
day =
    admits ids command plan nothing_known
    ∷ claims osiptel geonode 400 (text "w2") osiptel none
    ∷ publishes publication
    ∷ []

queue-IsFair : IsFair queue
queue-IsFair = record { limit = refl; capacity = omega arith; busy = λ h. ground arith }

calls-IsFair_example : IsFair (calls day queue)
calls-IsFair_example = calls-IsFair day queue queue-IsFair

-- The job and the item of the publication have one fence.
abbrev leased : Queue
leased = record queue { jobs = record (job 1 JobState.running) { lease_fence = 1 } ∷ [] }

leased-IsFair : IsFair leased
leased-IsFair = record { limit = refl; capacity = omega arith; busy = λ h. ground arith }

passes_fence : is_some (first (may_publish publication leased.jobs) leased.items) ≡ true
unfolding text_eq
passes_fence = refl

publish_commits_example :
    (x : Bool × Queue) × (publish publication leased ≡ some x)
    × IsObserved publication leased x
    × IsFair x.1
unfolding is_observable text_eq
publish_commits_example = publish_commits publication leased leased-IsFair refl (λ i h. refl)

second-IsEnded : IsEnded 2 (job 2 JobState.completed) queue.jobs
second-IsEnded = record {
  terminal = refl;
  present = refl;
  only = (λ h. ground arith, (λ h. refl, tt));
}

calls-IsEnded_example : IsEnded 2 (job 2 JobState.completed) (calls day queue).jobs
calls-IsEnded_example =
    calls-IsEnded 2 (job 2 JobState.completed) day queue (refl, (tt, (tt, tt))) second-IsEnded

first-IsOnly : IsOnly 1 (job 1 JobState.running) queue.jobs
first-IsOnly = (λ h. refl, (λ h. ground arith, tt))

publish_after_cancel_example :
    let later = calls day (call (cancels 1 7) queue) in
    (first (has_id 1) later.jobs ≡ some (cancel_job (job 1 JobState.running)))
    × (select (of_job 1) (call (publishes publication) later).items ≡ select (of_job 1) later.items)
publish_after_cancel_example =
    publish_after_cancel 1 7 (job 1 JobState.running) day publication queue refl first-IsOnly refl
      refl (refl, (tt, (tt, tt)))
