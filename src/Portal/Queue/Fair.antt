-- ===== src/Portal/Queue/Fair.antt =====
-- packages/portal/portal/repository/jobs.py: the transactions of the queue keep it fair.
use docs_pe.Common.{
  ℕ, ◌+◌, ◌≡◌, ◌≤◌, refl, Bool, true, false, Option, none, some, List, [], ◌∷◌, ◌++◌, Text, arith,
  is_empty, all, any, Bool-cases, inl, inr, ◌∙◌, text_eq,
}
use docs_pe.Common.Table.{update, first}
use docs_pe.Common.Maybe.{Yields, Yields-if}
use docs_pe.Portal.Queue.{
  Job, JobState, Queue, Item, max_active, active_count, queued_count, is_terminal,
}
use docs_pe.Portal.Queue.Lease.{
  sweep_expired, claim, claim_swept, lease_item, Providers, Claim, is_expired, swept, expired_jobs,
}
use docs_pe.Portal.Queue.Publish.{
  Publication, publish, is_observable, publish_found, observe, may_publish, published_item,
}
use docs_pe.Portal.Queue.Admit.{
  NewIds, SubmitJob, SubmissionPlan, Reusable, admit_submission, is_admissible, admit_with,
  announce, new_items, request_event, fetch_items, cancel_found, cancel, cancel_rows, cancel_tables,
  cancel_job, has_id, is_job, new_job, admitted_state,
}
use docs_pe.Portal.Queue.Finish.{event, terminal_intents}
use docs_pe.Portal.Queue.Capacity.{
  IsFair, Commits, promote_locked-IsFair, gate_open, finish_if_drained-IsFair, finish_all-IsFair,
}

sweep_expired-IsFair :
    (now : ℕ) (q : Queue) → IsFair q → (q' : Queue) × (sweep_expired now q ≡ some q') × IsFair q'
unfolding sweep_expired
sweep_expired-IsFair now q f =
    finish_all-IsFair (expired_jobs now q.jobs q.items)
      (record q { items = update (is_expired now q.jobs) swept q.items })
      (record { limit = f.limit; capacity = f.capacity; busy = f.busy })

lease_item-IsFair :
    (now : ℕ) (w : Text) (o : Option (Job × Item)) (q : Queue)
    → IsFair q
    → IsFair (lease_item now w o q).1
unfolding lease_item
lease_item-IsFair now w none q f = f
lease_item-IsFair now w (some (j, i)) q f = record {
  limit = f.limit;
  capacity = f.capacity;
  busy = f.busy;
}

claim_swept-IsFair :
    (providers : Providers) (now : ℕ) (w : Text) (sources : List Text)
    (affinity : Option (Text × ℕ)) (q : Queue)
    → IsFair q
    → IsFair (claim_swept providers now w sources affinity q).1
unfolding claim_swept
claim_swept-IsFair providers now w sources affinity q f = lease_item-IsFair now w _ q f

claim-IsFair :
    (stable : List Text) (providers : Providers) (now : ℕ) (w : Text) (sources : List Text)
    (affinity : Option (Text × ℕ)) (q : Queue)
    → IsFair q
    → (c : Claim) × (q' : Queue) × (claim stable providers now w sources affinity q ≡ some (c, q'))
      × IsFair q'
unfolding claim
claim-IsFair stable providers now w sources affinity q f = elim (Bool-cases (is_empty sources)) [
  | inl e ↦ (Claim.source_required, q, rw e refl, f)
  | inr e ↦ elim (Bool-cases (all (λ s. any (text_eq s) stable) sources)) [
    | inr bad ↦ (Claim.source_not_enabled, q, rw e (rw bad refl), f)
    | inl good ↦
        let (q', s, f') = sweep_expired-IsFair now q f in
        let ended = claim_swept providers now w sources affinity q' in
        (
          ended.0,
          ended.1,
          rw e (rw good (rw s refl)),
          claim_swept-IsFair providers now w sources affinity q' f',
        )
  ]
]

pub observe-IsFair : (p : Publication) (q : Queue) → IsFair q → IsFair (observe p q).1
unfolding observe
observe-IsFair p q f = record { limit = f.limit; capacity = f.capacity; busy = f.busy }

abbrev LeavesFair {ℓ} : {A : Type ℓ} → A × Queue → Type 0
LeavesFair x = IsFair x.1

publish_found-IsFair :
    (p : Publication) (entry_id : ℕ) (q : Queue) (o : Option Item)
    → IsFair q
    → Yields LeavesFair (publish_found p entry_id q o)
unfolding publish_found
publish_found-IsFair p entry_id q none f = f
publish_found-IsFair p entry_id q (some i) f =
    let (q', e, f') =
      finish_if_drained-IsFair i.job_id
        (record q { items = update (may_publish p q.jobs) (published_item p entry_id) q.items })
        (record { limit = f.limit; capacity = f.capacity; busy = f.busy }) in
    Yields-if LeavesFair (p.references.is_object_of p.result_object_id i.team_id) _ (rw e f')

-- With an object of the team of the item, the rest of `publish` does not raise.
pub publish_found-Commits :
    (p : Publication) (entry_id : ℕ) (q : Queue) (o : Option Item)
    → IsFair q
    → ((i : Item) → o ≡ some i → p.references.is_object_of p.result_object_id i.team_id ≡ true)
    → Commits (publish_found p entry_id q o)
unfolding publish_found
publish_found-Commits p entry_id q none f h = (false, q, refl, f)
publish_found-Commits p entry_id q (some i) f h =
    let (q', e, f') =
      finish_if_drained-IsFair i.job_id
        (record q { items = update (may_publish p q.jobs) (published_item p entry_id) q.items })
        (record { limit = f.limit; capacity = f.capacity; busy = f.busy }) in
    (true, q', rw (h i refl) (rw e refl), f')

publish-IsFair : (p : Publication) (q : Queue) → IsFair q → Yields LeavesFair (publish p q)
unfolding publish
publish-IsFair p q f = Yields-if LeavesFair (is_observable p q) _ (
    publish_found-IsFair p (observe p q).0 (observe p q).1 (first (may_publish p q.jobs) q.items)
      (observe-IsFair p q f))

active_append :
    (js : List Job) (j : Job)
    → (active_count (js ++ j ∷ []) ≡ active_count js + active_count (j ∷ []))
      × (queued_count (js ++ j ∷ []) ≡ queued_count js + queued_count (j ∷ []))
active_append [] j = (omega arith, omega arith)
active_append (k ∷ js) j = ground (arith, active_append js j)

announce-IsFair : (state : JobState) (id : ℕ) (q : Queue) → IsFair q → IsFair (announce state id q)
unfolding event terminal_intents
announce-IsFair state id q f = elim (Bool-cases (is_terminal state)) [
  | inl e ↦ rw e (record { limit = f.limit; capacity = f.capacity; busy = f.busy })
  | inr e ↦ rw e (record { limit = f.limit; capacity = f.capacity; busy = f.busy })
]

-- A new job runs if there is room, and waits otherwise.
appended-IsFair :
    (nothing : Bool) (j : Job) (items : List Item) (q : Queue)
    → IsFair q
    → j.state ≡ admitted_state nothing (active_count q.jobs) max_active
    → IsFair (record q { jobs = q.jobs ++ j ∷ []; items = items })
appended-IsFair nothing j items q f e = record {
  limit = f.limit;
  capacity = ground (arith, active_append q.jobs j, f.capacity, e);
  busy = λ h. ground (arith, active_append q.jobs j, f.capacity, e);
}

admit_with-IsFair :
    (ids : NewIds) (command : SubmitJob) (plan : SubmissionPlan) (reusable : Reusable) (q : Queue)
    → IsFair q
    → IsFair (admit_with ids command plan reusable max_active q).1
unfolding admit_with
admit_with-IsFair ids command plan reusable q f =
    let nothing = is_empty (fetch_items reusable ids.job command.team_id ids.fetched plan.items) in
    let state = admitted_state nothing (active_count q.jobs) max_active in
    announce-IsFair state ids.job _ (
      appended-IsFair nothing (new_job ids command plan state)
        (q.items ++ new_items ids command plan reusable) q f refl)

admit_submission-IsFair :
    (ids : NewIds) (command : SubmitJob) (plan : SubmissionPlan) (reusable : Reusable) (q : Queue)
    → IsFair q
    → Yields LeavesFair (admit_submission ids command plan reusable q)
unfolding admit_submission
admit_submission-IsFair ids command plan reusable q f = rw (gate_open q f.limit) (
    Yields-if LeavesFair (is_admissible ids.references command plan reusable q)
      (some (admit_with ids command plan reusable max_active q))
      (admit_with-IsFair ids command plan reusable q f))

active-cancelled :
    (id : ℕ) (js : List Job) → active_count (update (has_id id) cancel_job js) ≤ active_count js
active-cancelled id [] = omega arith
active-cancelled id (j ∷ js) = ground (arith, active-cancelled id js)

request_event_keeps :
    (j : Job) (q : Queue)
    → ((request_event j q).jobs ≡ q.jobs)
      × ((request_event j q).max_active_jobs ≡ q.max_active_jobs)
unfolding event
request_event_keeps j q = ground arith

cancel_rows-IsFair : (j : Job) (q : Queue) → IsFair q → IsFair (cancel_rows j q)
unfolding cancel_rows
cancel_rows-IsFair j q f =
    let fewer : active_count (update (has_id j.id) cancel_job q.jobs) ≤ max_active =
      grind (arith, active-cancelled j.id q.jobs, f.capacity) in
    promote_locked-IsFair (terminal_intents j.id JobState.cancelled (cancel_tables j q))
      ((request_event_keeps j q).1 ∙ f.limit) fewer

cancel_found-IsFair : (q : Queue) (o : Option Job) → IsFair q → IsFair (cancel_found q o).1
unfolding cancel_found
cancel_found-IsFair q none f = f
cancel_found-IsFair q (some j) f = elim (Bool-cases (is_terminal j.state)) [
  | inl e ↦ rw e f
  | inr e ↦ rw e (cancel_rows-IsFair j q f)
]

cancel-IsFair :
    (job_id team_id : ℕ) (q : Queue)
    → IsFair q
    → (j : Option Job) × (q' : Queue) × (cancel job_id team_id q ≡ some (j, q')) × IsFair q'
unfolding cancel
cancel-IsFair job_id team_id q f =
    let done = cancel_found q (first (is_job job_id team_id) q.jobs) in
    (done.0, done.1, rw (gate_open q f.limit) refl, cancel_found-IsFair q _ f)

-- The transactions of the queue, with what their callers pass.
pub data Call : Type 0 where
  admits : NewIds → SubmitJob → SubmissionPlan → Reusable → Call
  cancels : ℕ → ℕ → Call
  claims : List Text → Providers → ℕ → Text → List Text → Option (Text × ℕ) → Call
  publishes : Publication → Call

-- The tables after a transaction, as they were where it raises.
abbrev pub committed {ℓ} : {A : Type ℓ} → Queue → Option (A × Queue) → Queue
committed q none = q
committed q (some (a, q')) = q'

unfoldable pub call : Call → Queue → Queue
call (admits ids command plan reusable) q =
    committed q (admit_submission ids command plan reusable q)
call (cancels job_id team_id) q = committed q (cancel job_id team_id q)
call (claims stable providers now w sources affinity) q =
    committed q (claim stable providers now w sources affinity q)
call (publishes p) q = committed q (publish p q)

unfoldable pub calls : List Call → Queue → Queue
calls [] q = q
calls (c ∷ cs) q = calls cs (call c q)

committed-IsFair {ℓ} :
    {A : Type ℓ} (q : Queue) (o : Option (A × Queue))
    → IsFair q
    → Yields LeavesFair o
    → IsFair (committed q o)
committed-IsFair q none f y = f
committed-IsFair q (some (a, q')) f y = y

call-IsFair : (c : Call) (q : Queue) → IsFair q → IsFair (call c q)
unfolding call
call-IsFair (admits ids command plan reusable) q f =
    committed-IsFair q (admit_submission ids command plan reusable q) f
      (admit_submission-IsFair ids command plan reusable q f)
call-IsFair (cancels job_id team_id) q f =
    let (j, q', e, f') = cancel-IsFair job_id team_id q f in rw e f'
call-IsFair (claims stable providers now w sources affinity) q f =
    let (c, q', e, f') = claim-IsFair stable providers now w sources affinity q f in rw e f'
call-IsFair (publishes p) q f = committed-IsFair q (publish p q) f (publish-IsFair p q f)

-- Whatever is submitted, cancelled, claimed and published on a queue with the limit of five where at
-- most five jobs are active and none is queued while fewer are: that stays so.
pub calls-IsFair : (cs : List Call) (q : Queue) → IsFair q → IsFair (calls cs q)
unfolding calls
calls-IsFair [] q f = f
calls-IsFair (c ∷ cs) q f = calls-IsFair cs (call c q) (call-IsFair c q f)
