-- ===== src/Portal/Queue/Capacity.antt =====
-- packages/portal/portal/repository/jobs.py: how many jobs run, and that none waits in vain.
use docs_pe.Common.{
  ℕ, zero, suc, ◌+◌, ◌-◌, ◌≡◌, ◌≤◌, ◌<◌, refl, min, Option, some, List, [], ◌∷◌, arith, ◌==◌,
  Bool-cases, inl, inr, ◌∙◌, text,
}
use docs_pe.Common.Table.{update}
use docs_pe.Portal.Queue.{Job, Queue, Item, max_active, active_count, queued_count}
use docs_pe.Portal.Queue.Finish.{
  promote_fifo, running_events, promote_locked, finish_if_drained, drained_job, is_running_job,
  is_drained, drained_state, event, terminal_intents, lock_queue_gate,
}
use docs_pe.Portal.Queue.Lease.{finish_all}

-- At most five jobs are active, and a job waits only while five are.
pub record IsFair (q : Queue) : Type 0 where
  pub limit : q.max_active_jobs ≡ max_active
  pub capacity : active_count q.jobs ≤ max_active
  pub busy : 0 < queued_count q.jobs → active_count q.jobs ≡ max_active

-- A transaction that commits, on a fair queue.
abbrev pub Commits {ℓ} : {A : Type ℓ} → Option (A × Queue) → Type ℓ
Commits {A = A} o = (a : A) × (q : Queue) × (o ≡ some (a, q)) × IsFair q

promote_fifo_counts :
    (n : ℕ) (js : List Job)
    → (active_count (promote_fifo n js).0 ≡ active_count js + min n (queued_count js))
      × (queued_count (promote_fifo n js).0 ≡ queued_count js - n)
unfolding promote_fifo
promote_fifo_counts zero js = (omega arith, omega arith)
promote_fifo_counts (suc n) [] = (omega arith, omega arith)
promote_fifo_counts (suc n) (j ∷ js) =
    ground (arith, promote_fifo_counts n js, promote_fifo_counts (suc n) js)

pub running_events_keeps :
    (ids : List ℕ) (q : Queue)
    → ((running_events ids q).jobs ≡ q.jobs)
      × ((running_events ids q).items ≡ q.items)
      × ((running_events ids q).max_active_jobs ≡ q.max_active_jobs)
unfolding running_events
running_events_keeps [] q = (refl, refl, refl)
running_events_keeps (id ∷ ids) q = running_events_keeps ids (event id (text "job.running") q)

-- Promotion makes a queue fair that has at most five active jobs.
pub promote_locked-IsFair :
    (q : Queue)
    → q.max_active_jobs ≡ max_active
    → active_count q.jobs ≤ max_active
    → IsFair (promote_locked q)
unfolding promote_locked
promote_locked-IsFair q l c =
    let slots = max_active - active_count q.jobs in
    let promoted = promote_fifo slots q.jobs in
    let counts = promote_fifo_counts slots q.jobs in
    let kept = running_events_keeps promoted.1 (record q { jobs = promoted.0 }) in
    elim (Bool-cases (slots == 0)) [
      | inl full ↦ rw full (record { limit = l; capacity = c; busy = λ h. ground arith })
      | inr room ↦ rw room (record {
        limit = kept.2 ∙ l;
        capacity = rw kept.0 (ground (arith, counts));
        busy = λ h. rw kept.0 (ground (arith, counts, kept.0));
      })
    ]

pub gate_open : (q : Queue) → q.max_active_jobs ≡ max_active → lock_queue_gate q ≡ some max_active
unfolding lock_queue_gate
gate_open q l = rw l refl

active-finished :
    (id : ℕ) (items : List Item) (js : List Job)
    → active_count (update (is_running_job id) (drained_job id items) js) ≤ active_count js
active-finished id items [] = omega arith
active-finished id items (j ∷ js) = ground (arith, active-finished id items js)

-- Finishing a drained job commits, and hands its place to the next queued job.
pub finish_if_drained-IsFair :
    (id : ℕ) (q : Queue) → IsFair q → (q' : Queue) × (finish_if_drained id q ≡ some q') × IsFair q'
unfolding finish_if_drained
finish_if_drained-IsFair id q f = elim (Bool-cases (is_drained id q)) [
  | inr not_yet ↦ (q, rw not_yet refl, f)
  | inl drained ↦
      let q' = record q { jobs = update (is_running_job id) (drained_job id q.items) q.jobs } in
      let q'' = terminal_intents id (drained_state id q.items) q' in
      (
        promote_locked q'',
        rw drained (rw (gate_open q'' f.limit) refl),
        promote_locked-IsFair q'' f.limit
            (grind (arith, active-finished id q.items q.jobs, f.capacity)),
      )
]

pub finish_all-IsFair :
    (ids : List ℕ) (q : Queue) → IsFair q → (q' : Queue) × (finish_all ids q ≡ some q') × IsFair q'
unfolding finish_all
finish_all-IsFair [] q f = (q, refl, f)
finish_all-IsFair (id ∷ ids) q f =
    let (q', e, f') = finish_if_drained-IsFair id q f in
    let (q'', e', f'') = finish_all-IsFair ids q' f' in (q'', rw e e', f'')
