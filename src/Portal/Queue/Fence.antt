-- ===== src/Portal/Queue/Fence.antt =====
-- packages/portal/portal/repository/jobs.py: what a late worker can still write.
use docs_pe.Common.{
  ℕ, ◌-◌, ◌≡◌, refl, sym, Bool, true, false, Option, none, some, List, [], ◌∷◌, arith, ◌==◌, any,
  Option-cases, Bool-cases, inl, inr, ◌∙◌, All, ap, subst,
}
use docs_pe.Common.Table.{update, first, select}
use docs_pe.Common.Maybe.{Yields, Yields-bind, Yields-if}
use docs_pe.Portal.Queue.{Job, JobState, Queue, Item, max_active, active_count, is_terminal}
use docs_pe.Portal.Queue.Finish.{
  finish_if_drained, is_drained, lock_queue_gate, promote_locked, terminal_intents, drained_state,
  drained_job, is_running_job, promote_fifo, running_events,
}
use docs_pe.Portal.Queue.Publish.{
  Publication, publish, is_observable, publish_found, observe, may_publish, published_item,
  fenced_job,
}
use docs_pe.Portal.Queue.Admit.{
  has_id, is_job, cancel, cancel_found, cancel_rows, cancel_job, cancel_tables,
}
use docs_pe.Portal.Queue.Capacity.{gate_open}
use docs_pe.Portal.Queue.Fair.{Call, cancels, publishes, call, calls, committed}
use docs_pe.Portal.Queue.Final.{IsEnded, IsOnly}
use docs_pe.Portal.Queue.Ended.{calls-IsEnded, promote_locked-IsEnded, IsFresh}

-- What finishing a job leaves alone.
abbrev pub SameRecords : Queue → Queue → Type 0
SameRecords q q' =
    (q'.items ≡ q.items) × (q'.entries ≡ q.entries) × (q'.lookup_attempts ≡ q.lookup_attempts)

running_events-SameRecords : (ids : List ℕ) (q : Queue) → SameRecords q (running_events ids q)
unfolding running_events
running_events-SameRecords [] q = (refl, refl, refl)
running_events-SameRecords (id ∷ ids) q = running_events-SameRecords ids _

promote_locked-SameRecords : (q : Queue) → SameRecords q (promote_locked q)
unfolding promote_locked
promote_locked-SameRecords q =
    let slots = max_active - active_count q.jobs in
    let promoted = promote_fifo slots q.jobs in
    elim (Bool-cases (slots == 0)) [
      | inl full ↦ rw full (refl, refl, refl)
      | inr room ↦ rw room (running_events-SameRecords promoted.1 (record q { jobs = promoted.0 }))
    ]

pub finish_if_drained-SameRecords :
    (k : ℕ) (q : Queue) → Yields (SameRecords q) (finish_if_drained k q)
unfolding finish_if_drained
finish_if_drained-SameRecords k q = elim (Bool-cases (is_drained k q)) [
  | inr not_yet ↦ rw not_yet (refl, refl, refl)
  | inl drained ↦
      let q' = record q { jobs = update (is_running_job k) (drained_job k q.items) q.jobs } in
      let q'' = terminal_intents k (drained_state k q.items) q' in
      elim (Option-cases (lock_queue_gate q'')) [
        | inl e ↦ rw drained (rw e tt)
        | inr (n, e) ↦ rw drained (rw e (promote_locked-SameRecords q''))
      ]
]

abbrev pub of_job : ℕ → Item → Bool
of_job id i = i.job_id == id

not_fenced :
    (id fence : ℕ) (j : Job) (js : List Job)
    → is_terminal j.state ≡ true
    → IsOnly id j js
    → any (fenced_job id fence) js ≡ false
not_fenced id fence j [] t o = refl
not_fenced id fence j (r ∷ js) t o = elim (Bool-cases (r.id == id)) [
  | inl e ↦ let same = o.0 e in ground (arith, not_fenced id fence j js t o.1)
  | inr e ↦ ground (arith, not_fenced id fence j js t o.1)
]

module _ (id : ℕ) (j : Job) where
  not_publishable :
      (p : Publication) (i : Item) (js : List Job)
      → IsEnded id j js
      → of_job id i ≡ true
      → may_publish p js i ≡ false
  not_publishable p i js h e =
      let same : i.job_id ≡ id = ground arith in
      ground (arith, not_fenced id p.fence j js h.terminal h.only)

  unpublished :
      (p : Publication) (e : ℕ) (js : List Job) (items : List Item)
      → IsEnded id j js
      → select (of_job id) (update (may_publish p js) (published_item p e) items)
        ≡ select (of_job id) items
  unpublished p e js [] h = refl
  unpublished p e js (i ∷ items) h = elim (Bool-cases (of_job id i)) [
    | inl mine ↦ ground (arith, not_publishable p i js h mine, unpublished p e js items h)
    | inr other ↦ ground (arith, unpublished p e js items h)
  ]

  publish_found-ended :
      (p : Publication) (e : ℕ) (q : Queue) (o : Option Item)
      → IsEnded id j q.jobs
      → Yields
          (λ ((b, q') : Bool × Queue). select (of_job id) q'.items ≡ select (of_job id) q.items)
          (publish_found p e q o)
  unfolding publish_found
  publish_found-ended p e q none h = refl
  publish_found-ended p e q (some i) h =
      let q1 = record q { items = update (may_publish p q.jobs) (published_item p e) q.items } in
      Yields-if
        (λ ((b, q') : Bool × Queue). select (of_job id) q'.items ≡ select (of_job id) q.items)
        (p.references.is_object_of p.result_object_id i.team_id) _
        (Yields-bind (SameRecords q1)
          (λ ((b, q') : Bool × Queue). select (of_job id) q'.items ≡ select (of_job id) q.items)
          (finish_if_drained i.job_id q1) (λ q'. some (true, q'))
          (finish_if_drained-SameRecords i.job_id q1)
          (λ q' same. ap (select (of_job id)) same.0 ∙ unpublished p e q.jobs q.items h))

  items_of_ended :
      (p : Publication) (q : Queue)
      → IsEnded id j q.jobs
      → select (of_job id) (call (publishes p) q).items ≡ select (of_job id) q.items
  unfolding call publish observe
  items_of_ended p q h = after q (publish p q) refl (
      Yields-if
        (λ ((b, q') : Bool × Queue). select (of_job id) q'.items ≡ select (of_job id) q.items)
        (is_observable p q) _
        (publish_found-ended p (observe p q).0 (observe p q).1
          (first (may_publish p q.jobs) q.items) h))
    where
      after :
          (q : Queue) (o : Option (Bool × Queue))
          → select (of_job id) q.items ≡ select (of_job id) q.items
          → Yields
              (λ ((b, q') : Bool × Queue). select (of_job id) q'.items ≡ select (of_job id) q.items)
              o
          → select (of_job id) (committed q o).items ≡ select (of_job id) q.items
      after q none e y = e
      after q (some (b, q')) e y = y

cancelled-IsOnly :
    (id : ℕ) (j : Job) (js : List Job)
    → IsOnly id j js
    → IsOnly id (cancel_job j) (update (has_id id) cancel_job js)
cancelled-IsOnly id j [] o = tt
cancelled-IsOnly id j (r ∷ js) o = elim (Bool-cases (has_id id r)) [
  | inl hit ↦ rw hit (λ e. ap cancel_job (o.0 hit), cancelled-IsOnly id j js o.1)
  | inr miss ↦ rw miss (λ e. absurd (ground arith), cancelled-IsOnly id j js o.1)
]

cancelled_first :
    (id team : ℕ) (j : Job) (js : List Job)
    → IsOnly id j js
    → first (is_job id team) js ≡ some j
    → first (has_id id) (update (has_id id) cancel_job js) ≡ some (cancel_job j)
cancelled_first id team j [] o e = cc
cancelled_first id team j (r ∷ js) o e = elim (Bool-cases (has_id id r)) [
  | inl hit ↦ let same = o.0 hit in ground (arith, ap cancel_job same)
  | inr miss ↦ ground (arith, cancelled_first id team j js o.1)
]

found_id : (id team : ℕ) (j : Job) (js : List Job) → first (is_job id team) js ≡ some j → j.id ≡ id
found_id id team j [] e = cc
found_id id team j (r ∷ js) e = ground (arith, found_id id team j js)

cancel_job_terminal : (j : Job) → is_terminal (cancel_job j).state ≡ true
cancel_job_terminal j = ground arith

cancel-IsEnded :
    (id team : ℕ) (j : Job) (q : Queue)
    → q.max_active_jobs ≡ max_active
    → IsOnly id j q.jobs
    → first (is_job id team) q.jobs ≡ some j
    → is_terminal j.state ≡ false
    → IsEnded id (cancel_job j) (call (cancels id team) q).jobs
unfolding call cancel cancel_found cancel_rows
cancel-IsEnded id team j q l o e live =
    let q' = terminal_intents j.id JobState.cancelled (cancel_tables j q) in
    let same : j.id ≡ id = found_id id team j q.jobs e in
    let ended : IsEnded id (cancel_job j) (update (has_id id) cancel_job q.jobs) = record {
      terminal = cancel_job_terminal j;
      present = cancelled_first id team j q.jobs o e;
      only = cancelled-IsOnly id j q.jobs o;
    } in
    rw (gate_open q l) (
      rw e (
        rw live (
          promote_locked-IsEnded id (cancel_job j) q' (
            subst (λ k. IsEnded id (cancel_job j) (update (has_id k) cancel_job q.jobs)) (sym same)
              ended))))

-- Once a team has cancelled its job, alone under its id and not ended before, then after any further
-- transactions, none of them a submission under its id, the job is cancelled, and nothing that a
-- worker publishes then, under whatever fence, changes an item of it.
pub publish_after_cancel :
    (id team : ℕ) (j : Job) (cs : List Call) (p : Publication) (q : Queue)
    → q.max_active_jobs ≡ max_active
    → IsOnly id j q.jobs
    → first (is_job id team) q.jobs ≡ some j
    → is_terminal j.state ≡ false
    → All (IsFresh id j) cs
    → let later = calls cs (call (cancels id team) q) in
      (first (has_id id) later.jobs ≡ some (cancel_job j))
      × (select (of_job id) (call (publishes p) later).items ≡ select (of_job id) later.items)
publish_after_cancel id team j cs p q l o e live fresh =
    let ended =
      calls-IsEnded id (cancel_job j) cs (call (cancels id team) q) fresh
        (cancel-IsEnded id team j q l o e live) in
    (ended.present, items_of_ended id (cancel_job j) p (calls cs (call (cancels id team) q)) ended)
