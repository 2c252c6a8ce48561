-- ===== src/Portal/Queue/Ended.antt =====
-- packages/portal/portal/repository/jobs.py: no transaction touches a job that has ended.
use docs_pe.Common.{
  ℕ, ◌-◌, ◌≡◌, refl, sym, true, false, Option, none, some, List, [], ◌∷◌, ◌++◌, Text, arith, ◌==◌,
  is_empty, all, any, Option-cases, Bool-cases, inl, inr, ◌∙◌, text_eq, All, All-append,
}
use docs_pe.Common.Table.{update, first}
use docs_pe.Common.Maybe.{Yields, Yields-bind, Yields-if}
use docs_pe.Portal.Queue.{Job, JobState, Queue, Item, max_active, active_count, is_terminal}
use docs_pe.Portal.Queue.Finish.{
  promote_fifo, promote_locked, finish_if_drained, drained_job, is_running_job, is_drained,
  drained_state, event, terminal_intents, lock_queue_gate,
}
use docs_pe.Portal.Queue.Lease.{
  finish_all, sweep_expired, claim, claim_swept, lease_item, is_expired, swept, expired_jobs,
}
use docs_pe.Portal.Queue.Publish.{
  Publication, publish, is_observable, publish_found, observe, may_publish,
}
use docs_pe.Portal.Queue.Admit.{
  NewIds, SubmitJob, SubmissionPlan, Reusable, admit_submission, is_admissible, admit_with,
  announce, request_event, cancel_found, cancel, cancel_rows, cancel_tables, cancel_job, has_id,
  is_job,
}
use docs_pe.Portal.Queue.Capacity.{running_events_keeps}
use docs_pe.Portal.Queue.Fair.{Call, admits, cancels, claims, publishes, committed, call, calls}
use docs_pe.Portal.Queue.Final.{
  IsEnded, IsOnly, promote_fifo-KeepsEnded, finish-KeepsEnded, IsEnded-kept,
}

module _ (id : ℕ) (j : Job) where
  abbrev pub Keeps : Queue → Type 0
  Keeps q = IsEnded id j q.jobs

  pub promote_locked-IsEnded : (q : Queue) → Keeps q → Keeps (promote_locked q)
  unfolding promote_locked
  promote_locked-IsEnded q h =
      let slots = max_active - active_count q.jobs in
      let promoted = promote_fifo slots q.jobs in
      elim (Bool-cases (slots == 0)) [
        | inl full ↦ rw full h
        | inr room ↦ rw room (
            rw (running_events_keeps promoted.1 (record q { jobs = promoted.0 })).0
              (IsEnded-kept q.jobs promoted.0 (promote_fifo-KeepsEnded slots q.jobs) h))
      ]

  gate-Yields : (q : Queue) → Yields (λ (n : ℕ). Unit {0}) (lock_queue_gate q)
  gate-Yields q = elim (Option-cases (lock_queue_gate q)) [ inl e ↦ rw e tt | inr (n, e) ↦ rw e tt ]

  finish_if_drained-IsEnded : (k : ℕ) (q : Queue) → Keeps q → Yields Keeps (finish_if_drained k q)
  unfolding finish_if_drained
  finish_if_drained-IsEnded k q h = elim (Bool-cases (is_drained k q)) [
    | inr not_yet ↦ rw not_yet h
    | inl drained ↦
        let q' = record q { jobs = update (is_running_job k) (drained_job k q.items) q.jobs } in
        let q'' = terminal_intents k (drained_state k q.items) q' in
        rw drained (
          Yields-bind (λ (n : ℕ). Unit {0}) Keeps (lock_queue_gate q'') _ (gate-Yields q'')
            (λ n _.
              promote_locked-IsEnded q''
                (IsEnded-kept q.jobs q'.jobs (finish-KeepsEnded k q.items q.jobs) h)))
  ]

  finish_all-IsEnded : (ks : List ℕ) (q : Queue) → Keeps q → Yields Keeps (finish_all ks q)
  unfolding finish_all
  finish_all-IsEnded [] q h = h
  finish_all-IsEnded (k ∷ ks) q h =
      Yields-bind Keeps Keeps (finish_if_drained k q) (finish_all ks)
        (finish_if_drained-IsEnded k q h) (λ q' h'. finish_all-IsEnded ks q' h')

  -- The tables that a transaction commits.
  abbrev KeepsBoth {ℓ} : {A : Type ℓ} → A × Queue → Type 0
  KeepsBoth (a, q) = Keeps q

  lease_item-IsEnded :
      (now : ℕ) (w : Text) (o : Option (Job × Item)) (q : Queue)
      → Keeps q
      → Keeps (lease_item now w o q).1
  unfolding lease_item
  lease_item-IsEnded now w none q h = h
  lease_item-IsEnded now w (some (k, i)) q h = h

  publish_found-IsEnded :
      (p : Publication) (e : ℕ) (q : Queue) (o : Option Item)
      → Keeps q
      → Yields KeepsBoth (publish_found p e q o)
  unfolding publish_found
  publish_found-IsEnded p e q none h = h
  publish_found-IsEnded p e q (some i) h =
      Yields-if KeepsBoth (p.references.is_object_of p.result_object_id i.team_id) _ (
        Yields-bind Keeps KeepsBoth (finish_if_drained i.job_id _) _
          (finish_if_drained-IsEnded i.job_id _ h) (λ q' h'. h'))

  call_claims :
      (stable : List Text) (providers : ℕ → Text) (now : ℕ) (w : Text) (sources : List Text)
      (affinity : Option (Text × ℕ)) (q : Queue)
      → Keeps q
      → Yields KeepsBoth (claim stable providers now w sources affinity q)
  unfolding claim claim_swept sweep_expired
  call_claims stable providers now w sources affinity q h = elim (Bool-cases (is_empty sources)) [
    | inl e ↦ rw e h
    | inr e ↦ elim (Bool-cases (all (λ s. any (text_eq s) stable) sources)) [
      | inr bad ↦ rw e (rw bad h)
      | inl good ↦ rw e (
          rw good (
            Yields-bind Keeps KeepsBoth (sweep_expired now q) _
              (finish_all-IsEnded (expired_jobs now q.jobs q.items)
                (record q { items = update (is_expired now q.jobs) swept q.items }) h)
              (λ q' h'. lease_item-IsEnded now w _ q' h')))
    ]
  ]

  call_publishes : (p : Publication) (q : Queue) → Keeps q → Yields KeepsBoth (publish p q)
  unfolding publish observe
  call_publishes p q h = Yields-if KeepsBoth (is_observable p q) _ (
      publish_found-IsEnded p (observe p q).0 (observe p q).1 (first (may_publish p q.jobs) q.items)
        h)

  first_append :
      (js : List Job) (k : Job)
      → first (has_id id) js ≡ some j
      → first (has_id id) (js ++ k ∷ []) ≡ some j
  first_append [] k e = cc
  first_append (r ∷ js) k e = ground (arith, first_append js k)

  append-IsEnded :
      (js : List Job) (k : Job)
      → (k.id == id) ≡ false
      → IsEnded id j js
      → IsEnded id j (js ++ k ∷ [])
  append-IsEnded js k new h = record {
    terminal = h.terminal;
    present = first_append js k h.present;
    only =
        All-append (λ r. (r.id == id) ≡ true → r ≡ j) js (k ∷ []) h.only
          (λ e. absurd (ground arith), tt);
  }

  announce_jobs : (state : JobState) (k : ℕ) (q : Queue) → (announce state k q).jobs ≡ q.jobs
  unfolding event terminal_intents
  announce_jobs state k q = ground arith

  call_admits :
      (ids : NewIds) (command : SubmitJob) (plan : SubmissionPlan) (reusable : Reusable) (q : Queue)
      → (ids.job == id) ≡ false
      → Keeps q
      → Yields KeepsBoth (admit_submission ids command plan reusable q)
  unfolding admit_submission admit_with
  call_admits ids command plan reusable q new h =
      Yields-bind (λ (n : ℕ). Unit {0}) KeepsBoth (lock_queue_gate q) _ (gate-Yields q)
        (λ n _.
          Yields-if KeepsBoth (is_admissible ids.references command plan reusable q) _
            (rw announce_jobs (append-IsEnded q.jobs _ new h)))

  first_cancelled :
      (k : ℕ) (js : List Job)
      → (k == id) ≡ false
      → first (has_id id) js ≡ some j
      → first (has_id id) (update (has_id k) cancel_job js) ≡ some j
  first_cancelled k [] e h = h
  first_cancelled k (r ∷ js) e h = ground (arith, first_cancelled k js e)

  IsOnly-cancelled :
      (k : ℕ) (js : List Job)
      → (k == id) ≡ false
      → IsOnly id j js
      → IsOnly id j (update (has_id k) cancel_job js)
  IsOnly-cancelled k [] e o = tt
  IsOnly-cancelled k (r ∷ js) e o = elim (Bool-cases (has_id k r)) [
    | inl hit ↦ rw hit (λ same. absurd (ground arith), IsOnly-cancelled k js e o.1)
    | inr miss ↦ rw miss (o.0, IsOnly-cancelled k js e o.1)
  ]

  -- The job that `cancel` finds, if it has the ended job's id, is the ended job.
  found_ended :
      (k team : ℕ) (js : List Job) (r : Job)
      → IsOnly id j js
      → first (is_job k team) js ≡ some r
      → (r.id ≡ k) × ((r.id == id) ≡ true → r ≡ j)
  found_ended k team [] r o e = (absurd (ground arith), absurd (ground arith))
  found_ended k team (s ∷ js) r o e = elim (Bool-cases (is_job k team s)) [
    | inl hit ↦ let same : s ≡ r = ground arith in (ground arith, λ m. sym same ∙ o.0 (rw same m))
    | inr miss ↦ found_ended k team js r o.1 (ground arith)
  ]

  request_jobs : (r : Job) (q : Queue) → (request_event r q).jobs ≡ q.jobs
  unfolding event
  request_jobs r q = ground arith

  cancel_rows-IsEnded :
      (r : Job) (q : Queue) → (r.id == id) ≡ false → Keeps q → Keeps (cancel_rows r q)
  unfolding cancel_rows
  cancel_rows-IsEnded r q e h =
      promote_locked-IsEnded (terminal_intents r.id JobState.cancelled (cancel_tables r q))
        (record {
          terminal = h.terminal;
          present = first_cancelled r.id q.jobs e h.present;
          only = IsOnly-cancelled r.id q.jobs e h.only;
        })

  cancel_found-IsEnded :
      (k team : ℕ) (q : Queue) (o : Option Job)
      → first (is_job k team) q.jobs ≡ o
      → Keeps q
      → Keeps (cancel_found q o).1
  unfolding cancel_found
  cancel_found-IsEnded k team q none e h = h
  cancel_found-IsEnded k team q (some r) e h = elim (Bool-cases (is_terminal r.state)) [
    | inl t ↦ rw t h
    | inr t ↦ rw t (elim (Bool-cases (r.id == id)) [
      | inl same ↦
          let is_j = (found_ended k team q.jobs r h.only e).1 same in
          absurd (ground (arith, h.terminal, is_j))
      | inr other ↦ cancel_rows-IsEnded r q other h
    ])
  ]

  call_cancels : (k team : ℕ) (q : Queue) → Keeps q → Yields KeepsBoth (cancel k team q)
  unfolding cancel
  call_cancels k team q h =
      Yields-bind (λ (n : ℕ). Unit {0}) KeepsBoth (lock_queue_gate q) _ (gate-Yields q)
        (λ n _. cancel_found-IsEnded k team q (first (is_job k team) q.jobs) refl h)

  -- `uuid4` gives no new job the id.
  abbrev pub IsFresh : Call → Type 0
  IsFresh (admits ids command plan reusable) = (ids.job == id) ≡ false
  IsFresh (cancels k team) = Unit
  IsFresh (claims stable providers now w sources affinity) = Unit
  IsFresh (publishes p) = Unit

  committed-IsEnded {ℓ} :
      {A : Type ℓ} (q : Queue) (o : Option (A × Queue))
      → Keeps q
      → Yields KeepsBoth o
      → Keeps (committed q o)
  committed-IsEnded q none h y = h
  committed-IsEnded q (some (a, q')) h y = y

  call-IsEnded : (c : Call) (q : Queue) → IsFresh c → Keeps q → Keeps (call c q)
  unfolding call
  call-IsEnded (admits ids command plan reusable) q f h =
      committed-IsEnded q _ h (call_admits ids command plan reusable q f h)
  call-IsEnded (cancels k team) q f h = committed-IsEnded q _ h (call_cancels k team q h)
  call-IsEnded (claims stable providers now w sources affinity) q f h =
      committed-IsEnded q _ h (call_claims stable providers now w sources affinity q h)
  call-IsEnded (publishes p) q f h = committed-IsEnded q _ h (call_publishes p q h)

  -- A completed, failed or cancelled job, alone under its id, keeps its row, whatever transactions
  -- follow, if no submission is given its id.
  pub calls-IsEnded :
      (cs : List Call) (q : Queue)
      → All IsFresh cs
      → IsEnded id j q.jobs
      → IsEnded id j (calls cs q).jobs
  unfolding calls
  calls-IsEnded [] q f h = h
  calls-IsEnded (c ∷ cs) q f h = calls-IsEnded cs (call c q) f.1 (call-IsEnded c q f.0 h)
