-- ===== src/Portal/Queue/Lease.antt =====
-- packages/portal/portal/repository/jobs.py: `_SWEEP_EXPIRED`, `_CLAIM_AFFINITY`, `_CLAIM_ANY` and
-- `claim`. The database is seen by one transaction at a time; among items of one ordinal, where SQL
-- leaves the choice open, the first in the table is taken.
use docs_pe.Common.{
  ℕ, ◌+◌, Bool, true, false, not, Option, none, some, List, [], ◌∷◌, Text, text, text_eq, any, ◌==◌,
  ◌&&◌, ltb, leb, if◌then◌else◌, is_empty, all,
}
use docs_pe.Common.Table.{update}
use docs_pe.Common.Maybe.{◌>>=◌}
use docs_pe.Portal.Breakers.{BreakerRow, health_of, is_open}
use docs_pe.Portal.Queue.{
  Job, Queue, Item, ItemState, max_lease_attempts, is_running, is_pending, is_leased,
}
use docs_pe.Portal.Queue.Finish.{finish_if_drained, is_running_job}

abbrev pub has_expired : ℕ → Option ℕ → Bool
has_expired now none = false
has_expired now (some t) = ltb t now

-- The rows that `_SWEEP_EXPIRED` selects.
abbrev pub is_expired : ℕ → List Job → Item → Bool
is_expired now jobs i =
    is_leased i.state && has_expired now i.lease_expires_at && any (is_running_job i.job_id) jobs

abbrev pub swept : Item → Item
swept i = record i {
  state = if leb max_lease_attempts i.attempts then ItemState.failed else ItemState.pending;
  reason = if leb max_lease_attempts i.attempts then some (text "lease_expired") else i.reason;
  lease_owner = none;
  lease_expires_at = none;
}

-- The set of job ids that the statement returns, each once.
abbrev insert_id : ℕ → List ℕ → List ℕ
insert_id id ids = if any (λ other. other == id) ids then ids else id ∷ ids

abbrev pub expired_jobs : ℕ → List Job → List Item → List ℕ
expired_jobs now jobs [] = []
expired_jobs now jobs (i ∷ items) =
    let rest = expired_jobs now jobs items in
    if is_expired now jobs i then insert_id i.job_id rest else rest

unfoldable pub finish_all : List ℕ → Queue → Option Queue
finish_all [] q = some q
finish_all (id ∷ ids) q = finish_if_drained id q >>= finish_all ids

-- `_sweep_expired_locked`
unfoldable pub sweep_expired : ℕ → Queue → Option Queue
unfolding finish_all
sweep_expired now q =
    finish_all (expired_jobs now q.jobs q.items)
      (record q { items = update (is_expired now q.jobs) swept q.items })

-- The provider of a job's credential version, in a table that the join always finds.
abbrev pub Providers : Type 0
Providers = ℕ → Text

abbrev pub is_source : Text → Option Text → Bool
is_source source none = false
is_source source (some s) = text_eq s source

-- The rows that a claim may take for one job and one source.
abbrev pub is_claimable : Providers → ℕ → List BreakerRow → Job → Text → Item → Bool
is_claimable providers now breakers job source i =
    i.job_id == job.id
    && (is_pending i.state
        && (is_source source i.source
            && not (is_open now (health_of source (providers job.credential_version_id) breakers))))

-- ORDER BY ordinal LIMIT 1
abbrev pub lower : Option Item → Option Item → Option Item
lower none o = o
lower (some i) none = some i
lower (some i) (some j) = if leb i.ordinal j.ordinal then some i else some j

unfoldable pub lowest : (Item → Bool) → List Item → Option Item
lowest p [] = none
lowest p (i ∷ items) = lower (if p i then some i else none) (lowest p items)

-- The lateral join over the wanted sources.
unfoldable pub lowest_of_sources :
    Providers → ℕ → List BreakerRow → Job → List Text → List Item → Option Item
unfolding lowest
lowest_of_sources providers now breakers job [] items = none
lowest_of_sources providers now breakers job (source ∷ sources) items =
    lower (lowest (is_claimable providers now breakers job source) items)
      (lowest_of_sources providers now breakers job sources items)

-- ORDER BY queue_sequence LIMIT 1, over the running jobs that pass a test and have an item.
unfoldable pub candidate : (Job → Bool) → (Job → Option Item) → List Job → Option (Job × Item)
candidate wanted top [] = none
candidate wanted top (j ∷ jobs) =
    let rest = candidate wanted top jobs in
    if is_running j.state && wanted j
    then elim (top j) [ none ↦ rest | some i ↦ some (j, i) ]
    else rest

unfoldable pub affinity_candidate : Providers → ℕ → Text → ℕ → Queue → Option (Job × Item)
unfolding candidate lowest
affinity_candidate providers now source version q =
    candidate (λ j. j.credential_version_id == version)
      (λ j. lowest (is_claimable providers now q.breakers j source) q.items) q.jobs

unfoldable pub any_candidate : Providers → ℕ → List Text → Queue → Option (Job × Item)
unfolding candidate lowest_of_sources
any_candidate providers now sources q =
    candidate (λ j. true) (λ j. lowest_of_sources providers now q.breakers j sources q.items) q.jobs

-- Five minutes, in milliseconds.
abbrev pub item_lease : ℕ
item_lease = 300000

abbrev pub leased : ℕ → Text → Job → Item → Item
leased now worker_id job i = record i {
  state = ItemState.running;
  lease_owner = some worker_id;
  lease_fence = job.lease_fence;
  lease_expires_at = some (now + item_lease);
  attempts = i.attempts + 1;
}

pub record ClaimedWork : Type 0 where
  pub item_id : ℕ
  pub job_id : ℕ
  pub team_id : ℕ
  pub source : Option Text
  pub document : Text
  pub lease_fence : ℕ
  pub credential_version_id : ℕ

-- The UPDATE … RETURNING that ends each claim query.
unfoldable pub lease_item : ℕ → Text → Option (Job × Item) → Queue → Option ClaimedWork × Queue
lease_item now worker_id none q = (none, q)
lease_item now worker_id (some (job, i)) q = (
  some (record {
    item_id = i.id;
    job_id = i.job_id;
    team_id = i.team_id;
    source = i.source;
    document = i.document;
    lease_fence = job.lease_fence;
    credential_version_id = job.credential_version_id;
  }),
  record q { items = update (λ r. r.id == i.id) (leased now worker_id job) q.items },
)

pub data Claim : Type 0 where
  source_required source_not_enabled : Claim
  claimed : Option ClaimedWork → Claim

abbrev with_affinity : Providers → ℕ → Option (Text × ℕ) → Queue → Option (Job × Item)
with_affinity providers now none q = none
with_affinity providers now (some (source, version)) q =
    affinity_candidate providers now source version q

abbrev or_any : Option (Job × Item) → Option (Job × Item) → Option (Job × Item)
or_any none o = o
or_any (some c) o = some c

-- The end of `claim`: affinity first, then any source.
unfoldable pub claim_swept :
    Providers → ℕ → Text → List Text → Option (Text × ℕ) → Queue → Claim × Queue
unfolding affinity_candidate any_candidate lease_item
claim_swept providers now worker_id sources affinity q =
    let found =
      or_any (with_affinity providers now affinity q) (any_candidate providers now sources q) in
    let leased = lease_item now worker_id found q in (claimed leased.0, leased.1)

-- `claim`; STABLE_SITES is an argument, and the affinity is there if both its parts are.
unfoldable pub claim :
    List Text
    → Providers
    → ℕ
    → Text
    → List Text
    → Option (Text × ℕ)
    → Queue
    → Option (Claim × Queue)
unfolding sweep_expired claim_swept
claim stable providers now worker_id sources affinity q =
    if is_empty sources
    then some (source_required, q)
    else if not (all (λ s. any (text_eq s) stable) sources)
    then some (source_not_enabled, q)
    else (sweep_expired now q >>= λ q'.
        some (claim_swept providers now worker_id sources affinity q'))
