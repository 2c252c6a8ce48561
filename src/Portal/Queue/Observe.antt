-- ===== src/Portal/Queue/Observe.antt =====
-- packages/portal/portal/repository/jobs.py: `publish` keeps what the worker saw, on both outcomes.
use docs_pe.Common.{
  ℕ, ◌≡◌, refl, Bool, true, Option, none, some, List, [], ◌∷◌, arith, Bool-cases, inl, inr,
  text_eq_refl, text_eq, text_eq_iff, Text, false, ◌&&◌, is_some, subst, sym,
}
use docs_pe.Common.Table.{update, first}
use docs_pe.Common.Maybe.{Yields, Yields-bind, Yields-if}
use docs_pe.Portal.Queue.{Queue, Item, Entry}
use docs_pe.Portal.Queue.Finish.{finish_if_drained}
use docs_pe.Portal.Queue.Publish.{
  Publication, is_observable, job_of_item, new_entry, updated_entry, publish, publish_found,
  observe, may_publish, published_item, upsert_entry, insert_attempts, is_entry,
}
use docs_pe.Portal.Queue.Capacity.{IsFair}
use docs_pe.Portal.Queue.Fair.{publish_found-Commits, observe-IsFair}
use docs_pe.Portal.Queue.Fence.{SameRecords, finish_if_drained-SameRecords}

-- The row of the pair holds what was published, under the job of the item.
abbrev pub HasEntry : Publication → Option ℕ → List Entry → Type 0
HasEntry p job es =
    (e : Entry) × (first (is_entry p.document p.source) es ≡ some e)
    × (e.status ≡ p.status)
    × (e.columns ≡ p.columns)
    × (e.rows ≡ p.rows)
    × (e.error_code ≡ p.error_code)
    × (e.last_job_id ≡ job)

upsert_entry-HasEntry :
    (p : Publication) (job : Option ℕ) (es : List Entry) → HasEntry p job (upsert_entry p job es).1
unfolding upsert_entry
upsert_entry-HasEntry p job [] = (
  new_entry p job,
  ground (arith, text_eq_refl p.document, text_eq_refl p.source),
  refl,
  refl,
  refl,
  refl,
  refl,
)
upsert_entry-HasEntry p job (e ∷ es) = elim (Bool-cases (is_entry p.document p.source e)) [
  | inl hit ↦ rw hit (updated_entry p job e, rw hit refl, refl, refl, refl, refl, refl)
  | inr miss ↦
      let (found, at, s, c, r, x, k) = upsert_entry-HasEntry p job es in
      rw miss (found, rw miss at, s, c, r, x, k)
]

-- The entries of every other pair are as before.
upsert_entry_others :
    (p : Publication) (job : Option ℕ) (es : List Entry) (document source : Text)
    → (text_eq p.document document && text_eq p.source source) ≡ false
    → first (is_entry document source) (upsert_entry p job es).1
      ≡ first (is_entry document source) es
unfolding upsert_entry
upsert_entry_others p job [] document source h = ground (arith, h)
upsert_entry_others p job (e ∷ es) document source h = ground (
  arith,
  h,
  upsert_entry_others p job es document source h,
  text_eq_iff e.document p.document,
  text_eq_iff e.source p.source,
  text_eq_iff e.document document,
  text_eq_iff e.source source,
  text_eq_iff p.document document,
  text_eq_iff p.source source,
)

module _ (p : Publication) (q : Queue) where
  abbrev pub item_job : Option ℕ
  item_job = job_of_item p.item_id q.items

  -- A publication that commits.
  abbrev pub IsObserved : Bool × Queue → Type 0
  IsObserved (published, q') =
      (published ≡ is_some (first (may_publish p q.jobs) q.items))
      × (q'.lookup_attempts ≡ insert_attempts p q.lookup_attempts)
      × HasEntry p item_job q'.entries
      × ((document source : Text)
          → (text_eq p.document document && text_eq p.source source) ≡ false
          → first (is_entry document source) q'.entries
            ≡ first (is_entry document source) q.entries)

  observed :
      HasEntry p item_job (observe p q).1.entries
      × ((document source : Text)
          → (text_eq p.document document && text_eq p.source source) ≡ false
          → first (is_entry document source) (observe p q).1.entries
            ≡ first (is_entry document source) q.entries)
  unfolding observe
  observed = (upsert_entry-HasEntry p item_job q.entries, upsert_entry_others p item_job q.entries)

  abbrev Entries : List Entry → Type 0
  Entries es =
      HasEntry p item_job es
      × ((document source : Text)
          → (text_eq p.document document && text_eq p.source source) ≡ false
          → first (is_entry document source) es ≡ first (is_entry document source) q.entries)

  IsObserved-found :
      (o : Option Item)
      → o ≡ first (may_publish p q.jobs) q.items
      → Yields IsObserved (publish_found p (observe p q).0 (observe p q).1 o)
  unfolding publish_found observe
  IsObserved-found none e = (rw (← e) refl, refl, observed.0, observed.1)
  IsObserved-found (some i) e =
      let seen = (observe p q).1 in
      let written = record seen {
        items = update (may_publish p seen.jobs) (published_item p (observe p q).0) seen.items;
      } in
      Yields-if IsObserved (p.references.is_object_of p.result_object_id i.team_id) _ (
        Yields-bind (SameRecords written) IsObserved (finish_if_drained i.job_id written)
          (λ q'. some (true, q')) (finish_if_drained-SameRecords i.job_id written)
          (λ q' same.
            let kept : Entries q'.entries = subst Entries (sym same.1) observed in
            (rw (← e) refl, same.2, kept.0, kept.1)))

  -- On a fair queue, `publish` of an observation that meets the constraints of its tables commits,
  -- where the object of the result is one of the team of the item that passes the fence, if one does.
  -- Whether or not the fence lets the item be published, the attempts are added, the entry of the pair
  -- is the one published, under the job of the item, and every other pair has the entry that it had;
  -- the answer says whether a leased item passed the fence. The queue is fair then.
  pub publish_commits :
      IsFair q
      → is_observable p q ≡ true
      → ((i : Item)
          → first (may_publish p q.jobs) q.items ≡ some i
          → p.references.is_object_of p.result_object_id i.team_id ≡ true)
      → (x : Bool × Queue) × (publish p q ≡ some x) × IsObserved x × IsFair x.1
  unfolding publish
  publish_commits f valid owned =
      let (b, q', e, f') =
        publish_found-Commits p (observe p q).0 (observe p q).1
          (first (may_publish p q.jobs) q.items) (observe-IsFair p q f) owned in
      let seen : Yields IsObserved (some (b, q')) =
        subst (Yields IsObserved) e
          (IsObserved-found (first (may_publish p q.jobs) q.items) refl) in
      ((b, q'), rw valid e, seen, f')

  -- One that does not raises, and so does one with an object of no such team where an item passes the
  -- fence.
  pub publish_raises :
      (is_observable p q ≡ false → publish p q ≡ none)
      × ((i : Item)
          → first (may_publish p q.jobs) q.items ≡ some i
          → p.references.is_object_of p.result_object_id i.team_id ≡ false
          → publish p q ≡ none)
  unfolding publish publish_found
  publish_raises = (
    λ e. rw e refl,
    λ i at foreign. elim (Bool-cases (is_observable p q)) [
      | inl e ↦ rw e (rw at (rw foreign refl))
      | inr e ↦ rw e refl
    ],
  )
