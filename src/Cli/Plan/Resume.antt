-- ===== src/Cli/Plan/Resume.antt =====
-- packages/cli/cli/store/plan.py with outcomes.py: what a run that starts again looks up.
use docs_pe.Common.{
  ℕ, ◌≡◌, refl, true, false, some, List, [], ◌∷◌, Text, text_eq_iff, any, All, arith, Bool-cases,
  inl, inr,
}
use docs_pe.Common.Eq.{same, pair_eq_key, text_eq_key}
use docs_pe.Common.Table.{select}
use docs_pe.Core.Doc.{Doc}
use docs_pe.Cli.Store.{Outcome, outcome_of, done_pairs, is_terminal}
use docs_pe.Cli.Plan.{Site, is_pending, plan_pending}

-- A document to look up at a site: the site accepts it, and its row, if it has one, is not done.
abbrev pub IsOpen : ℕ → List Outcome → Site → Doc → Type 0
IsOpen cap rows site d =
    (site.accepts d ≡ true)
    × ((r : Outcome) → outcome_of site.name d.value rows ≡ some r → is_terminal cap r ≡ false)

abbrev pub ArePlanned : ℕ → List Outcome → List Site → List (Text × List Doc) → Type 0
ArePlanned cap rows [] [] = Unit
ArePlanned cap rows (site ∷ sites) ((name, docs) ∷ plan) =
    (name ≡ site.name) × All (IsOpen cap rows site) docs × ArePlanned cap rows sites plan
ArePlanned cap rows [] (p ∷ plan) = ⊥
ArePlanned cap rows (site ∷ sites) [] = ⊥

not_done :
    (cap : ℕ) (site doc : Text) (rows : List Outcome) (r : Outcome)
    → any (same (site, doc)) (done_pairs cap rows) ≡ false
    → outcome_of site doc rows ≡ some r
    → is_terminal cap r ≡ false
unfolding done_pairs outcome_of
not_done cap site doc [] r n h = ground arith
not_done cap site doc (x ∷ rows) r n h = ground (
  arith,
  not_done cap site doc rows r,
  text_eq_iff x.site site,
  text_eq_iff site x.site,
  text_eq_iff x.doc doc,
  text_eq_iff doc x.doc,
)

pending_docs :
    (cap : ℕ) (rows : List Outcome) (site : Site) (docs : List Doc)
    → All (IsOpen cap rows site) (select (is_pending (done_pairs cap rows) site) docs)
pending_docs cap rows site [] = tt
pending_docs cap rows site (d ∷ docs) =
    elim (Bool-cases (is_pending (done_pairs cap rows) site d)) [
      | inl e ↦ rw e (
        (ground arith, λ r h. not_done cap site.name d.value rows r (ground arith) h),
        pending_docs cap rows site docs,
      )
      | inr e ↦ rw e (pending_docs cap rows site docs)
    ]

-- The plan of a run has one entry for each site, in the order of the sites, and each document of
-- an entry is one that the site accepts and whose row in the store, if there is one, is not done.
pub plan_pending-ArePlanned :
    (cap : ℕ) (rows : List Outcome) (docs : List Doc) (sites : List Site)
    → ArePlanned cap rows sites (plan_pending docs sites (done_pairs cap rows))
unfolding plan_pending
plan_pending-ArePlanned cap rows docs [] = tt
plan_pending-ArePlanned cap rows docs (site ∷ sites) =
    (refl, pending_docs cap rows site docs, plan_pending-ArePlanned cap rows docs sites)
