-- ===== src/Cli/Store/Lookup.antt =====
-- packages/cli/cli/store/outcomes.py: the row of a pair after each write.
use docs_pe.Common.{
  ◌≡◌, refl, Bool, ◌&&◌, Option, none, some, List, [], ◌∷◌, Text, text_eq, text_eq_iff,
  if◌then◌else◌, arith,
}
use docs_pe.Cli.Store.{
  Outcome, upsert, write_success, record_success, record_not_found, record_failure, record_import,
  Write, success, not_found, failure, import_rows, write, outcome_of, ok_row, set_ok, not_found_row,
  set_not_found, failed_row, set_failed,
}

abbrev pub KeepsPair : (Outcome → Outcome) → Type 0
KeepsPair f = (r : Outcome) → ((f r).site ≡ r.site) × ((f r).doc ≡ r.doc)

abbrev pub merged : Outcome → (Outcome → Outcome) → Option Outcome → Outcome
merged new f none = new
merged new f (some r) = f r

abbrev pub same_pair : Outcome → Text → Text → Bool
same_pair new site doc = text_eq new.site site && text_eq new.doc doc

pub outcome_of-upsert :
    (site doc : Text) (new : Outcome) (f : Outcome → Outcome) (rows : List Outcome)
    → KeepsPair f
    → outcome_of site doc (upsert new f rows) ≡ (
        if same_pair new site doc
        then some (merged new f (outcome_of site doc rows))
        else outcome_of site doc rows)
unfolding upsert outcome_of
outcome_of-upsert site doc new f [] k = ground arith
outcome_of-upsert site doc new f (r ∷ rows) k = ground (
  arith,
  outcome_of-upsert site doc new f rows k,
  k r,
  text_eq_iff r.site new.site,
  text_eq_iff r.doc new.doc,
  text_eq_iff r.site site,
  text_eq_iff r.doc doc,
  text_eq_iff new.site site,
  text_eq_iff new.doc doc,
)

-- The row that a write inserts, and what it makes of a row that is there.
abbrev pub inserted : Text → Write → Outcome
inserted now (success r) =
    ok_row now r.site r.doc.value r.rows r.http_session_id r.proxy_id r.provider
inserted now (import_rows site doc rows) = ok_row now site doc rows [] [] []
inserted now (not_found r) = not_found_row now r
inserted now (failure r) = failed_row now r

abbrev pub changed : Text → Write → Outcome → Outcome
changed now (success r) = set_ok now r.rows r.http_session_id r.proxy_id r.provider
changed now (import_rows site doc rows) = set_ok now rows [] [] []
changed now (not_found r) = set_not_found now r
changed now (failure r) = set_failed now r

write-upsert :
    (now : Text) (w : Write) (rows : List Outcome)
    → write now w rows ≡ upsert (inserted now w) (changed now w) rows
unfolding write record_success record_not_found record_failure record_import write_success
write-upsert now (success r) rows = refl
write-upsert now (not_found r) rows = refl
write-upsert now (failure r) rows = refl
write-upsert now (import_rows s d rs) rows = refl

changed-KeepsPair : (now : Text) (w : Write) → KeepsPair (changed now w)
changed-KeepsPair now (success r) old = (refl, refl)
changed-KeepsPair now (import_rows s d rs) old = (refl, refl)
changed-KeepsPair now (not_found r) old = ground arith
changed-KeepsPair now (failure r) old = ground arith

pub outcome_of-write :
    (now site doc : Text) (w : Write) (rows : List Outcome)
    → outcome_of site doc (write now w rows) ≡ (
        if same_pair (inserted now w) site doc
        then some (merged (inserted now w) (changed now w) (outcome_of site doc rows))
        else outcome_of site doc rows)
outcome_of-write now site doc w rows =
    rw (write-upsert now w rows)
      (outcome_of-upsert site doc (inserted now w) (changed now w) rows (changed-KeepsPair now w))
