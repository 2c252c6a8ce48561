-- ===== src/Portal/Planning.antt =====
-- packages/portal/portal/domain/planning.py: the plan of a submission. `accepts` is that of the
-- site of a source; the registries of sites are arguments.
pub mod Pairs
use docs_pe.Common.{
  ℕ, Bool, false, not, ◌||◌, ◌⊎◌, inl, inr, Option, none, some, List, [], ◌∷◌, ◌++◌, Text, text,
  text_eq, any, map, is_empty, if◌then◌else◌,
}
use docs_pe.Common.Table.{select}
use docs_pe.Common.Unicode.{Unicode}
use docs_pe.Core.Doc.{Doc, parse_doc}
use docs_pe.Portal.Queue.Admit.{PlannedItem, SubmissionPlan}

pub record InputLine : Type 0 where
  pub ordinal : ℕ
  pub value : Text

-- The reasons of SourceValidationError; the names that its text lists are left out.
pub data SourceError : Type 0 where
  source_required source_duplicated source_not_enabled : SourceError

abbrev pub is_in : Text → List Text → Bool
is_in t ts = any (text_eq t) ts

abbrev pub has_repeats : List Text → Bool
has_repeats [] = false
has_repeats (t ∷ ts) = is_in t ts || has_repeats ts

-- `_validate_sources`
unfoldable pub validate_sources : List Text → List Text → Option SourceError
validate_sources stable sources =
    if is_empty sources
    then some source_required
    else if has_repeats sources
    then some source_duplicated
    else let invalid = select (λ s. not (is_in s stable)) sources in
      if is_empty invalid then none else some source_not_enabled

abbrev pub excluded_line : ℕ → Text → Text → SubmissionPlan → SubmissionPlan
excluded_line ordinal value reason plan = record plan {
  exclusions = record { ordinal = ordinal; value = value; reason = reason } ∷ plan.exclusions;
}

abbrev pub items_of : ℕ → Text → List Text → List PlannedItem
items_of ordinal document sources =
    map (λ s. record { ordinal = ordinal; document = document; source = s }) sources

abbrev pub planned_line : ℕ → Text → List Text → SubmissionPlan → SubmissionPlan
planned_line ordinal document [] plan =
    excluded_line ordinal document (text "no_compatible_source") plan
planned_line ordinal document (s ∷ accepted) plan = record plan {
  items = items_of ordinal document (s ∷ accepted) ++ plan.items;
}

-- A line and the lines after it, which are planned with the documents seen so far.
abbrev pub plan_line :
    (Text → Doc → Bool)
    → List Text
    → List Text
    → (List Text → SubmissionPlan)
    → InputLine
    → Option Doc
    → SubmissionPlan
plan_line accepts sources seen rest line none =
    excluded_line line.ordinal line.value (text "invalid_document") (rest seen)
plan_line accepts sources seen rest line (some doc) =
    if is_in doc.value seen
    then excluded_line line.ordinal doc.value (text "duplicate_document") (rest seen)
    else planned_line line.ordinal doc.value (select (λ s. accepts s doc) sources)
        (rest (doc.value ∷ seen))

unfoldable pub plan_lines :
    Unicode → (Text → Doc → Bool) → List Text → List Text → List InputLine → SubmissionPlan
plan_lines u accepts sources seen [] = record { items = []; exclusions = [] }
plan_lines u accepts sources seen (line ∷ lines) =
    plan_line accepts sources seen (λ now_seen. plan_lines u accepts sources now_seen lines) line
      (parse_doc u line.value)

-- `plan_submission`
unfoldable pub plan_submission :
    Unicode
    → (Text → Doc → Bool)
    → List Text
    → List InputLine
    → List Text
    → SourceError ⊎ SubmissionPlan
unfolding validate_sources plan_lines
plan_submission u accepts stable lines sources = planned_if (validate_sources stable sources)
  where
    planned_if : Option SourceError → SourceError ⊎ SubmissionPlan
    planned_if (some e) = inl e
    planned_if none = inr (plan_lines u accepts sources [] lines)
