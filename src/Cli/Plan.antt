-- ===== src/Cli/Plan.antt =====
-- packages/cli/cli/store/plan.py: the documents of an input file, and those left to look up.
-- `csv.reader` and the file are not modelled: an input is its rows of fields.
pub mod Counted
pub mod Resume
use docs_pe.Common.{
  ℕ, ◌+◌, Bool, not, ◌&&◌, Option, none, some, List, [], ◌∷◌, Text, text_eq, is_empty, any, map,
  if◌then◌else◌,
}
use docs_pe.Common.Eq.{same, pair_eq_key, text_eq_key}
use docs_pe.Common.Table.{select, count}
use docs_pe.Common.Unicode.{Unicode, strip}
use docs_pe.Core.Doc.{Doc, parse_doc}

pub record PlanCounts : Type 0 where
  pub rows_read : ℕ
  pub valid : ℕ
  pub ignored : ℕ
  pub duplicates : ℕ

-- The variables of the loop of `read_docs`; `docs` is in the order of the file.
pub record Reading : Type 0 where
  pub docs : List Doc
  pub counts : PlanCounts

abbrev pub ignored_row : Reading → Reading
ignored_row s = record s {
  counts = record s.counts { rows_read = s.counts.rows_read + 1; ignored = s.counts.ignored + 1 };
}

abbrev pub duplicate_row : Reading → Reading
duplicate_row s = record s {
  counts = record s.counts {
    rows_read = s.counts.rows_read + 1;
    duplicates = s.counts.duplicates + 1;
  };
}

abbrev pub valid_row : Doc → Reading → Reading
valid_row doc s = record {
  docs = doc ∷ s.docs;
  counts = record s.counts { rows_read = s.counts.rows_read + 1; valid = s.counts.valid + 1 };
}

abbrev pub is_in : Text → List Text → Bool
is_in t seen = any (text_eq t) seen

-- The document of a row, if there is one.
abbrev pub row_doc : Unicode → List Text → Option Doc
row_doc u [] = none
row_doc u (field ∷ fields) = if is_empty (strip u field) then none else parse_doc u field

-- A row and the rows after it, which are read with what has been seen so far.
abbrev pub read_row : Bool → List Text → (List Text → Reading) → Option Doc → Reading
read_row dedupe seen rest none = ignored_row (rest seen)
read_row dedupe seen rest (some doc) =
    let next = rest (doc.value ∷ seen) in
    if dedupe && is_in doc.value seen then duplicate_row (rest seen) else valid_row doc next

unfoldable pub read_rows : Unicode → Bool → List Text → List (List Text) → Reading
read_rows u dedupe seen [] = record {
  docs = [];
  counts = record { rows_read = 0; valid = 0; ignored = 0; duplicates = 0 };
}
read_rows u dedupe seen (row ∷ rows) =
    read_row dedupe seen (λ s. read_rows u dedupe s rows) (row_doc u row)

-- `read_docs`
unfoldable pub read_docs : Unicode → Bool → List (List Text) → Reading
unfolding read_rows
read_docs u dedupe rows = read_rows u dedupe [] rows

-- `Site`, as far as the plan asks it.
pub record Site : Type 0 where
  pub name : Text
  pub accepts : Doc → Bool

abbrev pub is_pending : List (Text × Text) → Site → Doc → Bool
is_pending done site doc = site.accepts doc && not (any (same (site.name, doc.value)) done)

-- `plan_pending`: the dict's entries, in the order of the sites
unfoldable pub plan_pending : List Doc → List Site → List (Text × Text) → List (Text × List Doc)
plan_pending docs sites done = map (λ site. (site.name, select (is_pending done site) docs)) sites

-- `count_unrouted`
unfoldable pub count_unrouted : List Doc → List Site → ℕ
count_unrouted docs sites = count (λ doc. not (any (λ site. site.accepts doc) sites)) docs
