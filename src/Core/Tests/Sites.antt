-- ===== src/Core/Tests/Sites.antt =====
-- packages/core: the theorems on the site OSIPTEL at concrete inputs.
use docs_pe.Common.{
  ℕ, zero, suc, ◌+◌, ◌≡◌, ◌≤◌, refl, none, some, List, [], ◌∷◌, Text, text, length, leb, text_eq,
  arith,
}
use docs_pe.Common.Unicode.{strip}
use docs_pe.Common.Dict.{lookup}
use docs_pe.Common.Eq.{text_eq_key}
use docs_pe.Common.Table.{count}
use docs_pe.Core.Doc.{Doc, DocKind}
use docs_pe.Core.Types.{Row, word}
use docs_pe.Core.Osiptel.{
  Json, number, string, array, object, nil, item, done, field, Digits, ParsedPage, Fetched, ok,
  PageRequest, Response, answered,
}
use docs_pe.Core.Osiptel.Paging.{page_at, lookup_lines, counts, count_rows}
use docs_pe.Core.Osiptel.Complete.{IsServed, lookup_lines_complete, lookup_lines_ends}
use docs_pe.Core.Osiptel.Carriers.{amount, sum, has_carrier, counts_lem}
use docs_pe.Core.Tests.{ascii}

abbrev digits : Digits
digits = record { is_digit = λ c. leb 48 c; int = λ t. none }

abbrev line : Text → Text → Row
line numero operador = word (text "Prepago") ∷ word numero ∷ word operador ∷ []

abbrev line_json : Text → Text → Json
line_json numero operador = object (
    field (text "modalidad") (string (text "Prepago")) (
      field (text "numeroServicio") (string numero)
        (field (text "operador") (string operador) done)))

abbrev page_json : Json → Json
page_json rows = object (field (text "iTotalRecords") (number 2) (field (text "data") rows done))

-- Two lines, a page each.
abbrev place : ℕ → Json
place zero = page_json (array (item (line_json (text "1") (text "Claro")) nil))
place (suc zero) = page_json (array (item (line_json (text "2") (text "Entel")) nil))
place (suc (suc n)) = page_json (array nil)

abbrev site : PageRequest → Response
site req = answered 200 (some (place req.start))

abbrev ruc : Doc
ruc = record { value = text "20100000001"; kind = DocKind.ruc }

abbrev lines : List Row
lines = line (text "1") (text "Claro") ∷ line (text "2") (text "Entel") ∷ []

served : (draw start : ℕ) → start ≤ length lines → IsServed ascii digits site ruc lines draw start
unfolding page_at text_eq strip
served draw zero h = record {
  page = record { total_records = 2; rows = line (text "1") (text "Claro") ∷ [] };
  rest = line (text "2") (text "Entel") ∷ [];
  given = refl;
  total = refl;
  slice = refl;
  some_rows = λ k. refl;
}
served draw (suc zero) h = record {
  page = record { total_records = 2; rows = line (text "2") (text "Entel") ∷ [] };
  rest = [];
  given = refl;
  total = refl;
  slice = refl;
  some_rows = λ k. refl;
}
served draw (suc (suc zero)) h = record {
  page = record { total_records = 2; rows = [] };
  rest = [];
  given = refl;
  total = refl;
  slice = refl;
  some_rows = λ k. ground (arith, k);
}
served draw (suc (suc (suc n))) h = absurd (omega arith)

lookup_lines_complete_example :
    lookup_lines ascii digits site ruc (length lines + 1) ≡ some (ok lines)
lookup_lines_complete_example = lookup_lines_complete ascii digits site ruc lines served

promised :
    (draw start : ℕ) (page : ParsedPage)
    → page_at ascii digits site ruc draw start ≡ ok page
    → page.total_records ≤ 2
unfolding page_at text_eq strip
promised draw zero page h = ground (arith, h)
promised draw (suc zero) page h = ground (arith, h)
promised draw (suc (suc n)) page h = ground (arith, h)

lookup_lines_ends_example :
    (r : Fetched (List Row)) × (lookup_lines ascii digits site ruc (2 + 1) ≡ some r)
lookup_lines_ends_example = lookup_lines_ends ascii digits site ruc 2 promised

counts_lem_example :
    (entries : List (Text × ℕ)) × (counts lines ≡ count_rows (length lines) entries)
    × ((carrier : Text) → amount (lookup carrier entries) ≡ count (has_carrier carrier) lines)
    × (sum entries ≡ length lines)
counts_lem_example = counts_lem lines
