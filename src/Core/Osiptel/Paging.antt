-- ===== src/Core/Osiptel/Paging.antt =====
-- packages/core/core/sites/osiptel/site.py: the loop over the pages of one document, and the counts
-- of its lines by carrier.
use docs_pe.Common.{
  ℕ, zero, suc, ◌+◌, Bool, true, false, ◌||◌, Option, none, some, List, [], ◌∷◌, ◌++◌, Text, leb,
  ltb, length, if◌then◌else◌, is_empty, ◌==◌,
}
use docs_pe.Common.Unicode.{Unicode}
use docs_pe.Common.Dict.{lookup, put}
use docs_pe.Common.Eq.{text_eq_key}
use docs_pe.Core.Doc.{Doc}
use docs_pe.Core.Types.{Row, word, number}
use docs_pe.Core.Osiptel.{
  Digits, ParsedPage, Fetched, ok, err, ◌>>=◌, parse_page, PageRequest, for_doc, Response,
  fetch_page,
}

abbrev pub page_size : ℕ
page_size = 5000

-- The state of the loop.
pub record Paging : Type 0 where
  pub start : ℕ
  pub draw : ℕ
  pub rows : List Row

abbrev pub first_page : Paging
first_page = record { start = 0; draw = 1; rows = [] }

module _ (u : Unicode) (d : Digits) (site : PageRequest → Response) (doc : Doc) where
  -- One page, asked for and read.
  unfoldable pub page_at : ℕ → ℕ → Fetched ParsedPage
  unfolding fetch_page for_doc parse_page
  page_at draw start =
      fetch_page (site (for_doc doc draw start page_size)) >>= λ payload. parse_page u d payload

  -- The state after a page.
  abbrev pub turned : Paging → ParsedPage → Paging
  turned s page = record {
    start = s.start + length page.rows;
    draw = s.draw + 1;
    rows = s.rows ++ page.rows;
  }

  -- Whether the page is the last.
  abbrev pub is_last : Paging → ParsedPage → Bool
  is_last s page =
      page.total_records == 0
      || (is_empty page.rows || leb page.total_records (s.start + length page.rows))

  -- The loop of `_lookup`; `none` is fuel that ran out.
  unfoldable pub pages : ℕ → Paging → Option (Fetched (List Row))
  unfolding page_at
  pages zero s = none
  pages (suc fuel) s = elim (page_at s.draw s.start) [
    | err e ↦ some (err e)
    | ok page ↦ elim (is_last s page) [
      | true ↦ some (ok (s.rows ++ page.rows))
      | false ↦ pages fuel (turned s page)
    ]
  ]

  -- `_lookup`
  unfoldable pub lookup_lines : ℕ → Option (Fetched (List Row))
  unfolding pages
  lookup_lines fuel = pages fuel first_page

-- `counts[carrier] = counts.get(carrier, 0) + 1`
abbrev pub bumped : Option ℕ → ℕ
bumped none = 1
bumped (some n) = n + 1

unfoldable pub tally : Text → List (Text × ℕ) → List (Text × ℕ)
tally carrier counts = put carrier (bumped (lookup carrier counts)) counts

-- The carrier of a line, which `parse_page` gives three words.
abbrev pub carrier_of : Row → Text
carrier_of (word modalidad ∷ word numero ∷ word operador ∷ []) = operador
carrier_of row = []

unfoldable pub tallies : List Row → List (Text × ℕ) → List (Text × ℕ)
unfolding tally
tallies [] counts = counts
tallies (row ∷ rows) counts = tallies rows (tally (carrier_of row) counts)

-- The order of texts by their code points.
unfoldable pub text_leb : Text → Text → Bool
text_leb [] t = true
text_leb (c ∷ cs) [] = false
text_leb (c ∷ cs) (x ∷ xs) =
    let rest = text_leb cs xs in if ltb c x then true else if c == x then rest else false

-- `sorted(counts.items())`, whose keys differ
unfoldable pub insert_sorted : Text × ℕ → List (Text × ℕ) → List (Text × ℕ)
unfolding text_leb
insert_sorted e [] = e ∷ []
insert_sorted e (f ∷ es) =
    let rest = insert_sorted e es in if text_leb e.0 f.0 then e ∷ (f ∷ es) else f ∷ rest

unfoldable pub sorted : List (Text × ℕ) → List (Text × ℕ)
unfolding insert_sorted
sorted [] = []
sorted (e ∷ es) = insert_sorted e (sorted es)

abbrev pub count_rows : ℕ → List (Text × ℕ) → List Row
count_rows total [] = []
count_rows total ((carrier, lines) ∷ es) =
    (word carrier ∷ number lines ∷ number total ∷ []) ∷ count_rows total es

-- `_counts`
unfoldable pub counts : List Row → List Row
unfolding tallies sorted
counts rows = count_rows (length rows) (sorted (tallies rows []))
