-- ===== src/Cli/Plan/Counted.antt =====
-- packages/cli/cli/store/plan.py: what `read_docs` and `plan_pending` keep.
use docs_pe.Common.{
  ℕ, suc, ◌+◌, ◌≡◌, refl, Bool, true, false, Option, none, some, List, [], ◌∷◌, Text, length, arith,
  Bool-cases, inl, inr, if◌then◌else◌, sym, subst, ap, ◌∙◌,
}
use docs_pe.Common.Unicode.{Unicode}
use docs_pe.Core.Doc.{Doc}
use docs_pe.Cli.Plan.{Reading, is_in, row_doc, read_row, read_rows, read_docs}

abbrev pub with_doc : Option Doc → List Doc → List Doc
with_doc none docs = docs
with_doc (some doc) docs = doc ∷ docs

-- The documents of the rows that have one, in order.
abbrev pub docs_of : Unicode → List (List Text) → List Doc
docs_of u [] = []
docs_of u (row ∷ rows) = with_doc (row_doc u row) (docs_of u rows)

-- Those whose text was not seen before, each once: the first of its text.
abbrev pub firsts : List Text → List Doc → List Doc
firsts seen [] = []
firsts seen (d ∷ ds) =
    let old = firsts seen ds in
    let new = firsts (d.value ∷ seen) ds in if is_in d.value seen then old else d ∷ new

abbrev pub IsDistinct : List Text → List Doc → Type 0
IsDistinct seen [] = Unit
IsDistinct seen (d ∷ ds) = (is_in d.value seen ≡ false) × IsDistinct (d.value ∷ seen) ds

-- What is read of a number of rows that have some documents, where some texts have been seen.
abbrev pub IsRead : Bool → List Text → ℕ → List Doc → Reading → Type 0
IsRead dedupe seen rows found s =
    (s.docs ≡ (if dedupe then firsts seen found else found))
    × (s.counts.rows_read ≡ rows)
    × (s.counts.ignored + length found ≡ rows)
    × (s.counts.valid ≡ length s.docs)
    × (s.counts.valid + s.counts.duplicates ≡ length found)

read_row-IsRead :
    (dedupe : Bool) (seen : List Text) (n : ℕ) (found : List Doc) (rest : List Text → Reading)
    (o : Option Doc)
    → ((s : List Text) → IsRead dedupe s n found (rest s))
    → IsRead dedupe seen (suc n) (with_doc o found) (read_row dedupe seen rest o)
read_row-IsRead dedupe seen n found rest none h =
    let (d, r, i, v, t) = h seen in (d, omega (arith, r), omega (arith, i), v, t)
read_row-IsRead false seen n found rest (some doc) h =
    let (d, r, i, v, t) = h (doc.value ∷ seen) in
    (ap (λ ds. doc ∷ ds) d, omega (arith, r), omega (arith, i), omega (arith, v), omega (arith, t))
read_row-IsRead true seen n found rest (some doc) h =
    let (d, r, i, v, t) = h seen in
    let (d', r', i', v', t') = h (doc.value ∷ seen) in
    elim (Bool-cases (is_in doc.value seen)) [
      | inl old ↦ rw old (d, omega (arith, r), omega (arith, i), v, omega (arith, t))
      | inr new ↦ rw new (
        ap (λ ds. doc ∷ ds) d',
        omega (arith, r'),
        omega (arith, i'),
        omega (arith, v'),
        omega (arith, t'),
      )
    ]

read_rows-IsRead :
    (u : Unicode) (dedupe : Bool) (seen : List Text) (rows : List (List Text))
    → IsRead dedupe seen (length rows) (docs_of u rows) (read_rows u dedupe seen rows)
unfolding read_rows
read_rows-IsRead u true seen [] = (refl, refl, refl, refl, refl)
read_rows-IsRead u false seen [] = (refl, refl, refl, refl, refl)
read_rows-IsRead u dedupe seen (row ∷ rows) =
    read_row-IsRead dedupe seen (length rows) (docs_of u rows) (λ s. read_rows u dedupe s rows)
      (row_doc u row) (λ s. read_rows-IsRead u dedupe s rows)

firsts-IsDistinct : (seen : List Text) (ds : List Doc) → IsDistinct seen (firsts seen ds)
firsts-IsDistinct seen [] = tt
firsts-IsDistinct seen (d ∷ ds) = elim (Bool-cases (is_in d.value seen)) [
  | inl old ↦ rw old (firsts-IsDistinct seen ds)
  | inr new ↦ rw new (new, firsts-IsDistinct (d.value ∷ seen) ds)
]

-- `read_docs` returns the documents of the rows that have one, in order, and with `dedupe` the first
-- of each text only, so that none comes twice. The rows without a document are those ignored; the
-- documents of the others are counted as valid where they are returned and as duplicates where not.
pub read_docs-IsRead :
    (u : Unicode) (dedupe : Bool) (rows : List (List Text))
    → IsRead dedupe [] (length rows) (docs_of u rows) (read_docs u dedupe rows)
      × (dedupe ≡ true → IsDistinct [] (read_docs u dedupe rows).docs)
unfolding read_docs
read_docs-IsRead u dedupe rows =
    let read = read_rows-IsRead u dedupe [] rows in
    let found = docs_of u rows in
    (
      read,
      λ on.
          subst (IsDistinct []) (sym (read.0 ∙ ap (λ b. if b then firsts [] found else found) on))
            (firsts-IsDistinct [] found),
    )
