-- ===== src/Core/Osiptel/Complete.antt =====
-- packages/core/core/sites/osiptel/site.py: the loop of `_lookup` ends, with all the lines of the
-- document.
use docs_pe.Common.{
  ℕ, zero, suc, ◌+◌, ◌-◌, ◌<◌, ◌≤◌, ◌≡◌, refl, sym, ap, ◌∙◌, true, false, some, List, [], ◌∷◌, ◌++◌,
  length, length-append, drop, is_empty, arith, Bool-cases, inl, inr, ◌⊎◌,
}
use mathlib.Core.List.{append_assoc, append-nil}
use docs_pe.Common.Unicode.{Unicode}
use docs_pe.Core.Doc.{Doc}
use docs_pe.Core.Types.{Row}
use docs_pe.Core.Policy.{ErrorClass}
use docs_pe.Core.Osiptel.{Digits, ParsedPage, Fetched, ok, err, PageRequest, Response}
use docs_pe.Core.Osiptel.Paging.{Paging, first_page, page_at, turned, is_last, pages, lookup_lines}

length-drop : (n : ℕ) (xs : List Row) → length (drop n xs) ≡ length xs - n
length-drop zero xs = omega arith
length-drop (suc n) [] = omega arith
length-drop (suc n) (x ∷ xs) = omega (arith, length-drop n xs)

drop_past : (xs ys : List Row) → drop (length xs) (xs ++ ys) ≡ ys
drop_past [] ys = refl
drop_past (x ∷ xs) ys = drop_past xs ys

drop-nil : (n : ℕ) → drop {A = Row} n [] ≡ []
drop-nil zero = refl
drop-nil (suc n) = refl

drop-drop : (n m : ℕ) (xs : List Row) → drop (n + m) xs ≡ drop m (drop n xs)
drop-drop zero m xs = let e : 0 + m ≡ m = omega arith in rw e refl
drop-drop (suc n) m [] = drop-nil (suc n + m) ∙ sym (drop-nil m)
drop-drop (suc n) m (x ∷ xs) =
    let e : suc n + m ≡ suc (n + m) = omega arith in rw e (drop-drop n m xs)

empty_of_length : (xs : List Row) → length xs ≡ 0 → xs ≡ []
empty_of_length [] h = refl
empty_of_length (x ∷ xs) h = ground (arith, h)

Fetched-cases :
    {A : Type 0} (r : Fetched A) → ((e : ErrorClass) × (r ≡ err e)) ⊎ ((a : A) × (r ≡ ok a))
Fetched-cases (ok a) = inr (a, refl)
Fetched-cases (err e) = inl (e, refl)

module _ (u : Unicode) (d : Digits) (site : PageRequest → Response) (doc : Doc) where
  -- A page that is not the last has a line.
  grows :
      (rows : List Row) (s : Paging) (page : ParsedPage)
      → page.rows ≡ rows
      → is_last u d site doc s page ≡ false
      → s.start + 1 ≤ s.start + length rows
  grows [] s page e h = ground (arith, h, e)
  grows (x ∷ xs) s page e h = omega arith

  -- After the last page no line is left.
  leaves :
      (rows : List Row) (s : Paging) (page : ParsedPage) (rest lines : List Row)
      → page.rows ≡ rows
      → is_last u d site doc s page ≡ true
      → page.total_records ≡ length lines
      → s.start ≤ length lines
      → length rows + length rest ≡ length lines - s.start
      → (s.start < length lines → is_empty rows ≡ false)
      → length rest ≡ 0
  leaves [] s page rest lines e h t w z k = ground (arith, h, e, k)
  leaves (x ∷ xs) s page rest lines e h t w z k = ground (arith, h, e)

  -- The loop from a state on ends, where no page promises more lines than a bound.
  pages_end :
      (bound fuel : ℕ) (s : Paging)
      → ((draw start : ℕ) (page : ParsedPage)
          → page_at u d site doc draw start ≡ ok page
          → page.total_records ≤ bound)
      → bound < fuel + s.start
      → 0 < fuel
      → (r : Fetched (List Row)) × (pages u d site doc fuel s ≡ some r)
  unfolding pages
  pages_end bound zero s most enough more = absurd (omega arith)
  pages_end bound (suc fuel) s most enough more =
      elim (Fetched-cases (page_at u d site doc s.draw s.start)) [
        | inl (e, h) ↦ (err e, rw (h, pages) refl)
        | inr (page, h) ↦ elim (Bool-cases (is_last u d site doc s page)) [
          | inl last ↦ (ok (s.rows ++ page.rows), rw (h, pages) (rw last refl))
          | inr further ↦
              let grown : s.start + 1 ≤ s.start + length page.rows =
                grows page.rows s page refl further in
              let ahead : s.start + length page.rows < bound =
                ground (arith, further, most s.draw s.start page h) in
              let (r, e) =
                pages_end bound fuel (turned u d site doc s page) most (omega arith)
                  (omega arith) in
              (r, rw (h, pages) (rw further e))
        ]
      ]

  -- A lookup ends with the lines or an error, within one request more than the most lines that any
  -- page of the site promises.
  pub lookup_lines_ends :
      (bound : ℕ)
      → ((draw start : ℕ) (page : ParsedPage)
          → page_at u d site doc draw start ≡ ok page
          → page.total_records ≤ bound)
      → (r : Fetched (List Row)) × (lookup_lines u d site doc (bound + 1) ≡ some r)
  unfolding lookup_lines
  lookup_lines_ends bound most =
      pages_end bound (bound + 1) first_page most (omega arith) (omega arith)

  -- A site that serves the lines of a document: whatever the draw, the page at a place is some of the
  -- lines from there on, at least one while there are any, with the number of all.
  pub record IsServed (lines : List Row) (draw start : ℕ) : Type 0 where
    pub page : ParsedPage
    pub rest : List Row
    pub given : page_at u d site doc draw start ≡ ok page
    pub total : page.total_records ≡ length lines
    pub slice : page.rows ++ rest ≡ drop start lines
    pub some_rows : start < length lines → is_empty page.rows ≡ false

  pages_complete :
      (lines : List Row) (fuel : ℕ) (s : Paging)
      → ((draw start : ℕ) → start ≤ length lines → IsServed lines draw start)
      → s.rows ++ drop s.start lines ≡ lines
      → s.start ≤ length lines
      → length lines < fuel + s.start
      → 0 < fuel
      → pages u d site doc fuel s ≡ some (ok lines)
  unfolding pages
  pages_complete lines zero s served so_far within enough more = absurd (omega arith)
  pages_complete lines (suc fuel) s served so_far within enough more =
      let p = served s.draw s.start within in
      let sizes : length p.page.rows + length p.rest ≡ length lines - s.start =
        sym (length-append p.page.rows p.rest) ∙ ap length p.slice ∙ length-drop s.start lines in
      elim (Bool-cases (is_last u d site doc s p.page)) [
        | inl last ↦
            let rest_empty : p.rest ≡ [] = empty_of_length p.rest (
              leaves p.page.rows s p.page p.rest lines refl last p.total within sizes
                p.some_rows) in
            let end : s.rows ++ p.page.rows ≡ lines =
              ap (λ ys. s.rows ++ ys)
                (sym (append-nil p.page.rows)
                  ∙ ap (λ ys. p.page.rows ++ ys) (sym rest_empty)
                  ∙ p.slice)
              ∙ so_far in
            rw (p.given, pages) (rw last (ap (λ ys. some (ok ys)) end))
        | inr further ↦
            let grown : s.start + 1 ≤ s.start + length p.page.rows =
              grows p.page.rows s p.page refl further in
            let ahead : s.start + length p.page.rows < length lines =
              ground (arith, further, p.total) in
            let from_there : drop (s.start + length p.page.rows) lines ≡ p.rest =
              drop-drop s.start (length p.page.rows) lines
              ∙ ap (λ ys. drop (length p.page.rows) ys) (sym p.slice)
              ∙ drop_past p.page.rows p.rest in
            rw (p.given, pages)
              (rw further (
                pages_complete lines fuel (turned u d site doc s p.page) served
                  (append_assoc s.rows p.page.rows (drop (s.start + length p.page.rows) lines)
                    ∙ ap (λ ys. s.rows ++ (p.page.rows ++ ys)) from_there
                    ∙ ap (λ ys. s.rows ++ ys) p.slice
                    ∙ so_far)
                  (omega arith) (omega arith) (omega arith)))
      ]

  -- Where the site serves the lines of a document, a lookup gives all of them, in order and each
  -- once, however the site cuts the pages; one request more than there are lines is enough.
  pub lookup_lines_complete :
      (lines : List Row)
      → ((draw start : ℕ) → start ≤ length lines → IsServed lines draw start)
      → lookup_lines u d site doc (length lines + 1) ≡ some (ok lines)
  unfolding lookup_lines
  lookup_lines_complete lines served =
      pages_complete lines (length lines + 1) first_page served refl (omega arith) (omega arith)
        (omega arith)
