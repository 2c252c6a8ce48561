-- ===== src/Portal/Planning/Pairs.antt =====
-- packages/portal/portal/domain/planning.py: the items of a plan.
use docs_pe.Common.{
  ℕ, ◌≡◌, refl, Bool, true, false, ◌&&◌, ◌||◌, ◌⊎◌, inl, inr, Option, none, some, List, [], ◌∷◌,
  ◌++◌, Text, text, text_eq, ◌==◌, text_eq_iff, text_eq_refl, any, arith, subst, Bool-cases,
  Option-cases,
}
use docs_pe.Common.Table.{select}
use docs_pe.Common.Unicode.{Unicode}
use docs_pe.Core.Doc.{Doc, parse_doc}
use docs_pe.Portal.Queue.Admit.{PlannedItem, SubmissionPlan}
use docs_pe.Portal.Planning.{
  InputLine, SourceError, is_in, has_repeats, validate_sources, excluded_line, items_of,
  planned_line, plan_line, plan_lines, plan_submission,
}

abbrev pub is_pair : Text → Text → PlannedItem → Bool
is_pair document source i = text_eq document i.document && text_eq source i.source

-- No two items of one document and source.
abbrev pub HasUniquePairs : List PlannedItem → Type 0
HasUniquePairs [] = Unit
HasUniquePairs (i ∷ is) = (any (is_pair i.document i.source) is ≡ false) × HasUniquePairs is

-- No item of a document that has been seen.
abbrev pub IsUnseen : List Text → List PlannedItem → Type 0
IsUnseen seen [] = Unit
IsUnseen seen (i ∷ is) = (is_in i.document seen ≡ false) × IsUnseen seen is

pair_absent :
    (document source : Text) (seen : List Text) (is : List PlannedItem)
    → IsUnseen (document ∷ seen) is
    → any (is_pair document source) is ≡ false
pair_absent document source seen [] h = refl
pair_absent document source seen (i ∷ is) h = ground (
  arith,
  pair_absent document source seen is h.1,
  text_eq_iff i.document document,
  text_eq_iff document i.document,
)

IsUnseen-less :
    (document : Text) (seen : List Text) (is : List PlannedItem)
    → IsUnseen (document ∷ seen) is
    → IsUnseen seen is
IsUnseen-less document seen [] h = tt
IsUnseen-less document seen (i ∷ is) h = (ground arith, IsUnseen-less document seen is h.1)

is_in-select :
    (t : Text) (p : Text → Bool) (ts : List Text)
    → is_in t ts ≡ false
    → is_in t (select p ts) ≡ false
is_in-select t p [] h = refl
is_in-select t p (s ∷ ts) h = ground (arith, is_in-select t p ts)

has_repeats-select :
    (p : Text → Bool) (ts : List Text) → has_repeats ts ≡ false → has_repeats (select p ts) ≡ false
has_repeats-select p [] h = refl
has_repeats-select p (s ∷ ts) h = ground (arith, has_repeats-select p ts, is_in-select s p ts)

pair_in-items_of :
    (ordinal : ℕ) (document source : Text) (ts : List Text) (is : List PlannedItem)
    → is_in source ts ≡ false
    → any (is_pair document source) is ≡ false
    → any (is_pair document source) (items_of ordinal document ts ++ is) ≡ false
pair_in-items_of ordinal document source [] is h k = k
pair_in-items_of ordinal document source (t ∷ ts) is h k =
    ground (arith, pair_in-items_of ordinal document source ts is)

items_of-HasUniquePairs :
    (ordinal : ℕ) (document : Text) (seen ts : List Text) (is : List PlannedItem)
    → has_repeats ts ≡ false
    → IsUnseen (document ∷ seen) is
    → HasUniquePairs is
    → HasUniquePairs (items_of ordinal document ts ++ is)
items_of-HasUniquePairs ordinal document seen [] is r n u = u
items_of-HasUniquePairs ordinal document seen (t ∷ ts) is r n u = (
  pair_in-items_of ordinal document t ts is (ground arith) (pair_absent document t seen is n),
  items_of-HasUniquePairs ordinal document seen ts is (ground arith) n u,
)

items_of-IsUnseen :
    (ordinal : ℕ) (document : Text) (seen ts : List Text) (is : List PlannedItem)
    → is_in document seen ≡ false
    → IsUnseen seen is
    → IsUnseen seen (items_of ordinal document ts ++ is)
items_of-IsUnseen ordinal document seen [] is h n = n
items_of-IsUnseen ordinal document seen (t ∷ ts) is h n =
    (h, items_of-IsUnseen ordinal document seen ts is h n)

-- Items for the sources asked for, and a plan that has something for each line.
abbrev pub AreAsked : List Text → List PlannedItem → Type 0
AreAsked sources [] = Unit
AreAsked sources (i ∷ is) = (is_in i.source sources ≡ true) × AreAsked sources is

abbrev pub has_line : SubmissionPlan → ℕ → Bool
has_line plan n = any (λ i. i.ordinal == n) plan.items || any (λ x. x.ordinal == n) plan.exclusions

abbrev pub HasLines : SubmissionPlan → List InputLine → Type 0
HasLines plan [] = Unit
HasLines plan (line ∷ lines) = (has_line plan line.ordinal ≡ true) × HasLines plan lines

HasLines-more :
    (p q : SubmissionPlan) (lines : List InputLine)
    → ((n : ℕ) → has_line p n ≡ true → has_line q n ≡ true)
    → HasLines p lines
    → HasLines q lines
HasLines-more p q [] f h = tt
HasLines-more p q (line ∷ lines) f h = (f line.ordinal h.0, HasLines-more p q lines f h.1)

is_in-selected :
    (t : Text) (p : Text → Bool) (ts : List Text) → is_in t (select p ts) ≡ true → is_in t ts ≡ true
is_in-selected t p [] h = h
is_in-selected t p (s ∷ ts) h = ground (arith, is_in-selected t p ts)

items_of-AreAsked :
    (ordinal : ℕ) (document : Text) (sources ts : List Text) (is : List PlannedItem)
    → ((t : Text) → is_in t ts ≡ true → is_in t sources ≡ true)
    → AreAsked sources is
    → AreAsked sources (items_of ordinal document ts ++ is)
items_of-AreAsked ordinal document sources [] is f h = h
items_of-AreAsked ordinal document sources (t ∷ ts) is f h = (
  f t (ground (arith, text_eq_refl t)),
  items_of-AreAsked ordinal document sources ts is (λ s k. f s (ground arith)) h,
)

any-later :
    (p : PlannedItem → Bool) (xs ys : List PlannedItem) → any p ys ≡ true → any p (xs ++ ys) ≡ true
any-later p [] ys h = h
any-later p (x ∷ xs) ys h = ground (arith, any-later p xs ys)

-- What the lines after the seen documents come to.
abbrev pub IsPlanned : List Text → List Text → List InputLine → SubmissionPlan → Type 0
IsPlanned sources seen lines plan =
    HasUniquePairs plan.items
    × IsUnseen seen plan.items
    × AreAsked sources plan.items
    × HasLines plan lines

excluded_line-IsPlanned :
    (sources seen : List Text) (line : InputLine) (value reason : Text) (lines : List InputLine)
    (plan : SubmissionPlan)
    → IsPlanned sources seen lines plan
    → IsPlanned sources seen (line ∷ lines) (excluded_line line.ordinal value reason plan)
excluded_line-IsPlanned sources seen line value reason lines plan h = (
  h.0,
  h.1,
  h.2,
  (
    ground arith,
    HasLines-more plan (excluded_line line.ordinal value reason plan) lines (λ n k. ground arith)
        h.3,
  ),
)

planned_line-IsPlanned :
    (sources seen : List Text) (line : InputLine) (document : Text) (ts : List Text)
    (lines : List InputLine) (plan : SubmissionPlan)
    → is_in document seen ≡ false
    → has_repeats ts ≡ false
    → ((t : Text) → is_in t ts ≡ true → is_in t sources ≡ true)
    → IsPlanned sources (document ∷ seen) lines plan
    → IsPlanned sources seen (line ∷ lines) (planned_line line.ordinal document ts plan)
planned_line-IsPlanned sources seen line document [] lines plan s r f h =
    excluded_line-IsPlanned sources seen line document (text "no_compatible_source") lines plan
      (h.0, IsUnseen-less document seen plan.items h.1, h.2, h.3)
planned_line-IsPlanned sources seen line document (t ∷ ts) lines plan s r f h =
    let less = IsUnseen-less document seen plan.items h.1 in
    let more = planned_line line.ordinal document (t ∷ ts) plan in
    (
      items_of-HasUniquePairs line.ordinal document seen (t ∷ ts) plan.items r h.1 h.0,
      items_of-IsUnseen line.ordinal document seen (t ∷ ts) plan.items s less,
      items_of-AreAsked line.ordinal document sources (t ∷ ts) plan.items f h.2,
      (
        ground arith,
        HasLines-more plan more lines
            (λ n k. ground (
              arith,
              any-later (λ i. i.ordinal == n) (items_of line.ordinal document (t ∷ ts)) plan.items,
            ))
            h.3,
      ),
    )

plan_line-IsPlanned :
    (accepts : Text → Doc → Bool) (sources seen : List Text) (rest : List Text → SubmissionPlan)
    (line : InputLine) (o : Option Doc) (lines : List InputLine)
    → has_repeats sources ≡ false
    → ((now_seen : List Text) → IsPlanned sources now_seen lines (rest now_seen))
    → IsPlanned sources seen (line ∷ lines) (plan_line accepts sources seen rest line o)
plan_line-IsPlanned accepts sources seen rest line none lines r h =
    excluded_line-IsPlanned sources seen line line.value (text "invalid_document") lines (rest seen)
      (h seen)
plan_line-IsPlanned accepts sources seen rest line (some doc) lines r h =
    elim (Bool-cases (is_in doc.value seen)) [
      | inl old ↦
          let again =
            excluded_line line.ordinal doc.value (text "duplicate_document") (rest seen) in
          let e : again ≡ plan_line accepts sources seen rest line (some doc) = rw old refl in
          subst (IsPlanned sources seen (line ∷ lines)) e (
            excluded_line-IsPlanned sources seen line doc.value (text "duplicate_document") lines
              (rest seen) (h seen))
      | inr new ↦
          let accepted = select (λ s. accepts s doc) sources in
          let first = planned_line line.ordinal doc.value accepted (rest (doc.value ∷ seen)) in
          let e : first ≡ plan_line accepts sources seen rest line (some doc) = rw new refl in
          subst (IsPlanned sources seen (line ∷ lines)) e (
            planned_line-IsPlanned sources seen line doc.value accepted lines
              (rest (doc.value ∷ seen)) new (has_repeats-select (λ s. accepts s doc) sources r)
              (λ t. is_in-selected t (λ s. accepts s doc) sources) (h (doc.value ∷ seen)))
    ]

plan_lines-IsPlanned :
    (u : Unicode) (accepts : Text → Doc → Bool) (sources seen : List Text) (lines : List InputLine)
    → has_repeats sources ≡ false
    → IsPlanned sources seen lines (plan_lines u accepts sources seen lines)
unfolding plan_lines
plan_lines-IsPlanned u accepts sources seen [] r = (tt, tt, tt, tt)
plan_lines-IsPlanned u accepts sources seen (line ∷ lines) r =
    plan_line-IsPlanned accepts sources seen
      (λ now_seen. plan_lines u accepts sources now_seen lines) line (parse_doc u line.value) lines
      r (λ now_seen. plan_lines-IsPlanned u accepts sources now_seen lines r)

abbrev pub IsSubmitted :
    List Text → List Text → List InputLine → SourceError ⊎ SubmissionPlan → Type 0
IsSubmitted stable sources lines (inl e) = validate_sources stable sources ≡ some e
IsSubmitted stable sources lines (inr plan) =
    (validate_sources stable sources ≡ none)
    × HasUniquePairs plan.items
    × AreAsked sources plan.items
    × HasLines plan lines

valid_unrepeated :
    (stable sources : List Text)
    → validate_sources stable sources ≡ none
    → has_repeats sources ≡ false
unfolding validate_sources
valid_unrepeated stable sources h = ground arith

-- `plan_submission` refuses sources exactly with the error of their validation. Any other plan has
-- no two items of one document and source, only items of the sources asked for, and an item or an
-- exclusion for each line.
pub plan_submission-IsSubmitted :
    (u : Unicode) (accepts : Text → Doc → Bool) (stable : List Text) (lines : List InputLine)
    (sources : List Text)
    → IsSubmitted stable sources lines (plan_submission u accepts stable lines sources)
unfolding plan_submission
plan_submission-IsSubmitted u accepts stable lines sources =
    elim (Option-cases (validate_sources stable sources)) [
      | inl e ↦
          let p =
            plan_lines-IsPlanned u accepts sources [] lines (valid_unrepeated stable sources e) in
          rw e (e, p.0, p.2, p.3)
      | inr (x, e) ↦ rw e e
    ]
