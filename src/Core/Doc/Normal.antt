-- ===== src/Core/Doc/Normal.antt =====
-- packages/core/core/domain/types.py: a document's text is in normal form.
use mathlib.Core.List.{reverse, reverse-reverse, reverse-cons}
use docs_pe.Common.{
  ℕ, zero, suc, ◌-◌, ◌≡◌, refl, ◌∙◌, ap, Bool, true, ◌&&◌, some, [], ◌∷◌, ◌++◌, Text, length, all,
  length-append, arith, Bool-cases, inl, inr,
}
use docs_pe.Common.Unicode.{Unicode, strip, lstrip}
use docs_pe.Core.Doc.{DocKind, Doc, dni, ruc, is_ruc, is_dni, zeros, normalized, parse_doc}

all-append : (p : ℕ → Bool) (s t : Text) → all p (s ++ t) ≡ (all p s && all p t)
all-append p [] t = refl
all-append p (c ∷ s) t = ground (arith, all-append p s t)

all-reverse : (p : ℕ → Bool) (t : Text) → all p (reverse t) ≡ all p t
all-reverse p [] = refl
all-reverse p (c ∷ t) =
    ap (all p) (reverse-cons c t)
    ∙ ground (arith, all-append p (reverse t) (c ∷ []), all-reverse p t)

length-zeros : (n : ℕ) → length (zeros n) ≡ n
length-zeros zero = refl
length-zeros (suc n) = ap suc (length-zeros n)

module _ (u : Unicode) where
  all-zeros : (n : ℕ) → all u.is_digit (zeros n) ≡ true
  all-zeros zero = refl
  all-zeros (suc n) = ground (arith, all-zeros n, u.zero_digit)

  lstrip_digits : (t : Text) → all u.is_digit t ≡ true → lstrip u t ≡ t
  unfolding lstrip
  lstrip_digits [] h = refl
  lstrip_digits (c ∷ t) h = ground (arith, u.digit_not_space c)

  strip_digits : (t : Text) → all u.is_digit t ≡ true → strip u t ≡ t
  unfolding strip
  strip_digits t h =
      rw (lstrip_digits t h)
        (rw (lstrip_digits (reverse t) (all-reverse u.is_digit t ∙ h)) (reverse-reverse t))

  -- The digits that a document's kind has.
  abbrev pub digits_of : DocKind → ℕ
  digits_of dni = 8
  digits_of ruc = 11

  pub normalized_shape :
      (t : Text) (d : Doc)
      → normalized u t ≡ some d
      → (all u.is_digit d.value ≡ true) × (length d.value ≡ digits_of d.kind)
  unfolding normalized
  normalized_shape t d h = elim (Bool-cases (is_ruc u t)) [
    | inl r ↦ ground arith
    | inr r ↦ elim (Bool-cases (is_dni u t)) [
      | inl s ↦ ground (
        arith,
        all-append u.is_digit (zeros (8 - length t)) t,
        length-append (zeros (8 - length t)) t,
        length-zeros (8 - length t),
        all-zeros (8 - length t),
      )
      | inr s ↦ absurd (ground arith)
    ]
  ]

  normalized_digits :
      (t : Text) (k : DocKind)
      → all u.is_digit t ≡ true
      → length t ≡ digits_of k
      → normalized u t ≡ some (record { value = t; kind = k })
  unfolding normalized
  normalized_digits t ruc a l = ground (arith, l)
  normalized_digits t dni a l =
      let none_added : 8 - length t ≡ 0 = omega (arith, l) in ground (arith, l, ap zeros none_added)

  -- Whatever text a document was read from, its own text has the eight or eleven digits of its kind,
  -- and reading that text gives the same document.
  pub parse_doc_normal :
      (value : Text) (d : Doc)
      → parse_doc u value ≡ some d
      → (all u.is_digit d.value ≡ true)
        × (length d.value ≡ digits_of d.kind)
        × (parse_doc u d.value ≡ some d)
  unfolding parse_doc
  parse_doc_normal value d h =
      let (a, l) = normalized_shape (strip u value) d h in
      (a, l, ap (normalized u) (strip_digits d.value a) ∙ normalized_digits d.value d.kind a l)
