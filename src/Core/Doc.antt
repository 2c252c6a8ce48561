-- ===== src/Core/Doc.antt =====
-- packages/core/core/domain/types.py: `Doc`, a document number in its normal form.
pub mod Normal
use docs_pe.Common.{
  ℕ, zero, suc, ◌-◌, Bool, ◌&&◌, ◌||◌, Option, none, some, [], ◌∷◌, ◌++◌, Text, length, all, ◌==◌,
  if◌then◌else◌,
}
use docs_pe.Common.Unicode.{Unicode, strip}

pub data DocKind : Type 0 where
  dni ruc : DocKind

pub record Doc : Type 0 where
  pub value : Text
  pub kind : DocKind

-- `_RUC_RE` and `_DNI_RE`, on a text with no space at its end
abbrev pub is_ruc : Unicode → Text → Bool
is_ruc u t = all u.is_digit t && length t == 11

abbrev pub is_dni : Unicode → Text → Bool
is_dni u t = all u.is_digit t && (length t == 7 || length t == 8)

abbrev pub zeros : ℕ → Text
zeros zero = []
zeros (suc n) = b'0' ∷ zeros n

-- `str.zfill`, on a text of digits, which has no sign
unfoldable pub zfill : ℕ → Text → Text
zfill width t = zeros (width - length t) ++ t

unfoldable pub normalized : Unicode → Text → Option Doc
unfolding zfill
normalized u t =
    if is_ruc u t
    then some (record { value = t; kind = ruc })
    else if is_dni u t
    then some (record { value = zfill 8 t; kind = dni })
    else none

-- `Doc.__init__`; `none` is the ValueError
unfoldable pub parse_doc : Unicode → Text → Option Doc
unfolding normalized
parse_doc u value = normalized u (strip u value)
