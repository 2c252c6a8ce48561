-- ===== src/Common/Unicode.antt =====
-- Python's character classes and case mapping, which the programs call and do not define.
use Prim.Native.Nat.{ℕ}
use mathlib.Core.Path.{◌≡◌}
use mathlib.Core.Bool.{Bool, true, false}
use mathlib.Core.List.{[], ◌∷◌, reverse}
use docs_pe.Common.Tests.{if◌then◌else◌}
use docs_pe.Common.Texts.{Text}

-- `str.isspace` and `\d` of one code point, and `str.lower` of a text.
pub record Unicode : Type 0 where
  pub is_space : ℕ → Bool
  pub is_digit : ℕ → Bool
  pub lower : Text → Text
  pub zero_digit : is_digit b'0' ≡ true
  pub digit_not_space : (c : ℕ) → is_digit c ≡ true → is_space c ≡ false

-- `str.lstrip`
unfoldable pub lstrip : Unicode → Text → Text
lstrip u [] = []
lstrip u (c ∷ cs) = let rest = lstrip u cs in if u.is_space c then rest else c ∷ cs

-- `str.strip`
unfoldable pub strip : Unicode → Text → Text
unfolding lstrip
strip u t = reverse (lstrip u (reverse (lstrip u t)))
