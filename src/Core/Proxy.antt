-- ===== src/Core/Proxy.antt =====
-- packages/core/core/proxy/base.py: the settings of a proxy provider, read from a dictionary of texts.
pub mod Geonode
pub mod DataImpulse
pub mod Ports
use docs_pe.Common.{
  ℕ, Bool, not, ◌&&◌, ◌||◌, Option, none, some, List, [], Text, text, leb, if◌then◌else◌, any,
  text_eq, is_empty, ◌==◌, length, ◌≡◌,
}
use docs_pe.Common.Dict.{lookup}
use docs_pe.Common.Eq.{text_eq_key}
use docs_pe.Common.Unicode.{Unicode, strip}

pub record ProxySession : Type 0 where
  pub proxy_id : Text
  pub host : Text
  pub port : Text
  pub username : Text
  pub password : Text
  pub session_id : Text

-- An integer; `below_zero n` is -(n + 1).
pub data ℤ : Type 0 where
  whole : ℕ → ℤ
  below_zero : ℕ → ℤ

-- What the providers use of `str` and `int`, where `none` is a ValueError; `str.upper` and
-- `str.isalpha`.
pub record Texts : Type 0 where
  pub str : ℤ → Text
  pub int : Text → Option ℤ
  pub int-str : (i : ℤ) → int (str i) ≡ some i
  pub upper : Text → Text
  pub isalpha : Text → Bool

pub data Fault : Type 0 where
  proxy_configuration : Fault
  value_error : Fault
  key_error : Fault

pub data Configured {ℓ} (A : Type ℓ) : Type ℓ where
  ok : A → Configured A
  err : Fault → Configured A

infixl 5 ◌>>=◌
abbrev pub ◌>>=◌ : {A B : Type 0} → Configured A → (A → Configured B) → Configured B
ok a >>= f = f a
err e >>= f = err e

abbrev pub text_or : Text → Option Text → Text
text_or default none = default
text_or default (some t) = t

-- `raw.get(name, "")`
abbrev pub get : List (Text × Text) → Text → Text
get raw name = text_or [] (lookup name raw)

-- `values[name]`
abbrev pub item : List (Text × Text) → Text → Configured Text
item values name = elim (lookup name values) [ none ↦ err key_error | some t ↦ ok t ]

abbrev pub within : ℕ → ℕ → Option ℤ → Configured ℕ
within minimum maximum none = err proxy_configuration
within minimum maximum (some (below_zero n)) = err proxy_configuration
within minimum maximum (some (whole n)) =
    if leb minimum n && leb n maximum then ok n else err proxy_configuration

module _ (u : Unicode) (s : Texts) where
  -- `optional`
  unfoldable pub optional : List (Text × Text) → Text → Text
  unfolding strip
  optional raw name = strip u (get raw name)

  -- `required`
  unfoldable pub required : List (Text × Text) → Text → Configured Text
  unfolding strip
  required raw name =
      if is_empty (strip u (get raw name))
      then err proxy_configuration
      else ok (strip u (get raw name))

  -- `one_of`
  unfoldable pub one_of : List (Text × Text) → Text → List Text → Configured Text
  unfolding required
  one_of raw name choices = required raw name >>= λ value.
      if any (λ choice. text_eq value choice) choices then ok value else err proxy_configuration

  -- `whole_number`, for a minimum of 0 or more
  unfoldable pub whole_number : List (Text × Text) → Text → ℕ → ℕ → Configured ℕ
  unfolding required
  whole_number raw name minimum maximum =
      required raw name >>= λ t. within minimum maximum (s.int t)

  -- `country_code`
  unfoldable pub country_code : List (Text × Text) → Text → Bool → Configured Text
  unfolding required
  country_code raw name lowercase = required raw name >>= λ value.
      let code = if lowercase then u.lower value else s.upper value in
      if not (length code == 2) || not (s.isalpha code) then err proxy_configuration else ok code

  -- `flag`
  unfoldable pub flag : List (Text × Text) → Text → Text
  unfolding strip
  flag raw name =
      let value = u.lower (strip u (get raw name)) in
      if text_eq value (text "1") || (text_eq value (text "true") || text_eq value (text "yes"))
      then text "true"
      else []
