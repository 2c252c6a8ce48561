-- ===== src/Core/Tests/Proxies.antt =====
-- packages/core: the theorem on the proxy providers at concrete inputs.
use docs_pe.Common.{
  ℕ, ◌+◌, ◌-◌, ◌≤◌, ◌<◌, ◌≡◌, refl, true, Option, none, some, List, [], ◌∷◌, Text, text, text_eq,
  arith,
}
use docs_pe.Common.Dict.{lookup}
use docs_pe.Common.Eq.{text_eq_key}
use docs_pe.Common.Unicode.{strip}
use docs_pe.Core.Proxy.{ProxySession, ℤ, whole, below_zero, Texts, value_error, ok, err}
use docs_pe.Core.Proxy.Geonode.{GeoNodeConfig, normalize, build, new_session, settings}
use docs_pe.Core.Proxy.Ports.{IsUsable, new_session_ports}
use docs_pe.Core.Tests.{ascii}

-- Numbers in one sign, from the digit 0 on, with a sign before it for those below 0.
abbrev str_sign : ℤ → Text
str_sign (whole n) = (n + 48) ∷ []
str_sign (below_zero n) = 45 ∷ (n + 48) ∷ []

abbrev int_sign : Text → Option ℤ
int_sign [] = none
int_sign (c ∷ []) = some (whole (c - 48))
int_sign (m ∷ (c ∷ [])) = some (below_zero (c - 48))
int_sign (m ∷ (c ∷ (d ∷ cs))) = none

int_sign-str_sign : (i : ℤ) → int_sign (str_sign i) ≡ some i
int_sign-str_sign (whole n) = let e : n + 48 - 48 ≡ n = omega arith in rw e refl
int_sign-str_sign (below_zero n) = let e : n + 48 - 48 ≡ n = omega arith in rw e refl

abbrev texts : Texts
texts = record {
  str = str_sign;
  int = int_sign;
  int-str = int_sign-str_sign;
  upper = λ t. t;
  isalpha = λ t. true;
}

abbrev raw : List (Text × Text)
raw =
    (text "username", text " ana ")
    ∷ (text "password", text "p")
    ∷ (text "gateway", text "us")
    ∷ (text "proxy_type", text "mix")
    ∷ (text "country", text "PE")
    ∷ (text "lifetime_minutes", text "9")
    ∷ []

abbrev values : List (Text × Text)
values = settings ascii texts raw (text "ana") (text "p") (text "us") (text "mix") (text "PE") 9

normalized_raw : normalize ascii texts raw ≡ ok values
unfolding normalize lookup text_eq strip
normalized_raw = refl

new_session_ports_example :
    (config : GeoNodeConfig) × (build ascii texts values ≡ ok config)
    × IsUsable ascii texts config
    × ((hex : Text) (i : ℕ)
        → 1 ≤ i
        → i ≤ 901
        → (p : ProxySession) × (new_session ascii texts config hex i ≡ ok p)
          × (p.port ≡ str_sign (whole (9999 + i)))
          × ((hex' : Text) (j : ℕ) (q : ProxySession)
              → new_session ascii texts config hex' j ≡ ok q
              → q.port ≡ p.port
              → j ≡ i))
    × ((hex : Text) (i : ℕ) → 901 < i → new_session ascii texts config hex i ≡ err value_error)
new_session_ports_example = new_session_ports ascii texts raw values normalized_raw
