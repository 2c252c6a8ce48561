-- ===== src/Portal/Throttle.antt =====
-- packages/portal/portal/application/throttle.py, and `normalize_email` of
-- packages/portal/portal/repository/auth.py. Times are in milliseconds; each statement of a call
-- has a reading of the clock of its own.
pub mod Lock
pub mod Cap
use docs_pe.Common.{ℕ, Bool, true, false, not, Option, none, some, ◌++◌, Text, text, leb}
use docs_pe.Common.Maybe.{◌>>=◌}
use docs_pe.Common.Unicode.{Unicode, strip}
use docs_pe.Portal.Ephemeral.{EphemeralStore, Decimal, read, increment, discard}

abbrev pub login_window : ℕ
login_window = 300000

abbrev pub login_attempt_limit : ℕ
login_attempt_limit = 5

abbrev pub mutation_window : ℕ
mutation_window = 60000

abbrev pub mutation_limit : ℕ
mutation_limit = 30

unfoldable pub normalize_email : Unicode → Text → Text
normalize_email u email = strip u (u.lower email)

-- `_login_keys`
abbrev pub account_key : Unicode → Text → Text
account_key u email = text "login_fail:account:" ++ normalize_email u email

abbrev pub source_key : Text → Text
source_key source = text "login_fail:source:" ++ source

module _ (u : Unicode) (d : Decimal) where
  -- The test of one key in `LoginThrottle.allows`; `none` is the ValueError of `int`.
  unfoldable pub is_spent : ℕ → Text → EphemeralStore → Option Bool
  is_spent now key s = elim (read now key s) [
    | none ↦ some false
    | some counted ↦ elim (d.parse counted) [
      | none ↦ none
      | some n ↦ some (leb login_attempt_limit n)
    ]
  ]

  -- `LoginThrottle.allows`
  unfoldable pub allows : ℕ → ℕ → Text → Text → EphemeralStore → Option Bool
  allows now later email source s = do
    account_spent ← is_spent now (account_key u email) s
    elim account_spent [
      | true ↦ some false
      | false ↦ is_spent later (source_key source) s >>= λ source_spent. some (not source_spent)
    ]

  -- `LoginThrottle.record_failure`
  unfoldable pub record_failure : ℕ → ℕ → Text → Text → EphemeralStore → Option EphemeralStore
  record_failure now later email source s = do
    (n, s') ← increment d now (account_key u email) login_window s
    (m, s'') ← increment d later (source_key source) login_window s'
    some s''

  -- `LoginThrottle.clear`
  unfoldable pub clear : Text → Text → EphemeralStore → EphemeralStore
  clear email source s = discard (source_key source) (discard (account_key u email) s)

abbrev pub mutation_key : Text → Text → Text
mutation_key actor_id route_class = text "mutate:" ++ (actor_id ++ (text ":" ++ route_class))

-- `MutationThrottle.admit`
unfoldable pub admit : Decimal → ℕ → Text → Text → EphemeralStore → Option (Bool × EphemeralStore)
admit d now actor_id route_class s = do
  (used, s') ← increment d now (mutation_key actor_id route_class) mutation_window s
  some (leb used mutation_limit, s')
