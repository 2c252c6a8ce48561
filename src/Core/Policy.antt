-- ===== src/Core/Policy.antt =====
-- packages/core/core/domain/errors.py, policy.py and transport.py: the exceptions of a lookup, the
-- decision that each leads to, and the exception that a response's status raises.
use docs_pe.Common.{
  ℕ, Bool, ◌||◌, Option, none, some, List, [], ◌∷◌, Text, text, any, leb, ◌==◌, not, if◌then◌else◌,
}

-- The classes of errors.py; `exception` is any other exception.
pub data ErrorClass : Type 0 where
  fetch transient_transport ban_signal parse upstream_not_ready provider_schema proxy_configuration
        ruc_not_found exception :
      ErrorClass

-- A class with its bases.
abbrev pub bases : ErrorClass → List ErrorClass
bases ErrorClass.fetch = ErrorClass.fetch ∷ []
bases transient_transport = transient_transport ∷ ErrorClass.fetch ∷ []
bases ban_signal = ban_signal ∷ transient_transport ∷ ErrorClass.fetch ∷ []
bases parse = parse ∷ transient_transport ∷ ErrorClass.fetch ∷ []
bases upstream_not_ready = upstream_not_ready ∷ transient_transport ∷ ErrorClass.fetch ∷ []
bases provider_schema = provider_schema ∷ ErrorClass.fetch ∷ []
bases proxy_configuration = proxy_configuration ∷ ErrorClass.fetch ∷ []
bases ruc_not_found = ruc_not_found ∷ ErrorClass.fetch ∷ []
bases exception = []

abbrev pub class_name : ErrorClass → ℕ
class_name ErrorClass.fetch = 0
class_name transient_transport = 1
class_name ban_signal = 2
class_name parse = 3
class_name upstream_not_ready = 4
class_name provider_schema = 5
class_name proxy_configuration = 6
class_name ruc_not_found = 7
class_name exception = 8

abbrev pub is_instance : ErrorClass → ErrorClass → Bool
is_instance e c = any (λ b. class_name b == class_name c) (bases e)

-- MAX_ATTEMPTS
abbrev pub max_attempts : ℕ
max_attempts = 4

pub record RetryDecision : Type 0 where
  pub error_code : Text
  pub cooldown_s : ℕ

abbrev pub decision : Text → ℕ → RetryDecision
decision code cooldown = record { error_code = code; cooldown_s = cooldown }

-- `_classify`
unfoldable pub classify : ErrorClass → ℕ → RetryDecision
classify e ban_cooldown_s =
    if is_instance e ban_signal
    then decision (text "ban_signal") ban_cooldown_s
    else if is_instance e upstream_not_ready
    then decision (text "upstream_not_ready") 0
    else if is_instance e parse
    then decision (text "parse_error") 0
    else if is_instance e provider_schema
    then decision (text "provider_schema_error") 0
    else if is_instance e transient_transport
    then decision (text "transport_error") 0
    else decision (text "provider_error") 0

unfoldable pub classify_exception : ErrorClass → ℕ → RetryDecision
unfolding classify
classify_exception e ban_cooldown_s =
    if is_instance e ErrorClass.fetch
    then classify e ban_cooldown_s
    else decision (text "unknown_error") 0

-- `classify_status`, with _TRANSIENT_STATUSES and _BAN_STATUSES
unfoldable pub classify_status : ℕ → Option ErrorClass
classify_status status =
    if status == 502 || (status == 503 || status == 504)
    then some transient_transport
    else if leb 500 status || (status == 403 || status == 429)
    then some ban_signal
    else if not (status == 200)
    then some transient_transport
    else none

-- The cooldown that a response's status leads to.
abbrev pub status_cooldown : ℕ → ℕ → ℕ
status_cooldown status ban_cooldown_s = cooldown_of (classify_status status) ban_cooldown_s
  where
    cooldown_of : Option ErrorClass → ℕ → ℕ
    cooldown_of none cooldown = 0
    cooldown_of (some e) cooldown = (classify_exception e cooldown).cooldown_s
