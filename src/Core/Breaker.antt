-- ===== src/Core/Breaker.antt =====
-- packages/core/core/pipeline/breaker.py: the circuit breaker that the lanes of one provider share.
-- Durations and clock readings are numbers of one unit; the two clocks are read together.
pub mod State
pub mod Bounds
use docs_pe.Common.{
  ℕ, ◌+◌, ◌-◌, ◌*◌, ◌^◌, min, Bool, Option, none, some, List, [], ◌∷◌, Text, ltb, leb, ◌==◌,
  if◌then◌else◌,
}

pub record BreakerState : Type 0 where
  pub source : Text
  pub provider : Text
  pub consecutive_failures : ℕ
  pub level : ℕ
  pub open_until : Option ℕ

-- `time.monotonic()` and `datetime.now(UTC)`.
pub record Clock : Type 0 where
  pub monotonic : ℕ
  pub utc : ℕ

pub record Tuning : Type 0 where
  pub threshold : ℕ
  pub base_cooldown : ℕ
  pub max_cooldown : ℕ

-- DEFAULT_THRESHOLD, DEFAULT_BASE_COOLDOWN_S and DEFAULT_MAX_COOLDOWN_S, in milliseconds.
abbrev pub default_tuning : Tuning
default_tuning = record { threshold = 10; base_cooldown = 5000; max_cooldown = 300000 }

pub record CircuitBreaker : Type 0 where
  pub provider : Text
  pub source : Text
  pub tuning : Tuning
  pub open tuning use {threshold, base_cooldown, max_cooldown}
  pub consecutive : ℕ
  pub level : ℕ
  pub open_until : ℕ
  pub open_until_at : Option ℕ

-- `_monotonic_deadline`
unfoldable pub monotonic_deadline : Clock → Option ℕ → ℕ
monotonic_deadline now none = 0
monotonic_deadline now (some open_until) = now.monotonic + (open_until - now.utc)

-- `__init__`
unfoldable pub new_breaker : Clock → Text → Text → Tuning → Option BreakerState → CircuitBreaker
unfolding monotonic_deadline
new_breaker now provider source tuning none = record {
  provider = provider;
  source = source;
  tuning = tuning;
  consecutive = 0;
  level = 0;
  open_until = 0;
  open_until_at = none;
}
new_breaker now provider source tuning (some initial) = record {
  provider = provider;
  source = source;
  tuning = tuning;
  consecutive = initial.consecutive_failures;
  level = initial.level;
  open_until = monotonic_deadline now initial.open_until;
  open_until_at = initial.open_until;
}

-- What `_notify` hands to `on_change`; every recorded outcome ends in one call of it, which is taken
-- not to raise.
unfoldable pub notify : CircuitBreaker → BreakerState
notify b = record {
  source = b.source;
  provider = b.provider;
  consecutive_failures = b.consecutive;
  level = b.level;
  open_until = b.open_until_at;
}

unfoldable pub is_open : Clock → CircuitBreaker → Bool
is_open now b = ltb now.monotonic b.open_until

-- One round of the loop of `acquire`: the time to sleep, or `none` to return.
unfoldable pub acquire_round : Clock → CircuitBreaker → Option ℕ
acquire_round now b =
    if leb b.open_until now.monotonic then none else some (b.open_until - now.monotonic)

unfoldable pub record_success : CircuitBreaker → CircuitBreaker
record_success b =
    if b.open_until == 0
    then record b { consecutive = 0 }
    else record b { consecutive = 0; open_until = 0; level = 0; open_until_at = none }

-- The cooldown at a level that has just been raised. The program multiplies by a
-- float, which raises OverflowError from level 1025 on; that is left out.
unfoldable pub cooldown : Tuning → ℕ → ℕ
cooldown t level = min t.max_cooldown (t.base_cooldown * 2 ^ (level - 1))

unfoldable pub record_failure : Clock → CircuitBreaker → CircuitBreaker
record_failure now b =
    if ltb (b.consecutive + 1) b.threshold
    then record b { consecutive = b.consecutive + 1 }
    else record b {
      consecutive = 0;
      level = b.level + 1;
      open_until = now.monotonic + cooldown b.tuning (b.level + 1);
      open_until_at = some (now.utc + cooldown b.tuning (b.level + 1));
    }

-- What a lane reports after an attempt.
pub data Outcome : Type 0 where
  success failure : Outcome

unfoldable pub record_outcome : Clock → Outcome → CircuitBreaker → CircuitBreaker
record_outcome now success b = record_success b
record_outcome now failure b = record_failure now b

-- The outcomes of all lanes, in the order in which the event loop runs them.
unfoldable pub replay : List (Clock × Outcome) → CircuitBreaker → CircuitBreaker
replay [] b = b
replay ((now, o) ∷ rest) b = replay rest (record_outcome now o b)
