-- ===== src/Core/Breaker/State.antt =====
-- packages/core/core/pipeline/breaker.py: the invariant of the breaker's fields.
use native.Mathlib.Nat.{pow-suc}
use docs_pe.Common.{
  ℕ, zero, suc, ◌+◌, ◌-◌, ◌^◌, ◌<◌, ◌≡◌, refl, Option, none, some, List, [], ◌∷◌, Text, arith,
}
use docs_pe.Core.Breaker.{
  CircuitBreaker, Clock, Tuning, BreakerState, Outcome, success, failure, new_breaker,
  record_success, record_failure, record_outcome, replay, cooldown,
}

-- A tuning under which a failure can open the breaker, and only for a positive time.
pub record IsUsable (t : Tuning) : Type 0 where
  pub threshold : 0 < t.threshold
  pub base : 0 < t.base_cooldown
  pub cap : 0 < t.max_cooldown

-- A saved state that a breaker can have reported: a level above 0 comes with a deadline.
abbrev pub IsSaved : Tuning → BreakerState → Type 0
IsSaved t s = (s.consecutive_failures < t.threshold) × (s.open_until ≡ none → s.level ≡ 0)

pub record IsCoherent (b : CircuitBreaker) : Type 0 where
  pub usable : IsUsable b.tuning
  pub below : b.consecutive < b.threshold
  pub shut_level : b.open_until ≡ 0 → b.level ≡ 0
  pub shut_at : b.open_until ≡ 0 → b.open_until_at ≡ none
  pub shut_deadline : b.open_until_at ≡ none → b.open_until ≡ 0

pub two_pow_pos : (n : ℕ) → 0 < 2 ^ n
two_pow_pos zero = omega arith
two_pow_pos (suc n) = rw pow-suc (omega (arith, two_pow_pos n))

pub cooldown_pos : (t : Tuning) (level : ℕ) → IsUsable t → 0 < cooldown t level
unfolding cooldown
cooldown_pos t level u = grind (arith, two_pow_pos (level - 1), u.base, u.cap)

pub record_success-IsCoherent : (b : CircuitBreaker) → IsCoherent b → IsCoherent (record_success b)
unfolding record_success
record_success-IsCoherent b h = ground arith

pub record_failure-IsCoherent :
    (now : Clock) (b : CircuitBreaker) → IsCoherent b → IsCoherent (record_failure now b)
unfolding record_failure
record_failure-IsCoherent now b h = ground (arith, cooldown_pos b.tuning (b.level + 1))

new_breaker_saved :
    (now : Clock) (provider source : Text) (t : Tuning) (s : BreakerState)
    → 0 < now.monotonic
    → IsUsable t
    → IsSaved t s
    → IsCoherent (new_breaker now provider source t (some s))
unfolding new_breaker
new_breaker_saved now provider source t s h u saved = ground arith

pub record_outcome-IsCoherent :
    (now : Clock) (o : Outcome) (b : CircuitBreaker)
    → IsCoherent b
    → IsCoherent (record_outcome now o b)
unfolding record_outcome
record_outcome-IsCoherent now success b h = record_success-IsCoherent b h
record_outcome-IsCoherent now failure b h = record_failure-IsCoherent now b h

-- The fields stay coherent through any outcomes: the count is below the threshold, and a breaker
-- whose deadline is 0 has level 0 and reports none.
pub replay-IsCoherent :
    (events : List (Clock × Outcome)) (b : CircuitBreaker)
    → IsCoherent b
    → IsCoherent (replay events b)
unfolding replay
replay-IsCoherent [] b h = h
replay-IsCoherent ((now, o) ∷ rest) b h =
    replay-IsCoherent rest (record_outcome now o b) (record_outcome-IsCoherent now o b h)

-- A breaker starts coherent, afresh or from a saved state whose count is below the threshold and
-- whose level is 0 unless it has a deadline, if the tuning is usable and the monotonic clock has moved.
pub new_breaker-IsCoherent :
    (now : Clock) (provider source : Text) (t : Tuning) (initial : Option BreakerState)
    → 0 < now.monotonic
    → IsUsable t
    → ((s : BreakerState) → initial ≡ some s → IsSaved t s)
    → IsCoherent (new_breaker now provider source t initial)
unfolding new_breaker
new_breaker-IsCoherent now provider source t none h u saved = ground arith
new_breaker-IsCoherent now provider source t (some s) h u saved =
    new_breaker_saved now provider source t s h u (saved s refl)
