-- ===== src/Core/Breaker/Bounds.antt =====
-- packages/core/core/pipeline/breaker.py: when the breaker opens, for how long, and when it closes.
use native.Mathlib.Nat.{pow-suc}
use docs_pe.Common.{
  ℕ, suc, ◌+◌, ◌-◌, ◌*◌, ◌≤◌, ◌<◌, min, ◌≡◌, none, List, [], ◌∷◌, arith, false, true, length, map,
}
use docs_pe.Core.Breaker.{
  CircuitBreaker, Clock, Tuning, Outcome, failure, record_success, record_failure, record_outcome,
  replay, cooldown, is_open, notify, acquire_round,
}
use docs_pe.Core.Breaker.State.{IsCoherent, cooldown_pos, two_pow_pos}

-- The failures seen at the given readings of the clocks.
abbrev pub failures : List Clock → List (Clock × Outcome)
failures = map (λ now. (now, failure))

pub replay-failures_below :
    (times : List Clock) (b : CircuitBreaker)
    → b.consecutive + length times < b.threshold
    → replay (failures times) b ≡ record b { consecutive = b.consecutive + length times }
unfolding replay record_outcome record_failure
replay-failures_below [] b h = ground arith
replay-failures_below (now ∷ times) b h =
    ground (arith, replay-failures_below times (record b { consecutive = b.consecutive + 1 }))

-- On a coherent breaker, failures below the threshold leave the deadline and the level alone; the one
-- that reaches it opens the breaker for the cooldown of the next level, and the count starts again.
pub opens_at_threshold :
    (times : List Clock) (now : Clock) (b : CircuitBreaker)
    → IsCoherent b
    → b.consecutive + length times + 1 ≡ b.threshold
    → let before = replay (failures times) b in
      let after = record_failure now before in
      (before.open_until ≡ b.open_until)
      × (before.level ≡ b.level)
      × (after.open_until ≡ now.monotonic + cooldown b.tuning (b.level + 1))
      × (after.level ≡ b.level + 1)
      × (after.consecutive ≡ 0)
      × (is_open now after ≡ true)
unfolding record_failure is_open
opens_at_threshold times now b c h =
    rw (replay-failures_below times b (omega arith))
      (ground (arith, cooldown_pos b.tuning (b.level + 1)))

-- The cooldown doubles from level to level until the cap holds it.
pub cooldown_doubles :
    (t : Tuning) (level : ℕ)
    → cooldown t (level + 2) ≡ min t.max_cooldown (2 * cooldown t (level + 1))
unfolding cooldown
cooldown_doubles t level =
    let e : level + 2 - 1 ≡ suc level = omega arith in
    let f : level + 1 - 1 ≡ level = omega arith in rw (e, f, pow-suc) (grind arith)

pub cooldown_bounds :
    (t : Tuning) (level : ℕ)
    → (min t.max_cooldown t.base_cooldown ≤ cooldown t level) × (cooldown t level ≤ t.max_cooldown)
unfolding cooldown
cooldown_bounds t level = grind (arith, two_pow_pos (level - 1))

-- After a success, a coherent breaker is closed, `acquire` returns at once, and the state that is
-- reported has no failures, level 0 and no deadline.
pub record_success_closes :
    (now : Clock) (b : CircuitBreaker)
    → IsCoherent b
    → (is_open now (record_success b) ≡ false)
      × (acquire_round now (record_success b) ≡ none)
      × (notify (record_success b) ≡ record {
        source = b.source;
        provider = b.provider;
        consecutive_failures = 0;
        level = 0;
        open_until = none;
      })
unfolding record_success is_open notify acquire_round
record_success_closes now b h = ground arith
