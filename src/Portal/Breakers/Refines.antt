-- ===== src/Portal/Breakers/Refines.antt =====
-- packages/portal/portal/repository/breakers.py against packages/core/core/pipeline/breaker.py: the
-- table's row moves as the object's fields do.
use docs_pe.Common.{
  sym, any, Bool-cases, inl, inr, ◌∙◌, ap, ℕ, ◌+◌, ◌-◌, ◌≡◌, refl, List, [], ◌∷◌, arith, Bool,
  false, true, ◌&&◌, Text, text_eq, text_eq_iff, text_eq_refl, if◌then◌else◌,
}
use docs_pe.Common.Table.{update}
use docs_pe.Core.Breaker.{
  CircuitBreaker, Clock, Outcome, success, failure, record_success, record_failure, cooldown,
  default_tuning,
}
use docs_pe.Core.Breaker
use docs_pe.Core.Breaker.State.{IsCoherent, record_outcome-IsCoherent}
use docs_pe.Portal.Breakers.{
  Health, BreakerRow, transition, has_key, ensure_row, health_of, record_outcome, set_health,
}

-- The row that the object's fields stand for.
abbrev pub view : CircuitBreaker → Health
view b = record {
  consecutive_failures = b.consecutive;
  level = b.level;
  open_until = b.open_until_at;
}

abbrev pub is_healthy : Outcome → Bool
is_healthy success = true
is_healthy failure = false

transition-view :
    (now : Clock) (o : Outcome) (b : CircuitBreaker)
    → IsCoherent b
    → view (Breaker.record_outcome now o b) ≡ transition b.tuning now.utc (is_healthy o) (view b)
unfolding Breaker.record_outcome record_success record_failure cooldown transition
transition-view now success b h = ground arith
transition-view now failure b h =
    let e : b.level + 1 - 1 ≡ b.level = omega arith in rw e (ground arith)

-- A reported outcome moves the row of its pair, and no other.
health_of-ensure_row :
    (s p j k : Text) (table : List BreakerRow)
    → health_of j k (ensure_row s p table) ≡ health_of j k table
unfolding health_of ensure_row
health_of-ensure_row s p j k [] = ground arith
health_of-ensure_row s p j k (r ∷ rs) = ground (arith, health_of-ensure_row s p j k rs)

abbrev same_pair : Text → Text → Text → Text → Bool
same_pair s p j k = text_eq s j && text_eq p k

health_of-update_self :
    (f : Health → Health) (s p : Text) (table : List BreakerRow)
    → any (has_key s p) table ≡ true
    → health_of s p (update (has_key s p) (set_health f) table) ≡ f (health_of s p table)
unfolding health_of
health_of-update_self f s p [] h = cc
health_of-update_self f s p (r ∷ rs) h = ground (arith, health_of-update_self f s p rs)

health_of-update_ne :
    (f : Health → Health) (s p j k : Text) (table : List BreakerRow)
    → same_pair s p j k ≡ false
    → health_of j k (update (has_key s p) (set_health f) table) ≡ health_of j k table
unfolding health_of
health_of-update_ne f s p j k [] h = refl
health_of-update_ne f s p j k (r ∷ rs) h = ground (
  arith,
  health_of-update_ne f s p j k rs,
  text_eq_iff s j,
  text_eq_iff p k,
  text_eq_iff r.source s,
  text_eq_iff r.source j,
  text_eq_iff r.provider p,
  text_eq_iff r.provider k,
)

ensure_row-any :
    (s p : Text) (table : List BreakerRow) → any (has_key s p) (ensure_row s p table) ≡ true
unfolding ensure_row
ensure_row-any s p [] = ground (arith, text_eq_refl s, text_eq_refl p)
ensure_row-any s p (r ∷ rs) = ground (arith, ensure_row-any s p rs)

pub health_of-record_outcome :
    (now : ℕ) (s p j k : Text) (healthy : Bool) (table : List BreakerRow)
    → health_of j k (record_outcome now s p healthy table) ≡ (
        if same_pair s p j k
        then transition default_tuning now healthy (health_of j k table)
        else health_of j k table)
unfolding record_outcome
health_of-record_outcome now s p j k healthy table = elim (Bool-cases (same_pair s p j k)) [
  | inl e ↦
      let es : s ≡ j = ground (arith, text_eq_iff s j, text_eq_iff p k) in
      let ep : p ≡ k = ground (arith, text_eq_iff s j, text_eq_iff p k) in
      rw e (
        rw (← es, ← ep)
          (health_of-update_self (transition default_tuning now healthy) s p (ensure_row s p table)
              (ensure_row-any s p table)
            ∙ ap (transition default_tuning now healthy) (health_of-ensure_row s p s p table)))
  | inr e ↦ rw e (
      health_of-update_ne (transition default_tuning now healthy) s p j k (ensure_row s p table) e
      ∙ health_of-ensure_row s p j k table)
]

-- Reports of several pairs, in the order in which their transactions commit.
pub record Report : Type 0 where
  pub source : Text
  pub provider : Text
  pub clock : Clock
  pub outcome : Outcome

unfoldable pub replay_table : List Report → List BreakerRow → List BreakerRow
replay_table [] table = table
replay_table (e ∷ rest) table =
    replay_table rest (record_outcome e.clock.utc e.source e.provider (is_healthy e.outcome) table)

-- The reports of one pair.
abbrev pub reports_of : Text → Text → List Report → List (Clock × Outcome)
reports_of s p [] = []
reports_of s p (e ∷ rest) =
    let others = reports_of s p rest in
    if same_pair e.source e.provider s p then (e.clock, e.outcome) ∷ others else others

tuning-record_outcome :
    (now : Clock) (o : Outcome) (b : CircuitBreaker)
    → (Breaker.record_outcome now o b).tuning ≡ b.tuning
unfolding Breaker.record_outcome record_success record_failure
tuning-record_outcome now success b = ground arith
tuning-record_outcome now failure b = ground arith

row_step :
    (r : Report) (s p : Text) (table : List BreakerRow)
    → health_of s p (record_outcome r.clock.utc r.source r.provider (is_healthy r.outcome) table)
      ≡ (if same_pair r.source r.provider s p
          then transition default_tuning r.clock.utc (is_healthy r.outcome) (health_of s p table)
          else health_of s p table)
row_step r s p table =
    health_of-record_outcome r.clock.utc r.source r.provider s p (is_healthy r.outcome) table

-- However the reports of all pairs interleave, the row of a pair is the state that one coherent
-- in-memory breaker with the default tuning reaches on that pair's reports alone, if the row starts
-- as that breaker's state.
pub health_of-replay_table :
    (reports : List Report) (s p : Text) (b : CircuitBreaker) (table : List BreakerRow)
    → IsCoherent b
    → b.tuning ≡ default_tuning
    → health_of s p table ≡ view b
    → health_of s p (replay_table reports table) ≡ view (Breaker.replay (reports_of s p reports) b)
unfolding replay_table Breaker.replay
health_of-replay_table [] s p b table c t e = e
health_of-replay_table (r ∷ rest) s p b table c t e =
    elim (Bool-cases (same_pair r.source r.provider s p)) [
      | inl hit ↦ rw hit (
          health_of-replay_table rest s p (Breaker.record_outcome r.clock r.outcome b) _
            (record_outcome-IsCoherent r.clock r.outcome b c)
            (tuning-record_outcome r.clock r.outcome b ∙ t)
            (row_step r s p table
              ∙ rw hit (
                  ap (transition default_tuning r.clock.utc (is_healthy r.outcome)) e
                  ∙ ap (λ u. transition u r.clock.utc (is_healthy r.outcome) (view b)) (sym t)
                  ∙ sym (transition-view r.clock r.outcome b c))))
      | inr miss ↦
          rw miss (health_of-replay_table rest s p b _ c t (row_step r s p table ∙ rw miss e))
    ]
