-- ===== src/Portal/Breakers.antt =====
-- packages/portal/portal/repository/breakers.py: the table portal_circuit_breakers.
-- A transaction is one function of the table; `now()` is an argument.
pub mod Refines
use docs_pe.Common.{
  ℕ, ◌+◌, ◌*◌, ◌^◌, min, Bool, false, ◌&&◌, Option, none, some, List, [], ◌∷◌, Text, text_eq, ltb,
  if◌then◌else◌,
}
use docs_pe.Common.Table.{update}
use docs_pe.Core.Breaker.{Tuning, default_tuning}

-- The columns that a statement changes.
pub record Health : Type 0 where
  pub consecutive_failures : ℕ
  pub level : ℕ
  pub open_until : Option ℕ

pub record BreakerRow : Type 0 where
  pub source : Text
  pub provider : Text
  pub health : Health

abbrev pub has_key : Text → Text → BreakerRow → Bool
has_key source provider r = text_eq r.source source && text_eq r.provider provider

-- The defaults of the columns.
abbrev pub fresh_health : Health
fresh_health = record { consecutive_failures = 0; level = 0; open_until = none }

-- `_ENSURE_ROW`
unfoldable pub ensure_row : Text → Text → List BreakerRow → List BreakerRow
ensure_row source provider [] =
    record { source = source; provider = provider; health = fresh_health } ∷ []
ensure_row source provider (r ∷ rs) =
    let rest = ensure_row source provider rs in
    if has_key source provider r then r ∷ rs else r ∷ rest

-- The SET clauses of `_RECORD_OUTCOME`, each from the row's current values. `power(2, level)` is a
-- double, which PostgreSQL refuses at levels of about 1022 and more; the model has no such level's error.
unfoldable pub transition : Tuning → ℕ → Bool → Health → Health
transition t now healthy_contact b = record {
  consecutive_failures =
      if healthy_contact
      then 0
      else if ltb (b.consecutive_failures + 1) t.threshold
      then b.consecutive_failures + 1
      else 0;
  level =
      if healthy_contact
      then 0
      else if ltb (b.consecutive_failures + 1) t.threshold
      then b.level
      else b.level + 1;
  open_until =
      if healthy_contact
      then none
      else if ltb (b.consecutive_failures + 1) t.threshold
      then b.open_until
      else some (now + min t.max_cooldown (t.base_cooldown * 2 ^ b.level));
}

abbrev pub set_health : (Health → Health) → BreakerRow → BreakerRow
set_health f r = record r { health = f r.health }

-- `record_outcome`
unfoldable pub record_outcome : ℕ → Text → Text → Bool → List BreakerRow → List BreakerRow
unfolding ensure_row
record_outcome now source provider healthy_contact table =
    update (has_key source provider) (set_health (transition default_tuning now healthy_contact))
      (ensure_row source provider table)

-- `coalesce(open_until > now(), false)`, as in `states`.
unfoldable pub is_open : ℕ → Health → Bool
is_open now h = elim h.open_until [ none ↦ false | some t ↦ ltb now t ]

unfoldable pub health_of : Text → Text → List BreakerRow → Health
health_of source provider [] = fresh_health
health_of source provider (r ∷ rs) =
    let rest = health_of source provider rs in if has_key source provider r then r.health else rest
