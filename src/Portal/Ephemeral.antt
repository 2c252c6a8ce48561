-- ===== src/Portal/Ephemeral.antt =====
-- packages/portal/portal/ephemeral.py: the table portal_ephemeral of values that expire.
-- Each statement reads one `now()`, an argument here; texts that PostgreSQL casts to numbers go by
-- a `Decimal`.
pub mod Reads
pub mod Counting
use docs_pe.Common.Eq.{text_eq_key}
use docs_pe.Common.{
  ℕ, ◌+◌, ◌≡◌, Bool, true, false, Option, none, some, List, Text, text, ltb, length, ◌-◌,
  if◌then◌else◌, is_some,
}
use docs_pe.Common.Dict.{lookup, put, remove, keep}

pub record Entry : Type 0 where
  pub value : Text
  pub expires_at : ℕ

abbrev pub EphemeralStore : Type 0
EphemeralStore = List (Text × Entry)

-- `value::bigint` and `(n)::text`, below the range in which bigint overflows. `int` and `str` of
-- Python agree with them.
pub record Decimal : Type 0 where
  pub parse : Text → Option ℕ
  pub render : ℕ → Text
  pub parse-render : (n : ℕ) → parse (render n) ≡ some n
  pub render_one : render 1 ≡ text "1"

-- `expires_at > now()`
abbrev pub is_live : ℕ → Entry → Bool
is_live now e = ltb now e.expires_at

abbrev pub live : ℕ → Option Entry → Option Entry
live now none = none
live now (some e) = if is_live now e then some e else none

abbrev pub value_of : Option Entry → Option Text
value_of none = none
value_of (some e) = some e.value

unfoldable pub live_entry : ℕ → Text → EphemeralStore → Option Entry
live_entry now key s = live now (lookup key s)

unfoldable pub put_new : ℕ → Text → Text → ℕ → EphemeralStore → Bool × EphemeralStore
unfolding live_entry
put_new now key value ttl s =
    if is_some (live_entry now key s)
    then (false, s)
    else (true, put key (record { value = value; expires_at = now + ttl }) s)

unfoldable pub replace : ℕ → Text → Text → ℕ → EphemeralStore → Bool × EphemeralStore
unfolding live_entry
replace now key value ttl s =
    if is_some (live_entry now key s)
    then (true, put key (record { value = value; expires_at = now + ttl }) s)
    else (false, s)

unfoldable pub read : ℕ → Text → EphemeralStore → Option Text
unfolding live_entry
read now key s = value_of (live_entry now key s)

unfoldable pub take : ℕ → Text → EphemeralStore → Option Text × EphemeralStore
unfolding live_entry
take now key s =
    if is_some (live_entry now key s)
    then (value_of (live_entry now key s), remove key s)
    else (none, s)

-- `none` is the error that the cast raises on a text that is no number; it leaves the row alone.
abbrev counted :
    Decimal → ℕ → Text → ℕ → EphemeralStore → Option Entry → Option (ℕ × EphemeralStore)
counted d now key ttl s none =
    some (1, put key (record { value = text "1"; expires_at = now + ttl }) s)
counted d now key ttl s (some e) = elim (d.parse e.value) [
  | none ↦ none
  | some n ↦
      some (n + 1, put key (record { value = d.render (n + 1); expires_at = e.expires_at }) s)
]

unfoldable pub increment : Decimal → ℕ → Text → ℕ → EphemeralStore → Option (ℕ × EphemeralStore)
unfolding live_entry
increment d now key ttl s = counted d now key ttl s (live_entry now key s)

unfoldable pub discard : Text → EphemeralStore → EphemeralStore
discard key s = remove key s

-- The number of rows deleted is that of the command tag.
unfoldable pub sweep : ℕ → EphemeralStore → ℕ × EphemeralStore
sweep now s = (length s - length (keep (is_live now) s), keep (is_live now) s)
