-- ===== src/Portal/Ephemeral/Reads.antt =====
-- packages/portal/portal/ephemeral.py: what every operation does to later reads of every key.
use docs_pe.Common.Eq.{text_eq_key}
use docs_pe.Common.{
  ℕ, ◌+◌, ◌≡◌, ◌≤◌, not, none, some, Text, ltb, if◌then◌else◌, is_some, arith, ◌&&◌, text_eq,
  text_eq_iff,
}
use docs_pe.Common.Dict.{HasUniqueKeys, lookup-put, lookup-remove, lookup-keep}
use docs_pe.Portal.Ephemeral.{
  EphemeralStore, put_new, replace, read, take, discard, sweep, live_entry, is_live,
}

-- `put_new` writes exactly when no live value holds the key: then a read finds the new value until
-- its time has run out. All other reads, and all reads if it does not write, are as before.
pub read-put_new :
    (now later : ℕ) (key j value : Text) (ttl : ℕ) (s : EphemeralStore)
    → ((put_new now key value ttl s).0 ≡ not (is_some (live_entry now key s)))
      × (read later j (put_new now key value ttl s).1 ≡ (
          if text_eq key j && (put_new now key value ttl s).0
          then (if ltb later (now + ttl) then some value else none)
          else read later j s))
unfolding put_new read live_entry
read-put_new now later key j value ttl s = ground (
  arith,
  lookup-put key j (record { value = value; expires_at = now + ttl }) s,
  text_eq_iff key j,
)

-- `replace` writes exactly when a live value holds the key: then a read finds the new value until
-- its time has run out. All other reads, and all reads if it does not write, are as before.
pub read-replace :
    (now later : ℕ) (key j value : Text) (ttl : ℕ) (s : EphemeralStore)
    → ((replace now key value ttl s).0 ≡ is_some (live_entry now key s))
      × (read later j (replace now key value ttl s).1 ≡ (
          if text_eq key j && (replace now key value ttl s).0
          then (if ltb later (now + ttl) then some value else none)
          else read later j s))
unfolding replace read live_entry
read-replace now later key j value ttl s = ground (
  arith,
  lookup-put key j (record { value = value; expires_at = now + ttl }) s,
  text_eq_iff key j,
)

-- `take` gives what a read gives, and at every later time the key is gone, whether or not it was
-- live; other keys read as before.
pub read-take :
    (now later : ℕ) (key j : Text) (s : EphemeralStore)
    → now ≤ later
    → ((take now key s).0 ≡ read now key s)
      × (read later j (take now key s).1 ≡ (if text_eq key j then none else read later j s))
unfolding take read live_entry
read-take now later key j s h = ground (arith, lookup-remove key j s, text_eq_iff key j)

-- A discarded key is gone at every time, and other keys read as before.
pub read-discard :
    (later : ℕ) (key j : Text) (s : EphemeralStore)
    → read later j (discard key s) ≡ (if text_eq key j then none else read later j s)
unfolding discard read live_entry
read-discard later key j s = ground (arith, lookup-remove key j s)

-- A sweep of a table with unique keys changes no read from its own time on.
pub read-sweep :
    (now later : ℕ) (j : Text) (s : EphemeralStore)
    → now ≤ later
    → HasUniqueKeys s
    → read later j (sweep now s).1 ≡ read later j s
unfolding sweep read live_entry
read-sweep now later j s h u = ground (arith, lookup-keep (is_live now) j s u)
