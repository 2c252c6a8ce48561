-- ===== src/Portal/Ephemeral/Counting.antt =====
-- packages/portal/portal/ephemeral.py: `increment` counts events in a window that the first opens.
use docs_pe.Common.Maybe.{◌>>=◌}
use docs_pe.Common.Eq.{text_eq_key}
use docs_pe.Common.{
  ℕ, ◌+◌, ◌≡◌, ◌<◌, refl, Option, none, some, List, [], ◌∷◌, Text, length, arith, text_eq_refl, All,
}
use docs_pe.Common.Dict.{lookup, put, lookup-put}
use docs_pe.Portal.Ephemeral.{Entry, EphemeralStore, Decimal, increment, live_entry}

module _ (d : Decimal) where
  -- The row of the key: a count, and the end of its window.
  abbrev pub tally : ℕ → ℕ → Entry
  tally n end = record { value = d.render n; expires_at = end }

  abbrev pub Holds : Text → ℕ → ℕ → EphemeralStore → Type 0
  Holds key n end s = lookup key s ≡ some (tally n end)

  pub increment-Holds :
      (now ttl n end : ℕ) (key : Text) (s : EphemeralStore)
      → Holds key n end s
      → now < end
      → increment d now key ttl s ≡ some (n + 1, put key (tally (n + 1) end) s)
  unfolding increment
  increment-Holds now ttl n end key s h lt = ground (arith, d.parse-render n)

  pub increment_fresh :
      (now ttl : ℕ) (key : Text) (s : EphemeralStore)
      → live_entry now key s ≡ none
      → increment d now key ttl s ≡ some (1, put key (tally 1 (now + ttl)) s)
  unfolding increment
  increment_fresh now ttl key s h = ground (arith, d.render_one)

  -- Events counted one after another.
  unfoldable pub burst : Text → ℕ → List ℕ → EphemeralStore → Option EphemeralStore
  burst key ttl [] s = some s
  burst key ttl (now ∷ later) s = do (n, s') ← increment d now key ttl s; burst key ttl later s'

  pub burst-Holds :
      (ttl n end : ℕ) (key : Text) (times : List ℕ) (s : EphemeralStore)
      → Holds key n end s
      → All (λ t. t < end) times
      → (s' : EphemeralStore) × (burst key ttl times s ≡ some s')
        × Holds key (n + length times) end s'
  unfolding burst
  burst-Holds ttl n end key [] s h a = (s, refl, ground arith)
  burst-Holds ttl n end key (t ∷ ts) s h a =
      let next = put key (tally (n + 1) end) s in
      let held : Holds key (n + 1) end next =
        ground (arith, lookup-put key key (tally (n + 1) end) s, text_eq_refl key) in
      let (s', e, k) = burst-Holds ttl (n + 1) end key ts next held a.1 in
      (s', rw (increment-Holds t ttl n end key s h a.0) e, ground arith)

  -- A burst cannot push the deadline out: after a first event at `first` on a key with no live value,
  -- the events inside its window are counted exactly, and the window still ends at `first + ttl`.
  pub burst_window :
      (first ttl : ℕ) (key : Text) (times : List ℕ) (s : EphemeralStore)
      → live_entry first key s ≡ none
      → All (λ t. t < first + ttl) times
      → (s' : EphemeralStore) × (burst key ttl (first ∷ times) s ≡ some s')
        × Holds key (1 + length times) (first + ttl) s'
  unfolding burst
  burst_window first ttl key times s h a =
      let next = put key (tally 1 (first + ttl)) s in
      let held : Holds key 1 (first + ttl) next =
        ground (arith, lookup-put key key (tally 1 (first + ttl)) s, text_eq_refl key) in
      let (s', e, k) = burst-Holds ttl 1 (first + ttl) key times next held a in
      (s', rw (increment_fresh first ttl key s h) e, k)
