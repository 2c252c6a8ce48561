-- ===== src/Portal/Throttle/Cap.antt =====
-- packages/portal/portal/application/throttle.py: how many mutations a window admits.
use docs_pe.Common.Eq.{text_eq_key}
use docs_pe.Common.Maybe.{◌>>=◌}
use docs_pe.Common.{
  ℕ, ◌+◌, ◌≡◌, ◌<◌, refl, Bool, Option, none, some, List, [], ◌∷◌, Text, leb, All, arith,
  text_eq_refl,
}
use docs_pe.Common.Dict.{put, lookup-put}
use docs_pe.Portal.Ephemeral.{EphemeralStore, Decimal, live_entry}
use docs_pe.Portal.Ephemeral.Counting.{tally, Holds, increment-Holds, increment_fresh}
use docs_pe.Portal.Throttle.{mutation_window, mutation_limit, mutation_key, admit}

-- The verdicts of the requests numbered from `n` on.
abbrev pub verdicts : ℕ → List ℕ → List Bool
verdicts n [] = []
verdicts n (t ∷ ts) = leb n mutation_limit ∷ verdicts (n + 1) ts

module _ (d : Decimal) where
  -- Requests of one actor to one route family, and what each is told.
  unfoldable pub admits :
      List ℕ → Text → Text → EphemeralStore → Option (List Bool × EphemeralStore)
  admits [] actor route s = some ([], s)
  admits (now ∷ later) actor route s = do
    (ok, s') ← admit d now actor route s
    (oks, s'') ← admits later actor route s'
    some (ok ∷ oks, s'')

  admits-Holds :
      (times : List ℕ) (n end : ℕ) (actor route : Text) (s : EphemeralStore)
      → Holds d (mutation_key actor route) n end s
      → All (λ t. t < end) times
      → (s' : EphemeralStore) × (admits times actor route s ≡ some (verdicts (n + 1) times, s'))
  unfolding admits admit
  admits-Holds [] n end actor route s h a = (s, refl)
  admits-Holds (t ∷ ts) n end actor route s h a =
      let key = mutation_key actor route in
      let next = put key (tally d (n + 1) end) s in
      let held : Holds d key (n + 1) end next =
        ground (arith, lookup-put key key (tally d (n + 1) end) s, text_eq_refl key) in
      let (s', e) = admits-Holds ts (n + 1) end actor route next held a.1 in
      (s', rw (increment-Holds d t mutation_window n end key s h a.0) (rw e refl))

  -- In a window that a first request opens on a key with no live value, the first thirty requests pass
  -- and every further one is refused, until the window ends.
  pub admits_window :
      (first : ℕ) (times : List ℕ) (actor route : Text) (s : EphemeralStore)
      → live_entry first (mutation_key actor route) s ≡ none
      → All (λ t. t < first + mutation_window) times
      → (s' : EphemeralStore) × (admits (first ∷ times) actor route s
          ≡ some (verdicts 1 (first ∷ times), s'))
  unfolding admits admit
  admits_window first times actor route s fresh a =
      let key = mutation_key actor route in
      let end = first + mutation_window in
      let next = put key (tally d 1 end) s in
      let held : Holds d key 1 end next =
        ground (arith, lookup-put key key (tally d 1 end) s, text_eq_refl key) in
      let (s', e) = admits-Holds times 1 end actor route next held a in
      (s', rw (increment_fresh d first mutation_window key s fresh) (rw e refl))
