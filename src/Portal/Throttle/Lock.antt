-- ===== src/Portal/Throttle/Lock.antt =====
-- packages/portal/portal/application/throttle.py: the login lock, and that it expires by itself.
use docs_pe.Common.Maybe.{◌>>=◌}
use docs_pe.Common.Eq.{text_eq_key}
use docs_pe.Common.{
  ◌&&◌, ℕ, ◌+◌, ◌≡◌, ◌<◌, refl, true, false, not, Option, none, some, List, [], ◌∷◌, Text, leb,
  length, ltb, All, arith, text_eq, text_eq_iff, text_eq_refl, ◌⊎◌, inl, inr, Bool-cases,
}
use docs_pe.Common.Unicode.{Unicode}
use docs_pe.Common.Dict.{lookup, put, lookup-put}
use docs_pe.Portal.Ephemeral.{EphemeralStore, Decimal, read, live_entry, increment, discard}
use docs_pe.Portal.Ephemeral.Counting.{tally, Holds, increment-Holds, increment_fresh}
use docs_pe.Portal.Ephemeral.Reads.{read-discard}
use docs_pe.Portal.Throttle.{
  login_window, login_attempt_limit, account_key, source_key, is_spent, allows, record_failure,
  clear,
}

pub record Failure : Type 0 where
  pub first : ℕ
  pub second : ℕ
  pub source : Text

keys_differ :
    (u : Unicode) (email source : Text) → text_eq (account_key u email) (source_key source) ≡ false
unfolding text_eq
keys_differ u email source = refl

module _ (u : Unicode) (d : Decimal) where
  -- A row that a counter can have: none, or a number under some deadline.
  abbrev pub IsCounter : Text → EphemeralStore → Type 0
  IsCounter key s = (lookup key s ≡ none) ⊎ ((n : ℕ) × (end : ℕ) × Holds d key n end s)

  counts :
      (now ttl : ℕ) (key : Text) (s : EphemeralStore)
      → IsCounter key s
      → (n : ℕ) × (end : ℕ) × (increment d now key ttl s ≡ some (n, put key (tally d n end) s))
  unfolding increment
  counts now ttl key s (inl e) = (1, now + ttl, ground (arith, d.render_one))
  counts now ttl key s (inr (n, end, h)) = elim (Bool-cases (ltb now end)) [
    | inl inside ↦ (n + 1, end, increment-Holds d now ttl n end key s h (ground arith))
    | inr past ↦ (1, now + ttl, increment_fresh d now ttl key s (unfold live_entry in ground arith))
  ]

  put-IsCounter :
      (key j : Text) (n end : ℕ) (s : EphemeralStore)
      → IsCounter j s
      → IsCounter j (put key (tally d n end) s)
  put-IsCounter key j n end s c = elim (Bool-cases (text_eq key j)) [
    | inl e ↦ inr (n, end, ground (arith, lookup-put key j (tally d n end) s))
    | inr e ↦ rw (lookup-put key j (tally d n end) s, e) c
  ]

  -- What a failure does once the account's counter has moved to `k`.
  failure_after_account :
      (email : Text) (f : Failure) (k end : ℕ) (s : EphemeralStore)
      → increment d f.first (account_key u email) login_window s
        ≡ some (k, put (account_key u email) (tally d k end) s)
      → ((source : Text) → IsCounter (source_key source) s)
      → (s' : EphemeralStore) × (record_failure u d f.first f.second email f.source s ≡ some s')
        × Holds d (account_key u email) k end s'
        × ((source : Text) → IsCounter (source_key source) s')
  unfolding record_failure
  failure_after_account email f k end s moved c =
      let akey = account_key u email in
      let skey = source_key f.source in
      let s1 = put akey (tally d k end) s in
      let (m, end', e) =
        counts f.second login_window skey s1 (put-IsCounter akey skey k end s (c f.source)) in
      (
        put skey (tally d m end') s1,
        rw moved (rw e refl),
        ground (
          arith,
          lookup-put skey akey (tally d m end') s1,
          lookup-put akey akey (tally d k end) s,
          text_eq_refl akey,
          keys_differ u email f.source,
          text_eq_iff akey skey,
          text_eq_iff skey akey,
        ),
        λ source.
            put-IsCounter skey (source_key source) m end' s1
              (put-IsCounter akey (source_key source) k end s (c source)),
      )

  -- Failures of one account, from any sources.
  unfoldable pub record_failures : Text → List Failure → EphemeralStore → Option EphemeralStore
  record_failures email [] s = some s
  record_failures email (f ∷ fs) s = do
    s' ← record_failure u d f.first f.second email f.source s
    record_failures email fs s'

  failures_count :
      (email : Text) (fs : List Failure) (n end : ℕ) (s : EphemeralStore)
      → Holds d (account_key u email) n end s
      → All (λ f. f.first < end) fs
      → ((source : Text) → IsCounter (source_key source) s)
      → (s' : EphemeralStore) × (record_failures email fs s ≡ some s')
        × Holds d (account_key u email) (n + length fs) end s'
        × ((source : Text) → IsCounter (source_key source) s')
  unfolding record_failures
  failures_count email [] n end s h a c = (s, refl, ground arith, c)
  failures_count email (f ∷ fs) n end s h a c =
      let (s', e, h', c') =
        failure_after_account email f (n + 1) end s
          (increment-Holds d f.first login_window n end (account_key u email) s h a.0) c in
      let (s'', e', h'', c'') = failures_count email fs (n + 1) end s' h' a.1 c' in
      (s'', rw e e', ground arith, c'')

  -- Whether a held counter is spent at a time.
  is_spent-Holds :
      (now n end : ℕ) (key : Text) (s : EphemeralStore)
      → Holds d key n end s
      → is_spent u d now key s ≡ some (ltb now end && leb login_attempt_limit n)
  unfolding is_spent read live_entry
  is_spent-Holds now n end key s h = ground (arith, d.parse-render n)

  -- The account is refused exactly while the window that its first failure opened lasts and five
  -- failures have been counted, whatever the sources were; later failures do not move its end.
  pub allows-record_failures :
      (email : Text) (f : Failure) (fs : List Failure) (s : EphemeralStore)
      → live_entry f.first (account_key u email) s ≡ none
      → ((source : Text) → IsCounter (source_key source) s)
      → All (λ g. g.first < f.first + login_window) fs
      → (s' : EphemeralStore) × (record_failures email (f ∷ fs) s ≡ some s')
        × ((now later : ℕ) (source : Text)
            → is_spent u d later (source_key source) s' ≡ some false
            → allows u d now later email source s'
              ≡ some (
                  not
                    (ltb now (f.first + login_window) && leb login_attempt_limit (1 + length fs))))
  unfolding record_failures allows
  allows-record_failures email f fs s fresh c inside =
      let akey = account_key u email in
      let end = f.first + login_window in
      let (s', e, h, c') =
        failure_after_account email f 1 end s (increment_fresh d f.first login_window akey s fresh)
          c in
      let (s'', e', h', c'') = failures_count email fs 1 end s' h inside c' in
      (
        s'',
        rw e e',
        λ now later source free.
            ground (arith, free, is_spent-Holds now (1 + length fs) end akey s'' h'),
      )

  -- Clearing lets the account and the source in again, at any time.
  pub allows-clear :
      (now later : ℕ) (email source : Text) (s : EphemeralStore)
      → allows u d now later email source (clear u d email source s) ≡ some true
  unfolding allows clear is_spent
  allows-clear now later email source s = ground (
    arith,
    read-discard now (source_key source) (account_key u email) (discard (account_key u email) s),
    read-discard now (account_key u email) (account_key u email) s,
    read-discard later (source_key source) (source_key source) (discard (account_key u email) s),
    text_eq_refl (account_key u email),
    text_eq_refl (source_key source),
  )
