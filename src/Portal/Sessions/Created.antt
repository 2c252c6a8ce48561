-- ===== src/Portal/Sessions/Created.antt =====
-- packages/portal/portal/application/sessions.py: no use of a session changes its creation time.
use docs_pe.Common.Eq.{text_eq_key}
use docs_pe.Common.{
  ℕ, ◌+◌, ◌-◌, ◌≡◌, refl, Option, none, some, Text, List, [], ◌∷◌, arith, is_empty, text_eq,
  text_eq_iff, ltb, inl, inr, Option-cases, Bool-cases, is_some,
}
use docs_pe.Common.Dict.{lookup, put, lookup-put, lookup-remove}
use docs_pe.Portal.Ephemeral.{Entry, EphemeralStore, replace, read, discard, live_entry}
use docs_pe.Portal.Sessions.{
  Services, SessionRecord, PortalUser, Readings, load, load_user, load_refresh, load_stored,
  mark_stored, mark_step_up_verified, destroy, session_key, session_lifetime, session_idle,
}

-- What a request may do to sessions.
pub data Use : Type 0 where
  loads marks : Readings → Text → Use
  destroys : Text → Use

-- The store after a call, as it was where the call raises.
abbrev pub after {ℓ} : {A : Type ℓ} → EphemeralStore → Option (A × EphemeralStore) → EphemeralStore
after s none = s
after s (some (a, s')) = s'

module _ (v : Services) where
  -- Every record under the key was created at `c`.
  abbrev pub IsCreatedAt : Text → ℕ → EphemeralStore → Type 0
  IsCreatedAt key c s =
      (e : Entry) (r : SessionRecord)
      → lookup key s ≡ some e
      → v.loads e.value ≡ some r
      → r.created_at ≡ c

  pub read_entry :
      (now : ℕ) (key stored : Text) (s : EphemeralStore)
      → read now key s ≡ some stored
      → (e : Entry) × (lookup key s ≡ some e) × (e.value ≡ stored)
  unfolding read live_entry
  read_entry now key stored s h = elim (Option-cases (lookup key s)) [
    | inl e ↦ absurd (ground arith)
    | inr (e, p) ↦ (e, p, ground arith)
  ]

  discard-IsCreatedAt :
      (key j : Text) (c : ℕ) (s : EphemeralStore)
      → IsCreatedAt j c s
      → IsCreatedAt j c (discard key s)
  unfolding discard
  discard-IsCreatedAt key j c s h e r p q = ground (arith, lookup-remove key j s, h e r)

  put-IsCreatedAt :
      (key j : Text) (w : Entry) (c : ℕ) (s : EphemeralStore)
      → IsCreatedAt j c s
      → (key ≡ j → (r : SessionRecord) → v.loads w.value ≡ some r → r.created_at ≡ c)
      → IsCreatedAt j c (put key w s)
  put-IsCreatedAt key j w c s h new e r p q = elim (Bool-cases (text_eq key j)) [
    | inl hit ↦ new ((text_eq_iff key j).0 hit) r (ground (arith, lookup-put key j w s))
    | inr miss ↦ h e r (ground (arith, lookup-put key j w s)) q
  ]

  replace-IsCreatedAt :
      (now : ℕ) (key j value : Text) (ttl c : ℕ) (s : EphemeralStore)
      → IsCreatedAt j c s
      → (key ≡ j → (r : SessionRecord) → v.loads value ≡ some r → r.created_at ≡ c)
      → IsCreatedAt j c (replace now key value ttl s).1
  unfolding replace
  replace-IsCreatedAt now key j value ttl c s h new =
      elim (Bool-cases (is_some (live_entry now key s))) [
        | inl old ↦
            rw old
              (put-IsCreatedAt key j (record { value = value; expires_at = now + ttl }) c s h new)
        | inr gone ↦ rw gone h
      ]

  -- The record that a key's text decodes to has the key's creation time.
  pub stored_created :
      (now : ℕ) (key stored : Text) (c : ℕ) (s : EphemeralStore) (r : SessionRecord)
      → IsCreatedAt key c s
      → read now key s ≡ some stored
      → v.loads stored ≡ some r
      → r.created_at ≡ c
  stored_created now key stored c s r h e l =
      let (w, p, q) = read_entry now key stored s e in h w r p (rw q l)

  load_user-IsCreatedAt :
      (key j : Text) (r : SessionRecord) (o : Option PortalUser) (c : ℕ) (s : EphemeralStore)
      → IsCreatedAt j c s
      → IsCreatedAt j c (load_user v key r o s).1
  unfolding load_user
  load_user-IsCreatedAt key j r none c s h = discard-IsCreatedAt key j c s h
  load_user-IsCreatedAt key j r (some user) c s h = elim (Bool-cases user.is_active) [
    | inl a ↦ rw a h
    | inr a ↦ rw a (discard-IsCreatedAt key j c s h)
  ]

  load_refresh-IsCreatedAt :
      (t : Readings) (key j stored : Text) (r : SessionRecord) (c : ℕ) (s : EphemeralStore)
      → IsCreatedAt j c s
      → v.loads stored ≡ some r
      → (key ≡ j → r.created_at ≡ c)
      → IsCreatedAt j c (load_refresh v t key stored r s).1
  unfolding load_refresh
  load_refresh-IsCreatedAt t key j stored r c s h l new =
      elim (Bool-cases (ltb session_lifetime (t.utc - r.created_at))) [
        | inl old ↦ rw old (discard-IsCreatedAt key j c s h)
        | inr young ↦
            rw young (elim (Bool-cases (replace t.refresh_at key stored session_idle s).0) [
              | inl done ↦ rw done (
                  load_user-IsCreatedAt key j r (v.user_by_id r.user_id) c _ (
                    replace-IsCreatedAt t.refresh_at key j stored session_idle c s h
                      (λ e r' l'. ground (arith, new e))))
              | inr gone ↦ rw gone h
            ])
      ]

  unfoldable pub use_session : Use → EphemeralStore → EphemeralStore
  use_session (loads t token) s = after s (load v t token s)
  use_session (marks t token) s = after s (mark_step_up_verified v t token s)
  use_session (destroys token) s = destroy v token s

  unfoldable pub use_sessions : List Use → EphemeralStore → EphemeralStore
  use_sessions [] s = s
  use_sessions (o ∷ os) s = use_sessions os (use_session o s)

  load_stored-IsCreatedAt :
      (t : Readings) (key j : Text) (c : ℕ) (s : EphemeralStore) (o : Option Text)
      → read t.read_at key s ≡ o
      → IsCreatedAt j c s
      → IsCreatedAt j c (after s (load_stored v t key o s))
  unfolding load_stored
  load_stored-IsCreatedAt t key j c s none e h = h
  load_stored-IsCreatedAt t key j c s (some stored) e h = elim (Option-cases (v.loads stored)) [
    | inl bad ↦ rw (bad, after, load_stored) h
    | inr (r, l) ↦
        rw (l, after, load_stored)
          (load_refresh-IsCreatedAt t key j stored r c s h l
            (λ k. stored_created t.read_at key stored c s r (rw k h) e l))
  ]

  mark_stored-IsCreatedAt :
      (t : Readings) (key j : Text) (c : ℕ) (s : EphemeralStore) (o : Option Text)
      → read t.read_at key s ≡ o
      → IsCreatedAt j c s
      → IsCreatedAt j c (after s (mark_stored v t key o s))
  unfolding mark_stored
  mark_stored-IsCreatedAt t key j c s none e h = h
  mark_stored-IsCreatedAt t key j c s (some stored) e h = elim (Option-cases (v.loads stored)) [
    | inl bad ↦ rw (bad, after, mark_stored) h
    | inr (r, l) ↦
        rw (l, after, mark_stored)
          (replace-IsCreatedAt t.refresh_at key j
            (v.dumps (record r { mfa_verified_at = some t.utc })) session_idle c s h
            (λ k r' l'. ground (
              arith,
              v.loads-dumps (record r { mfa_verified_at = some t.utc }),
              stored_created t.read_at key stored c s r (rw k h) e l,
            )))
  ]

  use_session-IsCreatedAt :
      (o : Use) (j : Text) (c : ℕ) (s : EphemeralStore)
      → IsCreatedAt j c s
      → IsCreatedAt j c (use_session o s)
  unfolding use_session load mark_step_up_verified destroy
  use_session-IsCreatedAt (loads t token) j c s h = elim (Bool-cases (is_empty token)) [
    | inl e ↦ rw e h
    | inr e ↦ rw e (load_stored-IsCreatedAt t (session_key v token) j c s _ refl h)
  ]
  use_session-IsCreatedAt (marks t token) j c s h = elim (Bool-cases (is_empty token)) [
    | inl e ↦ rw e h
    | inr e ↦ rw e (mark_stored-IsCreatedAt t (session_key v token) j c s _ refl h)
  ]
  use_session-IsCreatedAt (destroys token) j c s h = elim (Bool-cases (is_empty token)) [
    | inl e ↦ rw e h
    | inr e ↦ rw e (discard-IsCreatedAt (session_key v token) j c s h)
  ]

  pub use_sessions-IsCreatedAt :
      (os : List Use) (j : Text) (c : ℕ) (s : EphemeralStore)
      → IsCreatedAt j c s
      → IsCreatedAt j c (use_sessions os s)
  unfolding use_sessions
  use_sessions-IsCreatedAt [] j c s h = h
  use_sessions-IsCreatedAt (o ∷ os) j c s h =
      use_sessions-IsCreatedAt os j c (use_session o s) (use_session-IsCreatedAt o j c s h)
