-- ===== src/Portal/Sessions/Lifetime.antt =====
-- packages/portal/portal/application/sessions.py: no use of a session outlives its creation by more
-- than the limit, and a destroyed session is not written back.
use docs_pe.Common.Eq.{text_eq_key}
use docs_pe.Common.{
  ℕ, ◌+◌, ◌≡◌, ◌<◌, refl, false, Option, none, some, Text, List, arith, text_eq_refl, is_empty, inl,
  inr, Option-cases, Bool-cases,
}
use docs_pe.Common.Dict.{remove, lookup-remove}
use docs_pe.Portal.Ephemeral.{EphemeralStore, replace, read, discard, live_entry}
use docs_pe.Portal.Sessions.Created.{
  IsCreatedAt, Use, use_sessions, use_sessions-IsCreatedAt, stored_created,
}
use docs_pe.Portal.Sessions.{
  Services, SessionRecord, BrowserSession, Readings, load, load_refresh, load_stored, destroy,
  session_key, session_lifetime,
}

module _ (v : Services) where
  -- The session that a load yields.
  abbrev pub loaded : Option (Option BrowserSession × EphemeralStore) → Option BrowserSession
  loaded none = none
  loaded (some (o, s)) = o

  load_late :
      (t : Readings) (key : Text) (c : ℕ) (s : EphemeralStore) (o : Option Text)
      → read t.read_at key s ≡ o
      → IsCreatedAt v key c s
      → c + session_lifetime < t.utc
      → loaded (load_stored v t key o s) ≡ none
  unfolding load_stored load_refresh
  load_late t key c s none e h late = refl
  load_late t key c s (some stored) e h late = elim (Option-cases (v.loads stored)) [
    | inl bad ↦ rw (bad, loaded, load_stored) refl
    | inr (r, l) ↦
        let created = stored_created v t.read_at key stored c s r h e l in ground (arith, l)
  ]

  -- A session created at `c` is refused once its age has passed the limit, however often requests
  -- have refreshed it or renewed its second factor since.
  pub lifetime_limit :
      (os : List Use) (t : Readings) (token : Text) (c : ℕ) (s : EphemeralStore)
      → IsCreatedAt v (session_key v token) c s
      → c + session_lifetime < t.utc
      → loaded (load v t token (use_sessions v os s)) ≡ none
  unfolding load
  lifetime_limit os t token c s h late =
      let kept = use_sessions-IsCreatedAt v os (session_key v token) c s h in
      elim (Bool-cases (is_empty token)) [
        | inl e ↦ rw e refl
        | inr e ↦ rw e (load_late t (session_key v token) c (use_sessions v os s) _ refl kept late)
      ]

  -- The rest of a load whose session another request destroys after its read, at whatever time:
  -- it yields no session and leaves the key free.
  pub destroyed_in_between :
      (t : Readings) (token stored : Text) (r : SessionRecord) (s : EphemeralStore)
      → is_empty token ≡ false
      → let key = session_key v token in
        ((load_refresh v t key stored r (destroy v token s)).0 ≡ none)
        × ((later : ℕ)
            → read later key (load_refresh v t key stored r (destroy v token s)).1 ≡ none)
  unfolding load_refresh destroy replace discard read live_entry
  destroyed_in_between t token stored r s full =
      let key = session_key v token in
      (
        ground (arith, lookup-remove key key s, text_eq_refl key),
        λ later. ground (
          arith,
          lookup-remove key key s,
          lookup-remove key key (remove key s),
          text_eq_refl key,
        ),
      )
