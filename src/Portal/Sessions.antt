-- ===== src/Portal/Sessions.antt =====
-- packages/portal/portal/application/sessions.py, with `valid_csrf` of
-- packages/portal/portal/security.py: browser sessions and one-time tokens over the expiring store.
-- Times are in milliseconds. Hashing, JSON and the table of users are parameters.
pub mod Created
pub mod Lifetime
pub mod Tokens
use docs_pe.Common.{
  ℕ, ◌-◌, ◌≡◌, Bool, false, not, Option, none, some, ◌++◌, Text, text, ltb, if◌then◌else◌, is_empty,
  text_eq, ◌&&◌,
}
use docs_pe.Portal.Ephemeral.{EphemeralStore, put_new, replace, read, take, discard}

abbrev pub session_idle : ℕ
session_idle = 43200000

abbrev pub session_lifetime : ℕ
session_lifetime = 604800000

pub record SessionRecord : Type 0 where
  pub user_id : Text
  pub csrf_token : Text
  pub created_at : ℕ
  pub mfa_verified_at : Option ℕ

pub record PortalUser : Type 0 where
  pub id : Text
  pub is_active : Bool

pub record BrowserSession : Type 0 where
  pub user : PortalUser
  pub csrf_token : Text
  pub mfa_verified_at : Option ℕ

-- hashlib.sha256, json.dumps and json.loads, and `user_by_id`.
pub record Services : Type 0 where
  pub token_hash : Text → Text
  pub dumps : SessionRecord → Text
  pub loads : Text → Option SessionRecord
  pub loads-dumps : (r : SessionRecord) → loads (dumps r) ≡ some r
  pub user_by_id : Text → Option PortalUser

-- The readings of the clocks that one `load` makes: of the database for the read and for the
-- refresh, and `datetime.now(UTC)` between.
pub record Readings : Type 0 where
  pub read_at : ℕ
  pub utc : ℕ
  pub refresh_at : ℕ

abbrev pub session_key : Services → Text → Text
session_key v token = text "session:" ++ v.token_hash token

module _ (v : Services) where
  -- `mint`, with the new tokens as arguments
  unfoldable pub mint : Readings → Text → Text → Text → Option ℕ → EphemeralStore → EphemeralStore
  mint t token csrf_token user_id mfa_verified_at s =
      (put_new t.refresh_at (session_key v token)
        (v.dumps (record {
          user_id = user_id;
          csrf_token = csrf_token;
          created_at = t.utc;
          mfa_verified_at = mfa_verified_at;
        }))
        session_idle s).1

  -- The end of `load`: the user behind the session, as the database has it now.
  unfoldable pub load_user :
      Text
      → SessionRecord
      → Option PortalUser
      → EphemeralStore
      → Option BrowserSession × EphemeralStore
  load_user key r none s = (none, discard key s)
  load_user key r (some user) s =
      if user.is_active
      then (
        some (record {
          user = user;
          csrf_token = r.csrf_token;
          mfa_verified_at = r.mfa_verified_at;
        }),
        s,
      )
      else (none, discard key s)

  -- `load` after its read; other requests may have run since.
  unfoldable pub load_refresh :
      Readings
      → Text
      → Text
      → SessionRecord
      → EphemeralStore
      → Option BrowserSession × EphemeralStore
  unfolding load_user
  load_refresh t key stored r s =
      if ltb session_lifetime (t.utc - r.created_at)
      then (none, discard key s)
      else let (refreshed, s') = replace t.refresh_at key stored session_idle s in
        if refreshed then load_user key r (v.user_by_id r.user_id) s' else (none, s)

  -- `none` is the exception that a value which is no session record raises.
  unfoldable pub load_stored :
      Readings
      → Text
      → Option Text
      → EphemeralStore
      → Option (Option BrowserSession × EphemeralStore)
  unfolding load_refresh
  load_stored t key none s = some (none, s)
  load_stored t key (some stored) s = elim (v.loads stored) [
    | none ↦ none
    | some r ↦ some (load_refresh t key stored r s)
  ]

  -- `load`; the empty token is also what no cookie gives
  unfoldable pub load :
      Readings → Text → EphemeralStore → Option (Option BrowserSession × EphemeralStore)
  unfolding load_stored
  load t token s =
      if is_empty token
      then some (none, s)
      else load_stored t (session_key v token) (read t.read_at (session_key v token) s) s

  -- `destroy`
  unfoldable pub destroy : Text → EphemeralStore → EphemeralStore
  destroy token s = if is_empty token then s else discard (session_key v token) s

  unfoldable pub mark_stored :
      Readings → Text → Option Text → EphemeralStore → Option (Bool × EphemeralStore)
  mark_stored t key none s = some (false, s)
  mark_stored t key (some stored) s = elim (v.loads stored) [
    | none ↦ none
    | some r ↦ some (
        replace t.refresh_at key (v.dumps (record r { mfa_verified_at = some t.utc })) session_idle
          s)
  ]

  -- `mark_step_up_verified`
  unfoldable pub mark_step_up_verified :
      Readings → Text → EphemeralStore → Option (Bool × EphemeralStore)
  unfolding mark_stored
  mark_step_up_verified t token s =
      if is_empty token
      then some (false, s)
      else mark_stored t (session_key v token) (read t.read_at (session_key v token) s) s

  abbrev pub token_key : Text → Text → Text
  token_key purpose token = purpose ++ (text ":" ++ v.token_hash token)

  -- `OneTimeTokens.issue`
  unfoldable pub issue : ℕ → Text → Text → Text → ℕ → EphemeralStore → EphemeralStore
  issue now purpose token payload ttl s = (put_new now (token_key purpose token) payload ttl s).1

  -- `OneTimeTokens.consume`
  unfoldable pub consume : ℕ → Text → Text → EphemeralStore → Option Text × EphemeralStore
  consume now purpose token s =
      if is_empty token then (none, s) else take now (token_key purpose token) s

  -- `OneTimeTokens.peek`
  unfoldable pub peek : ℕ → Text → Text → EphemeralStore → Option Text
  peek now purpose token s = if is_empty token then none else read now (token_key purpose token) s

-- `valid_csrf`
unfoldable pub valid_csrf : Option Text → Text → Bool
valid_csrf none expected = false
valid_csrf (some submitted) expected = not (is_empty submitted) && text_eq submitted expected

pub data Verdict : Type 0 where
  csrf_invalid : Verdict
  valid : BrowserSession → Verdict

-- The end of `verify_csrf`.
abbrev pub csrf_verdict : Option Text → Option BrowserSession → Verdict
csrf_verdict submitted none = csrf_invalid
csrf_verdict submitted (some session) =
    if valid_csrf submitted session.csrf_token then valid session else csrf_invalid

-- `verify_csrf`; `none` is an exception of `load`
unfoldable pub verify_csrf :
    Services → Readings → Text → Option Text → EphemeralStore → Option (Verdict × EphemeralStore)
verify_csrf v t token submitted s = elim (load v t token s) [
  | none ↦ none
  | some (session, s') ↦ some (csrf_verdict submitted session, s')
]
