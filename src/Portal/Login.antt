-- ===== src/Portal/Login.antt =====
-- packages/portal/portal/application/login.py: logging in by password, by a second factor and by a
-- passkey, over the tables of accounts and the expiring store that holds sessions, tokens and
-- throttle counters. `none` is an exception of a call: a counter or a payload that does not parse.
-- Times are in milliseconds; each statement has a reading of the clock of its own.
pub mod Attempt
pub mod Second
pub mod Passkey
use docs_pe.Common.{
  ℕ, Bool, true, false, ◌&&◌, ◌≡◌, Option, none, some, [], ◌∷◌, Text, text, if◌then◌else◌, is_some,
  ◌==◌,
}
use docs_pe.Common.Maybe.{◌>>=◌}
use docs_pe.Common.Unicode.{Unicode}
use docs_pe.Portal.Ephemeral.{Decimal}
use docs_pe.Portal.Throttle
use docs_pe.Portal.Sessions.{Services, Readings, mint, load, destroy, issue, consume, peek}
use docs_pe.Portal.Accounts.{
  Database, PortalUser, ProtectedSecret, WebAuthnCredential, has_second_factor,
}
use docs_pe.Portal.Accounts.Auth
use docs_pe.Portal.Provisioning.{
  login_succeeded, login_failed, session_destroyed, step_up_verified, step_up_failed, Site,
}

abbrev pub login_csrf : Text
login_csrf = text "login_csrf"

abbrev pub login_csrf_ttl : ℕ
login_csrf_ttl = 600000

abbrev pub pending_mfa : Text
pending_mfa = text "pending_mfa"

abbrev pub pending_mfa_ttl : ℕ
pending_mfa_ttl = 300000

abbrev pub passkey_login : Text
passkey_login = text "passkey_login"

abbrev pub passkey_login_ttl : ℕ
passkey_login_ttl = 300000

pub data LoginRejection : Type 0 where
  human_check : LoginRejection
  csrf : LoginRejection
  throttled : LoginRejection
  credentials : LoginRejection
  mfa_expired : LoginRejection
  mfa_code : LoginRejection
  passkey_invalid : LoginRejection

pub data LoginOutcome : Type 0 where
  session_issued : Text → Bool → LoginOutcome
  mfa_challenge_issued : Text → LoginOutcome
  login_rejected : LoginRejection → LoginOutcome

pub record LoginAttempt : Type 0 where
  pub email : Text
  pub password : Text
  pub csrf_token : Text
  pub source : Text

pub record MfaAttempt : Type 0 where
  pub pending_token : Text
  pub code : Text
  pub source : Text

pub record PasskeyLoginAttempt : Type 0 where
  pub login_token : Text
  pub response_json : Text

-- The clock, as the statements of one call read it.
pub record Clock : Type 0 where
  pub taken_at : ℕ
  pub account_at : ℕ
  pub source_at : ℕ
  pub spent_at : ℕ
  pub failed_account_at : ℕ
  pub failed_source_at : ℕ
  pub issued_at : ℕ
  pub minted : Readings

-- The tokens that one call draws.
pub record Draws : Type 0 where
  pub cookie_token : Text
  pub csrf_token : Text
  pub pending_token : Text

-- packages/portal/portal/security.py, the envelope of the secrets, UUIDs as texts, and json over the
-- payload of a passkey challenge (the account's id, if it names one, and the challenge).
pub record Verifiers : Type 0 where
  pub verify_password : Text → Text → Bool
  pub reveal : ProtectedSecret → Text
  pub totp_matches : Text → Text → Bool
  pub uuid_text : ℕ → Text
  pub uuid : Text → Option ℕ
  pub uuid-uuid_text : (i : ℕ) → uuid (uuid_text i) ≡ some i
  pub dumps_challenge : Option ℕ → Text → Text
  pub loads_challenge : Text → Option (Option ℕ × Text)
  pub response_credential_id : Text → Option Text
  pub verify_webauthn_authentication : Text → Text → Text → ℕ → Option ℕ

-- A login's result, `none` for an exception.
abbrev pub Outcome : Type 0
Outcome = Option (LoginOutcome × Site)

-- `_reject`, `_reject_mfa` and `_reject_passkey`
unfoldable pub reject : Option ℕ → LoginRejection → Site → Outcome
reject actor_id rejection s =
    some (login_rejected rejection, record s { audit = (login_failed, actor_id) ∷ s.audit })

module _ (u : Unicode) (d : Decimal) (v : Services) (w : Verifiers) (t : Clock)
    (fresh : Draws) where
  -- `issue_login_csrf`
  unfoldable pub issue_login_csrf : Text → Site → Site
  unfolding issue
  issue_login_csrf token s = record s {
    tokens = issue v t.issued_at login_csrf token [] login_csrf_ttl s.tokens;
  }

  -- `_authenticate`
  unfoldable pub authenticate : Text → Text → Database → Option PortalUser
  unfolding Auth.user_by_email
  authenticate email password db = elim (Auth.user_by_email u email db) [
    | none ↦ none
    | some (user, password_hash) ↦
        if w.verify_password password password_hash && user.is_active then some user else none
  ]

  -- `_establish`
  unfoldable pub establish : PortalUser → Bool → Site → Outcome
  unfolding mint
  establish user mfa_verified s = some (
    session_issued fresh.cookie_token user.pending_site_admin,
    record s {
      tokens =
          mint v t.minted fresh.cookie_token fresh.csrf_token (w.uuid_text user.id)
            (if mfa_verified then some t.minted.utc else none) s.tokens;
      audit = (login_succeeded, some user.id) ∷ s.audit;
    },
  )

  -- A failure is counted, and the login refused.
  unfoldable pub count_failure : Text → Text → Option ℕ → LoginRejection → Site → Outcome
  unfolding Throttle.record_failure reject
  count_failure email source actor_id rejection s = do
    tokens' ←
        Throttle.record_failure u d t.failed_account_at t.failed_source_at email source s.tokens
    reject actor_id rejection (record s { tokens = tokens' })

  -- `attempt`, from the password on.
  unfoldable pub admitted : LoginAttempt → Option PortalUser → Site → Outcome
  unfolding count_failure establish issue Throttle.clear
  admitted a none s = count_failure a.email a.source none credentials s
  admitted a (some user) s =
      let cleared : Site = record s { tokens = Throttle.clear u d a.email a.source s.tokens } in
      if has_second_factor user
      then some (
        mfa_challenge_issued fresh.pending_token,
        record cleared {
          tokens =
              issue v t.issued_at pending_mfa fresh.pending_token (w.uuid_text user.id)
                pending_mfa_ttl cleared.tokens;
        },
      )
      else establish user false cleared

  -- `attempt`, from the throttle on.
  unfoldable pub checked : LoginAttempt → Site → Outcome
  unfolding Throttle.allows authenticate admitted reject
  checked a s = do
    allowed ← Throttle.allows u d t.account_at t.source_at a.email a.source s.tokens
    if allowed then admitted a (authenticate a.email a.password s.db) s else reject none throttled s

  -- `attempt`; `passed` is the answer of the human check
  unfoldable pub attempt : Bool → LoginAttempt → Site → Outcome
  unfolding consume checked reject
  attempt passed a s =
      let (form, tokens') = consume v t.taken_at login_csrf a.csrf_token s.tokens in
      let taken : Site = record s { tokens = tokens' } in
      if passed
      then (if is_some form then checked a taken else reject none csrf taken)
      else reject none human_check s

  -- `_second_factor_accepted`
  unfoldable pub second_factor_accepted : ℕ → Text → Database → Bool × Database
  unfolding Auth.mfa_secret Auth.consume_recovery_code
  second_factor_accepted user_id code db = elim (Auth.mfa_secret user_id db) [
    | none ↦ (false, db)
    | some secret ↦
        if w.totp_matches (w.reveal secret) code
        then (true, db)
        else Auth.consume_recovery_code t.spent_at user_id (v.token_hash code) db
  ]

  -- The account that a pending token names; `none` is a payload that is no UUID.
  unfoldable pub pending_user : Text → Database → Option (Option PortalUser)
  unfolding Auth.user_by_id
  pending_user payload db = w.uuid payload >>= λ i. some (Auth.user_by_id i db)

  -- `complete_mfa`, from the code on.
  unfoldable pub second_step : MfaAttempt → Option PortalUser → Site → Outcome
  unfolding second_factor_accepted count_failure establish reject
  second_step a none s = reject none mfa_expired s
  second_step a (some user) s =
      let (accepted, db') = second_factor_accepted user.id a.code s.db in
      let tried : Site = record s { db = db' } in
      if accepted
      then establish user true tried
      else count_failure user.email a.source (some user.id) mfa_code tried

  -- `complete_mfa`
  unfoldable pub complete_mfa : MfaAttempt → Site → Outcome
  unfolding consume pending_user second_step reject
  complete_mfa a s =
      let (pending, tokens') = consume v t.taken_at pending_mfa a.pending_token s.tokens in
      let taken : Site = record s { tokens = tokens' } in
      elim pending [
        | none ↦ reject none mfa_expired taken
        | some payload ↦ pending_user payload s.db >>= λ user. second_step a user taken
      ]

  -- `verify_second_factor`
  unfoldable pub verify_second_factor : PortalUser → Text → Text → Site → Option (Bool × Site)
  unfolding Throttle.allows Throttle.record_failure Throttle.clear second_factor_accepted
  verify_second_factor user code source s = do
    allowed ← Throttle.allows u d t.account_at t.source_at user.email source s.tokens
    if allowed
        then (let (accepted, db') = second_factor_accepted user.id code s.db in
            if accepted
            then some (
              true,
              record s {
                db = db';
                tokens = Throttle.clear u d user.email source s.tokens;
                audit = (step_up_verified, some user.id) ∷ s.audit;
              },
            )
            else Throttle.record_failure u d t.failed_account_at t.failed_source_at user.email
                source s.tokens
              >>= λ tokens'. some (
                false,
                record s {
                  db = db';
                  tokens = tokens';
                  audit = (step_up_failed, some user.id) ∷ s.audit;
                },
              ))
        else some (false, s)

  -- `begin_passkey_login`: the login token, with the challenge as an argument
  unfoldable pub begin_passkey_login : Option Text → Text → Text → Site → Option (Text × Site)
  unfolding peek issue
  begin_passkey_login pending challenge token s =
      let raw : Option Text = (elim pending [
        | none ↦ none
        | some p ↦ peek v t.taken_at pending_mfa p s.tokens
      ]) in
      let issued : Option ℕ → Option (Text × Site) = λ user_id. some (
        token,
        record s {
          tokens =
              issue v t.issued_at passkey_login token (w.dumps_challenge user_id challenge)
                passkey_login_ttl s.tokens;
        },
      ) in
      elim raw [ none ↦ issued none | some text_id ↦ w.uuid text_id >>= λ i. issued (some i) ]

  abbrev pub is_owner : Option ℕ → WebAuthnCredential → Bool
  is_owner none stored = true
  is_owner (some i) stored = stored.user_id == i

  -- The credential that a response names, if the challenge lets its account in.
  unfoldable pub offered : Option ℕ → Text → Database → Option WebAuthnCredential
  unfolding Auth.webauthn_credential_by_credential_id
  offered expected response db = elim (w.response_credential_id response) [
    | none ↦ none
    | some credential_id ↦ elim (Auth.webauthn_credential_by_credential_id credential_id db) [
      | none ↦ none
      | some stored ↦ if is_owner expected stored then some stored else none
    ]
  ]

  -- `complete_passkey_login`, once the response is verified.
  unfoldable pub touched : WebAuthnCredential → ℕ → Site → Outcome
  unfolding Auth.touch_webauthn_credential Auth.user_by_id establish reject
  touched stored new_sign_count s =
      let (advanced, db') = Auth.touch_webauthn_credential stored.id new_sign_count s.db in
      let after : Site = record s { db = db' } in
      if advanced
      then elim (Auth.user_by_id stored.user_id db') [
        | none ↦ reject none passkey_invalid after
        | some user ↦
            if user.is_active then establish user true after else reject none passkey_invalid after
      ]
      else reject none passkey_invalid after

  unfoldable pub asserted : Option ℕ → Text → Text → Site → Outcome
  unfolding offered touched reject
  asserted expected challenge response s = elim (offered expected response s.db) [
    | none ↦ reject none passkey_invalid s
    | some stored ↦
        elim (w.verify_webauthn_authentication response challenge stored.public_key
          stored.sign_count) [
            | none ↦ reject none passkey_invalid s
            | some new_sign_count ↦ touched stored new_sign_count s
          ]
  ]

  -- `complete_passkey_login`
  unfoldable pub complete_passkey_login : PasskeyLoginAttempt → Site → Outcome
  unfolding consume asserted reject
  complete_passkey_login a s =
      let (pending, tokens') = consume v t.taken_at passkey_login a.login_token s.tokens in
      let taken : Site = record s { tokens = tokens' } in
      elim pending [
        | none ↦ reject none passkey_invalid taken
        | some payload ↦ w.loads_challenge payload >>= λ challenge.
            asserted challenge.0 challenge.1 a.response_json taken
      ]

  -- `logout`
  unfoldable pub logout : Text → Site → Option Site
  unfolding load destroy
  logout cookie_token s = do
    (session, tokens') ← load v t.minted cookie_token s.tokens
    let gone : Site = record s { tokens = destroy v cookie_token tokens' }
    some (elim session [
      | none ↦ gone
      | some b ↦ record gone { audit = (session_destroyed, w.uuid b.user.id) ∷ s.audit }
    ])
