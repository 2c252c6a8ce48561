-- ===== src/Portal/Provisioning/Enrolment.antt =====
-- packages/portal/portal/application/provisioning.py: TOTP and passkeys of the account that is
-- logged in. The times of the calls, and what they draw at random, are arguments.
use docs_pe.Common.{
  ℕ, Option, none, some, List, ◌++◌, Text, text, map, if◌then◌else◌, is_empty, ◌==◌,
}
use docs_pe.Common.Unicode.{Unicode, strip}
use docs_pe.Portal.Ephemeral.{put_new, read, take}
use docs_pe.Portal.Accounts.{
  setup_expired, totp_code_invalid, webauthn_verification_failed, provisioning, ok, PortalUser,
  has_second_factor, WebAuthnCredential, ◌>>=◌, ◌>>◌, return, raise, require, required,
}
use docs_pe.Portal.Accounts.Auth
use docs_pe.Portal.Provisioning.{
  mfa_enrolled, mfa_removed, passkey_registered, passkey_removed, Security, S, transact,
  record_event, reload, clean_label,
}

abbrev pub totp_setup : Text
totp_setup = text "totp_setup"

abbrev pub totp_setup_ttl : ℕ
totp_setup_ttl = 600000

abbrev pub passkey_setup : Text
passkey_setup = text "passkey_setup"

abbrev pub passkey_setup_ttl : ℕ
passkey_setup_ttl = 300000

module _ (v : Security) where
  -- The key of a one-time token, `_token_key` of application/sessions.py.
  abbrev pub setup_key : Text → Text → Text
  setup_key purpose token = purpose ++ (text ":" ++ v.token_hash token)

  -- `OneTimeTokens.issue`, `consume` and `peek`
  unfoldable pub issue_setup : ℕ → Text → Text → Text → ℕ → S (Unit {0})
  unfolding put_new
  issue_setup now purpose token payload ttl s =
      (ok tt, record s { tokens = (put_new now (setup_key purpose token) payload ttl s.tokens).1 })

  unfoldable pub consume_setup : ℕ → Text → Text → S (Option Text)
  unfolding take
  consume_setup now purpose token s =
      if is_empty token
      then (ok none, s)
      else let (payload, tokens') = take now (setup_key purpose token) s.tokens in
        (ok payload, record s { tokens = tokens' })

  unfoldable pub peek_setup : ℕ → Text → Text → S (Option Text)
  unfolding read
  peek_setup now purpose token s =
      (ok (if is_empty token then none else read now (setup_key purpose token) s.tokens), s)

  -- `_parse_setup`: the secret or the challenge
  unfoldable pub parse_setup : ℕ → Option Text → S Text
  parse_setup user_id none = raise (provisioning setup_expired)
  parse_setup user_id (some payload) = elim (v.loads payload) [
    | none ↦ raise (provisioning setup_expired)
    | some (owner, secret) ↦
        require (owner == user_id) (provisioning setup_expired) >> return secret
  ]

  -- `begin_totp_setup`
  unfoldable pub begin_totp_setup : ℕ → ℕ → Text → Text → S Text
  unfolding reload issue_setup
  begin_totp_setup now actor_id secret token = do
    user ← reload actor_id
    issue_setup now totp_setup token (v.dumps user.id secret) totp_setup_ttl
    return token

  -- The recovery codes that an enrolment gives: new ones at the first factor.
  abbrev pub first_codes : PortalUser → List Text → Option (List Text)
  first_codes user codes = if has_second_factor user then none else some codes

  abbrev pub hashed : Option (List Text) → Option (List Text)
  hashed none = none
  hashed (some codes) = some (map v.token_hash codes)

  -- `_commit_totp`
  unfoldable pub commit_totp : PortalUser → Text → List Text → S (Option (List Text))
  unfolding Auth.enable_totp record_event
  commit_totp user secret codes = do
    transact (
        Auth.enable_totp user.id (v.protect secret) (hashed (first_codes user codes))
          user.pending_site_admin)
    record_event mfa_enrolled user.id
    return (first_codes user codes)

  -- `confirm_totp_setup`: a wrong code leaves the token
  unfoldable pub confirm_totp_setup : ℕ → ℕ → Text → Text → List Text → S (Option (List Text))
  unfolding reload peek_setup consume_setup parse_setup commit_totp
  confirm_totp_setup now actor_id token code codes = do
    user ← reload actor_id
    payload ← peek_setup now totp_setup token
    secret ← parse_setup user.id payload
    require (v.totp_matches secret code) (provisioning totp_code_invalid)
    _ ← consume_setup now totp_setup token
    commit_totp user secret codes

  -- `begin_passkey_registration`, with the challenge as an argument
  unfoldable pub begin_passkey_registration : ℕ → ℕ → Text → Text → S Text
  unfolding reload issue_setup
  begin_passkey_registration now actor_id challenge token = do
    user ← reload actor_id
    issue_setup now passkey_setup token (v.dumps user.id challenge) passkey_setup_ttl
    return token

  abbrev pub default_label : Text
  default_label = text "Clave de acceso"

  -- `confirm_passkey_registration`: the token is spent whatever the response is
  unfoldable pub confirm_passkey_registration :
      Unicode → ℕ → ℕ → ℕ → Text → Text → Text → List Text → S (Option (List Text))
  unfolding reload consume_setup parse_setup clean_label Auth.add_webauthn_credential record_event
  confirm_passkey_registration u now new_id actor_id token response label codes = do
    user ← reload actor_id
    payload ← consume_setup now passkey_setup token
    challenge ← parse_setup user.id payload
    verified ←
        required (v.verify_webauthn_registration challenge response)
          (provisioning webauthn_verification_failed)
    name ← if is_empty (strip u label) then return default_label else clean_label u label
    let credential : WebAuthnCredential = record {
      id = new_id;
      user_id = user.id;
      credential_id = verified.0;
      public_key = verified.1;
      sign_count = verified.2;
      label = name;
    }
    transact (
        Auth.add_webauthn_credential credential (hashed (first_codes user codes))
          user.pending_site_admin)
    record_event passkey_registered user.id
    return (first_codes user codes)

-- `disable_totp`
unfoldable pub disable_totp : ℕ → S (Unit {0})
unfolding Auth.disable_totp record_event
disable_totp actor_id = do transact (Auth.disable_totp actor_id); record_event mfa_removed actor_id

-- `remove_passkey`
unfoldable pub remove_passkey : ℕ → ℕ → S (Unit {0})
unfolding Auth.remove_webauthn_credential record_event
remove_passkey actor_id credential_id = do
  transact (Auth.remove_webauthn_credential actor_id credential_id)
  record_event passkey_removed actor_id
