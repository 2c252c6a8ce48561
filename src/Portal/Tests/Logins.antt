-- ===== src/Portal/Tests/Logins.antt =====
-- packages/portal: the theorems on logins at concrete inputs.
use docs_pe.Common.{
  ℕ, ◌+◌, ◌≡◌, ◌≤◌, refl, Bool, true, false, Option, none, some, [], ◌∷◌, Text, text, text_eq,
}
use docs_pe.Common.Dict.{lookup, remove}
use docs_pe.Common.Eq.{nat_eq_key, text_eq_key}
use docs_pe.Common.Unicode.{strip}
use docs_pe.Portal.Ephemeral.{EphemeralStore, take, read}
use docs_pe.Portal.Throttle.{normalize_email, is_spent}
use docs_pe.Portal.Sessions.{consume, token_key}
use docs_pe.Portal.Accounts.{WebAuthnCredential}
use docs_pe.Portal.Provisioning.{Site}
use docs_pe.Portal.Login.{
  Verifiers, Clock, Draws, LoginAttempt, MfaAttempt, PasskeyLoginAttempt, Outcome, session_issued,
  mfa_challenge_issued, login_csrf, pending_mfa, passkey_login, attempt, complete_mfa,
  complete_passkey_login,
}
use docs_pe.Portal.Login.Attempt.{Grants, attempt-Grants}
use docs_pe.Portal.Login.Second.{IsCompleted, complete_mfa_once}
use docs_pe.Portal.Login.Passkey.{IsAsserted, complete_passkey_login-IsAsserted}
use docs_pe.Portal.Tests.{ascii, signs, services}
use docs_pe.Portal.Tests.People.{office}

abbrev read_uuid : Text → Option ℕ
read_uuid [] = none
read_uuid (c ∷ cs) = some c

abbrev write_challenge : Option ℕ → Text → Text
write_challenge none challenge = 0 ∷ challenge
write_challenge (some i) challenge = (i + 1) ∷ challenge

abbrev read_challenge : Text → Option (Option ℕ × Text)
read_challenge [] = none
read_challenge (c ∷ cs) = some (none, cs)

abbrev verifiers : Verifiers
verifiers = record {
  verify_password = text_eq;
  reveal = λ s. s.ciphertext;
  totp_matches = text_eq;
  uuid_text = λ i. i ∷ [];
  uuid = read_uuid;
  uuid-uuid_text = λ i. refl;
  dumps_challenge = write_challenge;
  loads_challenge = read_challenge;
  response_credential_id = λ r. some r;
  verify_webauthn_authentication = λ r c k n. some (n + 1);
}

abbrev noon : Clock
noon = record {
  taken_at = 10;
  account_at = 10;
  source_at = 10;
  spent_at = 10;
  failed_account_at = 10;
  failed_source_at = 10;
  issued_at = 10;
  minted = record { read_at = 10; utc = 10; refresh_at = 10 };
}

abbrev drawn : Draws
drawn = record { cookie_token = text "k"; csrf_token = text "c"; pending_token = text "p" }

abbrev tokens : EphemeralStore
tokens =
    (token_key services login_csrf (text "f"), record { value = []; expires_at = 100 })
    ∷ (token_key services pending_mfa (text "p"), record { value = 1 ∷ []; expires_at = 100 })
    ∷ (
      token_key services passkey_login (text "l"),
      record { value = 0 ∷ text "ch"; expires_at = 100 },
    )
    ∷ []

abbrev key : WebAuthnCredential
key = record {
  id = 70;
  user_id = 2;
  credential_id = text "r";
  public_key = [];
  sign_count = 4;
  label = text "llave";
}

abbrev door : Site
door = record {
  db = record office { passkeys = key ∷ [] };
  tokens = tokens;
  audit = [];
  mails = [];
}

-- The state after a login, if it raises nothing.
abbrev after_login : Site → Outcome → Site
after_login s none = s
after_login s (some (r, s')) = s'

abbrev by_password : LoginAttempt
by_password = record {
  email = text "a@a.pe";
  password = text "hash";
  csrf_token = text "f";
  source = text "ip";
}

abbrev challenged : Site
challenged =
    after_login door (attempt ascii signs services verifiers noon drawn true by_password door)

challenging :
    attempt ascii signs services verifiers noon drawn true by_password door
    ≡ some (mfa_challenge_issued (text "p"), challenged)
unfolding attempt lookup text_eq strip take is_spent read remove normalize_email
challenging = refl

attempt-Grants_example :
    Grants ascii signs services verifiers noon drawn true by_password door
      (mfa_challenge_issued (text "p"))
attempt-Grants_example =
    attempt-Grants ascii signs services verifiers noon drawn true by_password door challenged
      (mfa_challenge_issued (text "p")) challenging

abbrev by_code : MfaAttempt
by_code = record { pending_token = text "p"; code = []; source = text "ip" }

abbrev entered : Site
entered = after_login door (complete_mfa ascii signs services verifiers noon drawn by_code door)

entering :
    complete_mfa ascii signs services verifiers noon drawn by_code door
    ≡ some (session_issued (text "k") false, entered)
unfolding complete_mfa lookup text_eq strip take
entering = refl

complete_mfa_once_example :
    ((cookie : Text) (setup : Bool)
      → session_issued (text "k") false ≡ session_issued cookie setup
      → IsCompleted ascii signs services verifiers noon drawn by_code door)
    × ((later : ℕ)
        → 10 ≤ later
        → (consume services later pending_mfa (text "p") entered.tokens).0 ≡ none)
complete_mfa_once_example =
    complete_mfa_once ascii signs services verifiers noon drawn by_code door entered
      (session_issued (text "k") false) entering

abbrev by_key : PasskeyLoginAttempt
by_key = record { login_token = text "l"; response_json = text "r" }

abbrev let_in : Site
let_in =
    after_login door (complete_passkey_login ascii signs services verifiers noon drawn by_key door)

letting_in :
    complete_passkey_login ascii signs services verifiers noon drawn by_key door
    ≡ some (session_issued (text "k") false, let_in)
unfolding complete_passkey_login lookup text_eq take
letting_in = refl

complete_passkey_login-IsAsserted_example :
    IsAsserted ascii signs services verifiers noon drawn by_key door
complete_passkey_login-IsAsserted_example =
    complete_passkey_login-IsAsserted ascii signs services verifiers noon drawn by_key door let_in
      (text "k") false letting_in
