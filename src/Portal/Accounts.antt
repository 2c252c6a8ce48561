-- ===== src/Portal/Accounts.antt =====
-- packages/portal/portal/domain/models.py, packages/portal/portal/domain/errors.py and the account
-- and team tables of packages/portal/portal/migrations/001_portal.sql, with the deferred triggers
-- that a transaction runs when it commits. An id (a UUID) is a number; times are in milliseconds.
pub mod Auth
pub mod Teams
pub mod Transactions
pub mod Guards
pub mod Factors
pub mod Leaders
pub mod Admins
pub mod Installed
use docs_pe.Common.{
  ℕ, ◌≡◌, refl, ◌⊎◌, inl, inr, Bool, true, false, not, ◌&&◌, ◌||◌, Option, none, some, List, [],
  ◌∷◌, Text, ltb, if◌then◌else◌, any, text_eq, is_some, ◌==◌,
}
use docs_pe.Common.Dict.{lookup}
use docs_pe.Common.Table.{count}
use docs_pe.Common.Eq.{nat_eq_key}

pub data Reason : Type 0 where
  leader_required : Reason
  site_admin_required : Reason
  step_up_required : Reason
  user_not_found : Reason
  initial_team_exists : Reason
  initial_team_mismatch : Reason
  team_missing : Reason
  team_name_length : Reason
  slug_invalid : Reason
  email_invalid : Reason
  label_length : Reason
  password_too_short : Reason
  role_invalid : Reason
  last_leader : Reason
  invite_invalid : Reason
  user_last_leader : Reason
  user_cannot_deactivate_self : Reason
  user_has_history : Reason
  last_second_factor : Reason
  setup_expired : Reason
  totp_code_invalid : Reason
  webauthn_verification_failed : Reason
  passkey_not_found : Reason
  not_a_member : Reason
  global_search_required : Reason

-- What a call raises: an error of the domain, or one of the database.
pub data Failure : Type 0 where
  permission_denied : Reason → Failure
  step_up : Reason → Failure
  not_found : Reason → Failure
  provisioning : Reason → Failure
  credential_configuration : Reason → Failure
  check_violation : Failure
  unique_violation : Failure
  foreign_key_violation : Failure

pub data Answer {ℓ} (A : Type ℓ) : Type ℓ where
  ok : A → Answer A
  err : Failure → Answer A

pub Answer-cases {ℓ} :
    {A : Type ℓ} (r : Answer A) → ((e : Failure) × (r ≡ err e)) ⊎ ((a : A) × (r ≡ ok a))
Answer-cases (ok a) = inr (a, refl)
Answer-cases (err e) = inl (e, refl)

pub data TeamRole : Type 0 where
  team_leader : TeamRole
  team_member : TeamRole

abbrev pub is_leader : TeamRole → Bool
is_leader team_leader = true
is_leader team_member = false

pub record ProtectedSecret : Type 0 where
  pub ciphertext : Text
  pub wrapped_data_key : Text
  pub master_key_version : Text

-- A row of portal_users, which its id keys.
pub record Account : Type 0 where
  pub email : Text
  pub password_hash : Text
  pub is_site_admin : Bool
  pub pending_site_admin : Bool
  pub deactivated_at : Option ℕ
  pub deactivated_by : Option ℕ
  pub is_active : Bool
  pub mfa_secret : Option ProtectedSecret
  pub mfa_enabled : Bool

pub record WebAuthnCredential : Type 0 where
  pub id : ℕ
  pub user_id : ℕ
  pub credential_id : Text
  pub public_key : Text
  pub sign_count : ℕ
  pub label : Text

pub record RecoveryCode : Type 0 where
  pub user_id : ℕ
  pub code_hash : Text
  pub used_at : Option ℕ

pub record Team : Type 0 where
  pub slug : Text
  pub name : Text
  pub has_global_search : Bool
  pub created_by : ℕ

pub record TeamInvite : Type 0 where
  pub id : ℕ
  pub team_id : ℕ
  pub email : Text
  pub role : TeamRole
  pub token_hash : Text
  pub invited_by : ℕ
  pub created_at : ℕ
  pub expires_at : ℕ
  pub accepted_at : Option ℕ

-- The row of portal_installation_state.
pub record Installation : Type 0 where
  pub initial_team_id : Option ℕ
  pub completed_by : Option ℕ

-- The tables. `referenced` lists the accounts that a RESTRICT column of another table names.
pub record Database : Type 0 where
  pub users : List (ℕ × Account)
  pub passkeys : List WebAuthnCredential
  pub recovery_codes : List RecoveryCode
  pub teams : List (ℕ × Team)
  pub memberships : List ((ℕ × ℕ) × TeamRole)
  pub invites : List TeamInvite
  pub installation : Option Installation
  pub referenced : List ℕ

pub record PortalUser : Type 0 where
  pub id : ℕ
  pub email : Text
  pub is_site_admin : Bool
  pub mfa_enabled : Bool
  pub has_passkey : Bool
  pub is_active : Bool
  pub pending_site_admin : Bool

-- `PortalUser.has_second_factor`
abbrev pub has_second_factor : PortalUser → Bool
has_second_factor user = user.mfa_enabled || user.has_passkey

-- `TeamInvite.is_pending`
abbrev pub is_pending : TeamInvite → Bool
is_pending invite = not (is_some invite.accepted_at)

-- `has_passkey_sql`
abbrev pub has_passkey : ℕ → List WebAuthnCredential → Bool
has_passkey user_id credentials = any (λ c. c.user_id == user_id) credentials

-- `user_row`
unfoldable pub user_row : List WebAuthnCredential → ℕ → Account → PortalUser
user_row credentials user_id a = record {
  id = user_id;
  email = a.email;
  is_site_admin = a.is_site_admin;
  mfa_enabled = a.mfa_enabled;
  has_passkey = has_passkey user_id credentials;
  is_active = a.is_active;
  pending_site_admin = a.pending_site_admin;
}

-- The first account that passes a test, with its id.
unfoldable pub find_account : (Account → Bool) → List (ℕ × Account) → Option (ℕ × Account)
find_account p [] = none
find_account p ((i, a) ∷ us) = let rest = find_account p us in if p a then some (i, a) else rest

abbrev pub has_email : Text → Account → Bool
has_email email a = text_eq a.email email

-- What an account with an id must satisfy under `portal_require_admin_second_factor`.
unfoldable pub has_required_factor : ℕ → Option Account → List WebAuthnCredential → Bool
has_required_factor user_id none credentials = true
has_required_factor user_id (some a) credentials =
    not a.is_site_admin || (a.mfa_enabled || has_passkey user_id credentials)

-- `portal_require_admin_second_factor` for one account
unfoldable pub require_admin_second_factor : ℕ → Database → Bool
unfolding has_required_factor
require_admin_second_factor user_id db =
    has_required_factor user_id (lookup user_id db.users) db.passkeys

abbrev pub leads : ℕ → (ℕ × ℕ) × TeamRole → Bool
leads team_id ((t, u), role) = t == team_id && is_leader role

-- SELECT count(*) … WHERE team_id = … AND role = 'team_leader'
unfoldable pub leaders : ℕ → List ((ℕ × ℕ) × TeamRole) → ℕ
leaders team_id rows = count (leads team_id) rows

-- `portal_require_team_leader` for one team
unfoldable pub require_team_leader : ℕ → Database → Bool
unfolding leaders
require_team_leader team_id db = elim (lookup team_id db.teams) [
  | none ↦ true
  | some team ↦ ltb 0 (leaders team_id db.memberships)
]

abbrev pub is_active_admin : Account → Bool
is_active_admin a = a.is_site_admin && a.is_active

-- `portal_require_site_admin`
unfoldable pub require_site_admin : Database → Bool
require_site_admin db = any (λ e. is_active_admin e.1) db.users

-- What a call gives over a state: the answer, and the state after it.
abbrev pub Act : Type 0 → Type 0 → Type 0
Act S A = S → Answer A × S

-- A transaction over the tables.
abbrev pub M : Type 0 → Type 0
M A = Act Database A

-- A transaction that a check stops at its commit leaves the tables as they were.
abbrev pub commit : {A : Type 0} → Bool → A → Database → M A
commit holds answer after before =
    if holds then (ok answer, after) else (err check_violation, before)

-- A call after another: an error ends the chain, and what was done before it stays.
infixl 5 ◌>>=◌ ◌>>◌
abbrev pub ◌>>=◌ : {S A B : Type 0} → Act S A → (A → Act S B) → Act S B
◌>>=◌ m f s = let (answer, s') = m s in elim answer [ ok a ↦ f a s' | err e ↦ (err e, s') ]

abbrev pub ◌>>◌ : {S B : Type 0} → Act S (Unit {0}) → Act S B → Act S B
m >> k = m >>= λ _. k

abbrev pub return : {S A : Type 0} → A → Act S A
return a s = (ok a, s)

abbrev pub raise : {S A : Type 0} → Failure → Act S A
raise e s = (err e, s)

abbrev pub require : {S : Type 0} → Bool → Failure → Act S (Unit {0})
require true e = return tt
require false e = raise e

abbrev pub required : {S A : Type 0} → Option A → Failure → Act S A
required none e = raise e
required (some a) e = return a
