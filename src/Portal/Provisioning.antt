-- ===== src/Portal/Provisioning.antt =====
-- packages/portal/portal/application/provisioning.py and
-- packages/portal/portal/application/access.py: who may run an operation, and the checks of its
-- arguments. Times are in milliseconds; the clock and what the calls draw at random are arguments.
pub mod Slugs
pub mod Users
pub mod Reads
pub mod Enrolment
pub mod Members
pub mod Guarded
pub mod Invites
pub mod Removal
use docs_pe.Common.{
  ℕ, ◌+◌, Bool, false, not, ◌&&◌, ◌||◌, Option, none, some, List, [], ◌∷◌, Text, leb, if◌then◌else◌,
  any, length, is_empty, ◌==◌, ◌≡◌,
}
use docs_pe.Common.Unicode.{Unicode, strip}
use docs_pe.Portal.Ephemeral.{EphemeralStore}
use docs_pe.Portal.Accounts.{
  leader_required, site_admin_required, step_up_required, team_name_length, email_invalid,
  label_length, password_too_short, user_not_found, permission_denied, step_up, not_found,
  provisioning, credential_configuration, ok, ProtectedSecret, Database, PortalUser, Act, M, ◌>>=◌,
  ◌>>◌, return, require, required,
}
use docs_pe.Portal.Accounts.Auth.{user_by_id, user_by_email}
use docs_pe.Portal.Accounts.Teams.{role_for, is_team_leader}

pub data AuditAction : Type 0 where
  team_created : AuditAction
  user_created : AuditAction
  user_deactivated : AuditAction
  user_reactivated : AuditAction
  user_deleted : AuditAction
  user_promoted : AuditAction
  user_demoted : AuditAction
  user_password_reset : AuditAction
  mfa_enrolled : AuditAction
  mfa_removed : AuditAction
  passkey_registered : AuditAction
  passkey_removed : AuditAction
  member_added : AuditAction
  member_removed : AuditAction
  invite_sent : AuditAction
  invite_accepted : AuditAction
  login_succeeded : AuditAction
  login_failed : AuditAction
  session_destroyed : AuditAction
  step_up_verified : AuditAction
  step_up_failed : AuditAction

-- What the service writes to: the tables, the one-time tokens, the audit log (the newest event
-- first, an event being its action and its actor, if it has one) and the mails (to, token).
pub record Site : Type 0 where
  pub db : Database
  pub tokens : EphemeralStore
  pub audit : List (AuditAction × Option ℕ)
  pub mails : List (Text × Text)

-- What the service calls: packages/portal/portal/security.py, the envelope of the secrets, and
-- json over the payload of a setup token (an account's id and a secret or a challenge).
pub record Security : Type 0 where
  pub hash_password : Text → Text
  pub token_hash : Text → Text
  pub totp_matches : Text → Text → Bool
  pub protect : Text → ProtectedSecret
  pub verify_webauthn_registration : Text → Text → Option (Text × Text × ℕ)
  pub dumps : ℕ → Text → Text
  pub loads : Text → Option (ℕ × Text)
  pub loads-dumps : (i : ℕ) (s : Text) → loads (dumps i s) ≡ some (i, s)

abbrev pub S : Type 0 → Type 0
S A = Act Site A

-- A transaction of a repository.
abbrev pub transact : {A : Type 0} → M A → S A
transact m s = let (answer, db') = m s.db in (answer, record s { db = db' })

-- A write that has no answer.
abbrev pub execute : (Database → Database) → S (Unit {0})
execute f s = (ok tt, record s { db = f s.db })

-- A read.
abbrev pub asks : {A : Type 0} → (Database → A) → S A
asks f s = (ok (f s.db), s)

-- `_record`
unfoldable pub record_event : AuditAction → ℕ → S (Unit {0})
record_event action actor_id s = (ok tt, record s { audit = (action, some actor_id) ∷ s.audit })

abbrev pub is_admin_user : Option PortalUser → Bool
is_admin_user none = false
is_admin_user (some user) = user.is_site_admin && user.is_active

-- `_require_site_admin`
unfoldable pub require_admin : ℕ → S (Unit {0})
unfolding user_by_id
require_admin actor_id s =
    require (is_admin_user (user_by_id actor_id s.db)) (permission_denied site_admin_required) s

-- `_require_leader_or_site_admin`, and `_require_leader` under it
unfoldable pub require_leader_or_admin : ℕ → ℕ → S (Unit {0})
unfolding user_by_id role_for
require_leader_or_admin actor_id team_id s =
    require
      (is_admin_user (user_by_id actor_id s.db) || is_team_leader (role_for actor_id team_id s.db))
      (permission_denied leader_required) s

abbrev pub step_up_window : ℕ
step_up_window = 900000

-- `is_step_up_fresh`: `now - verified_at <= within`, also where the proof is from the future
unfoldable pub is_step_up_fresh : ℕ → Option ℕ → Bool
is_step_up_fresh now none = false
is_step_up_fresh now (some verified_at) = leb now (verified_at + step_up_window)

-- `_step_up`
unfoldable pub require_step_up : ℕ → Option ℕ → S (Unit {0})
unfolding is_step_up_fresh
require_step_up now verified_at =
    require (is_step_up_fresh now verified_at) (step_up step_up_required)

-- `@site_admin`
unfoldable pub site_admin : {A : Type 0} → ℕ → S A → S A
unfolding require_admin
site_admin actor_id body = require_admin actor_id >> body

-- `@site_admin_step_up()`: the role is checked first
unfoldable pub site_admin_step_up : {A : Type 0} → ℕ → Option ℕ → ℕ → S A → S A
unfolding require_step_up site_admin
site_admin_step_up now verified_at actor_id body =
    site_admin actor_id (require_step_up now verified_at >> body)

-- `@site_admin_or_leader()`
unfoldable pub site_admin_or_leader : {A : Type 0} → ℕ → ℕ → S A → S A
unfolding require_leader_or_admin
site_admin_or_leader actor_id team_id body = require_leader_or_admin actor_id team_id >> body

abbrev pub min_password : ℕ
min_password = 12

abbrev pub require_password : Text → S (Unit {0})
require_password password =
    require (leb min_password (length password)) (provisioning password_too_short)

abbrev pub is_title : Text → Bool
is_title t = leb 1 (length t) && leb (length t) 120

-- The code points before and after the first "@".
unfoldable pub before_at : Text → Text
before_at [] = []
before_at (c ∷ cs) = let rest = before_at cs in if c == b'@' then [] else c ∷ rest

unfoldable pub after_at : Text → Text
after_at [] = []
after_at (c ∷ cs) = let rest = after_at cs in if c == b'@' then cs else rest

-- Whether a "." stands before the last code point.
unfoldable pub dot_before_last : Text → Bool
dot_before_last [] = false
dot_before_last (c ∷ cs) = (c == b'.' && not (is_empty cs)) || dot_before_last cs

abbrev pub tail : Text → Text
tail [] = []
tail (c ∷ cs) = cs

module _ (u : Unicode) where
  -- ^[^@\s]+@[^@\s]+\.[^@\s]+$
  unfoldable pub is_email : Text → Bool
  unfolding before_at after_at dot_before_last
  is_email t =
      not (any u.is_space t)
      && (not (is_empty (before_at t))
          && (not (any (λ c. c == b'@') (after_at t)) && dot_before_last (tail (after_at t))))

  -- `_email`
  unfoldable pub clean_email : Text → S Text
  unfolding is_email
  clean_email value =
      let email = strip u (u.lower value) in
      require (is_email email) (provisioning email_invalid) >> return email

  -- `_name`
  unfoldable pub clean_name : Text → S Text
  clean_name value =
      let name = strip u value in
      require (is_title name) (provisioning team_name_length) >> return name

  -- `_label`
  unfoldable pub clean_label : Text → S Text
  clean_label value =
      let label = strip u value in
      require (is_title label) (credential_configuration label_length) >> return label

  -- `_user_by_email`
  unfoldable pub account_by_email : Text → S PortalUser
  unfolding clean_email user_by_email
  account_by_email value = do
    email ← clean_email value
    found ← asks (user_by_email u email)
    user ← required found (not_found user_not_found)
    return user.0

-- `_reload`
unfoldable pub reload : ℕ → S PortalUser
unfolding user_by_id
reload user_id = do found ← asks (user_by_id user_id); required found (not_found user_not_found)
