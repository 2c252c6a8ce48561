-- ===== src/Portal/Accounts/Auth.antt =====
-- packages/portal/portal/repository/auth.py: the accounts, their second factors and their recovery
-- codes. Each function is one transaction; `now()` and the id that `uuid4` draws are arguments.
use docs_pe.Common.{
  ℕ, suc, Bool, true, false, not, ◌&&◌, ◌||◌, Option, none, some, List, [], ◌∷◌, ◌++◌, map, Text,
  ltb, if◌then◌else◌, any, all, text_eq, is_some, is_empty, ◌==◌,
}
use docs_pe.Common.Unicode.{Unicode}
use docs_pe.Common.Dict.{lookup, put, remove}
use docs_pe.Common.Table.{first, update, delete}
use docs_pe.Common.Eq.{nat_eq_key}
use docs_pe.Portal.Throttle.{normalize_email}
use docs_pe.Portal.Accounts.{
  user_not_found, last_second_factor, passkey_not_found, not_found, provisioning, unique_violation,
  foreign_key_violation, ok, err, TeamRole, ProtectedSecret, Account, WebAuthnCredential,
  RecoveryCode, Installation, Database, PortalUser, has_passkey, user_row, find_account, has_email,
  require_admin_second_factor, require_team_leader, require_site_admin, M, commit,
}

-- The CHECK constraints of a row of portal_users.
unfoldable pub is_consistent : Account → Bool
is_consistent a =
    (not a.mfa_enabled || is_some a.mfa_secret)
    && (not (a.is_site_admin && a.pending_site_admin)
        && (if a.is_active then not (is_some a.deactivated_at) else is_some a.deactivated_at))

-- `user_by_id`
unfoldable pub user_by_id : ℕ → Database → Option PortalUser
unfolding user_row
user_by_id user_id db = elim (lookup user_id db.users) [
  | none ↦ none
  | some a ↦ some (user_row db.passkeys user_id a)
]

module _ (u : Unicode) where
  -- `user_by_email`
  unfoldable pub user_by_email : Text → Database → Option (PortalUser × Text)
  unfolding find_account user_row
  user_by_email email db = elim (find_account (has_email (normalize_email u email)) db.users) [
    | none ↦ none
    | some (i, a) ↦ some (user_row db.passkeys i a, a.password_hash)
  ]

  abbrev pub new_account : Text → Text → Bool → Account
  new_account email password_hash is_site_admin = record {
    email = normalize_email u email;
    password_hash = password_hash;
    is_site_admin = is_site_admin;
    pending_site_admin = false;
    deactivated_at = none;
    deactivated_by = none;
    is_active = true;
    mfa_secret = none;
    mfa_enabled = false;
  }

  -- INSERT INTO portal_users
  unfoldable pub insert_account : ℕ → Account → M PortalUser
  unfolding user_row
  insert_account user_id a db =
      if is_some (lookup user_id db.users) || is_some (find_account (has_email a.email) db.users)
      then (err unique_violation, db)
      else let db' : Database = record db { users = put user_id a db.users } in
        commit (require_admin_second_factor user_id db') (user_row db.passkeys user_id a) db' db

  -- `create_user`
  unfoldable pub create_user : ℕ → Text → Text → Bool → M PortalUser
  unfolding insert_account
  create_user user_id email password_hash is_site_admin db =
      insert_account user_id (new_account email password_hash is_site_admin) db

  -- `create_account`: on a conflict the row that is there is read back
  unfoldable pub create_account : ℕ → Text → Text → M PortalUser
  unfolding user_row insert_account find_account
  create_account user_id email password_hash db =
      elim (find_account (has_email (normalize_email u email)) db.users) [
        | none ↦ insert_account user_id (new_account email password_hash false) db
        | some (i, a) ↦ (ok (user_row db.passkeys i a), db)
      ]

-- `mfa_secret`
unfoldable pub mfa_secret : ℕ → Database → Option ProtectedSecret
mfa_secret user_id db = elim (lookup user_id db.users) [
  | none ↦ none
  | some a ↦ if a.mfa_enabled then a.mfa_secret else none
]

abbrev pub new_codes : ℕ → List Text → List RecoveryCode
new_codes user_id hashes =
    map (λ h. record { user_id = user_id; code_hash = h; used_at = none }) hashes

-- `_replace_recovery_codes`
unfoldable pub replace_recovery_codes : ℕ → List Text → List RecoveryCode → List RecoveryCode
replace_recovery_codes user_id hashes codes =
    delete (λ c. c.user_id == user_id) codes ++ new_codes user_id hashes

-- The codes after an enrolment, which replaces them at the first factor.
abbrev pub enrolled_codes : ℕ → Option (List Text) → List RecoveryCode → List RecoveryCode
enrolled_codes user_id none codes = codes
enrolled_codes user_id (some hashes) codes = replace_recovery_codes user_id hashes codes

abbrev pub has_codes : Option (List Text) → Bool
has_codes none = false
has_codes (some hashes) = not (is_empty hashes)

abbrev pub with_totp : ProtectedSecret → Bool → Account → Account
with_totp secret promote_to_site_admin a = record a {
  mfa_secret = some secret;
  mfa_enabled = true;
  is_site_admin = a.is_site_admin || promote_to_site_admin;
  pending_site_admin = a.pending_site_admin && not promote_to_site_admin;
}

-- `enable_totp`
unfoldable pub enable_totp : ℕ → ProtectedSecret → Option (List Text) → Bool → M (Unit {0})
unfolding replace_recovery_codes is_consistent
enable_totp user_id secret hashes promote_to_site_admin db = elim (lookup user_id db.users) [
  | none ↦ if has_codes hashes then (err foreign_key_violation, db) else (ok tt, db)
  | some a ↦
      let a' : Account = with_totp secret promote_to_site_admin a in
      let db' : Database = record db {
        users = put user_id a' db.users;
        recovery_codes = enrolled_codes user_id hashes db.recovery_codes;
      } in
      commit
        (is_consistent a' && (require_admin_second_factor user_id db' && require_site_admin db')) tt
        db' db
]

abbrev pub left_codes : ℕ → Database → List RecoveryCode
left_codes user_id db =
    if has_passkey user_id db.passkeys
    then db.recovery_codes
    else delete (λ c. c.user_id == user_id) db.recovery_codes

-- `disable_totp`
unfoldable pub disable_totp : ℕ → M (Unit {0})
disable_totp user_id db = elim (lookup user_id db.users) [
  | none ↦ (ok tt, record db { recovery_codes = left_codes user_id db })
  | some a ↦
      let db' : Database = record db {
        users = put user_id (record a { mfa_enabled = false; mfa_secret = none }) db.users;
        recovery_codes = left_codes user_id db;
      } in
      if require_admin_second_factor user_id db'
      then (ok tt, db')
      else (err (provisioning last_second_factor), db)
]

-- An UPDATE of one account: its constraints, then the triggers of the columns that it sets.
unfoldable pub change_account : ℕ → (Account → Account) → (Database → Bool) → M PortalUser
unfolding user_row is_consistent
change_account user_id f holds db = elim (lookup user_id db.users) [
  | none ↦ (err (not_found user_not_found), db)
  | some a ↦
      let db' : Database = record db { users = put user_id (f a) db.users } in
      commit (is_consistent (f a) && holds db') (user_row db.passkeys user_id (f a)) db' db
]

abbrev pub no_trigger : Database → Bool
no_trigger db = true

abbrev pub admin_triggers : ℕ → Database → Bool
admin_triggers user_id db = require_admin_second_factor user_id db && require_site_admin db

abbrev pub promoted : Account → Account
promoted a = record a { is_site_admin = true; pending_site_admin = false }

-- `promote_now`
unfoldable pub promote_now : ℕ → M PortalUser
unfolding change_account
promote_now user_id db = change_account user_id promoted (admin_triggers user_id) db

-- `set_pending_site_admin`
unfoldable pub set_pending_site_admin : ℕ → Bool → M PortalUser
unfolding change_account
set_pending_site_admin user_id pending db =
    change_account user_id (λ a. record a { pending_site_admin = pending }) no_trigger db

abbrev pub coalesce : Option ℕ → ℕ → Option ℕ
coalesce none x = some x
coalesce (some y) x = some y

abbrev pub deactivated : ℕ → ℕ → Account → Account
deactivated now actor_id a = record a {
  is_active = false;
  deactivated_at = coalesce a.deactivated_at now;
  deactivated_by = coalesce a.deactivated_by actor_id;
}

-- `deactivate`
unfoldable pub deactivate : ℕ → ℕ → ℕ → M PortalUser
unfolding change_account
deactivate now user_id actor_id db =
    change_account user_id (deactivated now actor_id) require_site_admin db

abbrev pub reactivated : Account → Account
reactivated a = record a { is_active = true; deactivated_at = none; deactivated_by = none }

-- `reactivate`
unfoldable pub reactivate : ℕ → M PortalUser
unfolding change_account
reactivate user_id db = change_account user_id reactivated require_site_admin db

abbrev pub demoted : Account → Account
demoted a = record a { is_site_admin = false; pending_site_admin = false }

-- `demote`
unfoldable pub demote : ℕ → M PortalUser
unfolding change_account
demote user_id db = change_account user_id demoted (admin_triggers user_id) db

-- `set_password`
unfoldable pub set_password : ℕ → Text → M PortalUser
unfolding change_account
set_password user_id password_hash db =
    change_account user_id (λ a. record a { password_hash = password_hash }) no_trigger db

-- The checks of an added passkey: those of the promotion, if there is one.
abbrev pub added_holds : Bool → ℕ → Account → Database → Bool
added_holds promote_to_site_admin user_id a' db' =
    not promote_to_site_admin || (is_consistent a' && admin_triggers user_id db')

-- `add_webauthn_credential`
unfoldable pub add_webauthn_credential :
    WebAuthnCredential → Option (List Text) → Bool → M (Unit {0})
unfolding replace_recovery_codes is_consistent
add_webauthn_credential credential hashes promote_to_site_admin db =
    if any (λ c. text_eq c.credential_id credential.credential_id) db.passkeys
    then (err unique_violation, db)
    else elim (lookup credential.user_id db.users) [
      | none ↦ (err foreign_key_violation, db)
      | some a ↦
          let a' : Account = if promote_to_site_admin then promoted a else a in
          let db' : Database = record db {
            users = put credential.user_id a' db.users;
            passkeys = credential ∷ db.passkeys;
            recovery_codes = enrolled_codes credential.user_id hashes db.recovery_codes;
          } in
          commit (added_holds promote_to_site_admin credential.user_id a' db') tt db' db
    ]

-- `remove_webauthn_credential`
unfoldable pub remove_webauthn_credential : ℕ → ℕ → M (Unit {0})
remove_webauthn_credential user_id credential_id db =
    let chosen = λ (c : WebAuthnCredential). c.id == credential_id && c.user_id == user_id in
    if any chosen db.passkeys
    then (let db' : Database = record db { passkeys = delete chosen db.passkeys } in
        if require_admin_second_factor user_id db'
        then (ok tt, db')
        else (err (provisioning last_second_factor), db))
    else (err (not_found passkey_not_found), db)

-- `webauthn_credential_by_credential_id`
unfoldable pub webauthn_credential_by_credential_id : Text → Database → Option WebAuthnCredential
webauthn_credential_by_credential_id credential_id db =
    first (λ c. text_eq c.credential_id credential_id) db.passkeys

abbrev pub accepts_count : ℕ → ℕ → WebAuthnCredential → Bool
accepts_count row_id sign_count c =
    c.id == row_id && (ltb c.sign_count sign_count || (sign_count == 0 && c.sign_count == 0))

-- `touch_webauthn_credential`
unfoldable pub touch_webauthn_credential : ℕ → ℕ → Database → Bool × Database
touch_webauthn_credential row_id sign_count db = (
  any (accepts_count row_id sign_count) db.passkeys,
  record db {
    passkeys =
        update (accepts_count row_id sign_count) (λ c. record c { sign_count = sign_count })
          db.passkeys;
  },
)

abbrev pub is_spendable : ℕ → Text → RecoveryCode → Bool
is_spendable user_id code_hash c =
    c.user_id == user_id && (text_eq c.code_hash code_hash && not (is_some c.used_at))

-- `consume_recovery_code`
unfoldable pub consume_recovery_code : ℕ → ℕ → Text → Database → Bool × Database
consume_recovery_code now user_id code_hash db = (
  any (is_spendable user_id code_hash) db.recovery_codes,
  record db {
    recovery_codes =
        update (is_spendable user_id code_hash) (λ c. record c { used_at = some now })
          db.recovery_codes;
  },
)

-- `count_active_site_admins`
unfoldable pub count_active_site_admins : List (ℕ × Account) → ℕ
count_active_site_admins [] = 0
count_active_site_admins ((i, a) ∷ us) =
    if a.is_site_admin && a.is_active
    then suc (count_active_site_admins us)
    else count_active_site_admins us

abbrev pub is_reference : ℕ → Option ℕ → Bool
is_reference user_id none = false
is_reference user_id (some k) = k == user_id

abbrev pub installed_by : ℕ → Option Installation → Bool
installed_by user_id none = false
installed_by user_id (some i) = is_reference user_id i.completed_by

-- Whether a column that restricts the deletion of an account names it.
unfoldable pub has_history : ℕ → Database → Bool
has_history user_id db =
    any (λ e. e.1.created_by == user_id) db.teams
    || (any (λ v. v.invited_by == user_id) db.invites
        || (installed_by user_id db.installation
            || (any (λ e. not (e.0 == user_id) && is_reference user_id e.1.deactivated_by) db.users
                || any (λ k. k == user_id) db.referenced)))

-- The memberships that go with an account, by the teams they were in, and those that stay.
unfoldable pub teams_of : ℕ → List ((ℕ × ℕ) × TeamRole) → List ℕ
teams_of user_id [] = []
teams_of user_id (((t, i), role) ∷ ms) =
    let rest = teams_of user_id ms in if i == user_id then t ∷ rest else rest

unfoldable pub without_user : ℕ → List ((ℕ × ℕ) × TeamRole) → List ((ℕ × ℕ) × TeamRole)
without_user user_id [] = []
without_user user_id (((t, i), role) ∷ ms) =
    let rest = without_user user_id ms in if i == user_id then rest else ((t, i), role) ∷ rest

abbrev pub without_account : ℕ → Database → Database
without_account user_id db = record db {
  users = remove user_id db.users;
  passkeys = delete (λ c. c.user_id == user_id) db.passkeys;
  recovery_codes = delete (λ c. c.user_id == user_id) db.recovery_codes;
  memberships = without_user user_id db.memberships;
}

-- `delete_if_unused`
unfoldable pub delete_if_unused : ℕ → M Bool
unfolding has_history teams_of without_user
delete_if_unused user_id db = elim (lookup user_id db.users) [
  | none ↦ (ok false, db)
  | some a ↦
      if has_history user_id db
      then (ok false, db)
      else let db' = without_account user_id db in
        commit (all (λ t. require_team_leader t db') (teams_of user_id db.memberships)) true db' db
]
