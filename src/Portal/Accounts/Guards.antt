-- ===== src/Portal/Accounts/Guards.antt =====
-- packages/portal/portal/repository/auth.py: what each statement does to the constraints of an
-- account and to the second factor of an administrator.
use docs_pe.Common.{
  ℕ, Bool, ◌∙◌, text_eq, true, false, ◌&&◌, ◌≡◌, refl, Option, none, some, List, [], ◌∷◌, Text,
  arith, any, Bool-cases, inl, inr, ◌==◌, if◌then◌else◌, Option-cases,
}
use docs_pe.Common.Unicode.{Unicode}
use docs_pe.Common.Dict.{lookup, put, lookup-put, lookup-remove}
use docs_pe.Common.Table.{update, delete}
use docs_pe.Common.Eq.{nat_eq_key, pair_eq_key}
use docs_pe.Portal.Accounts.{
  Account, WebAuthnCredential, Database, has_passkey, has_required_factor, ProtectedSecret,
  RecoveryCode, commit, Team, ok, require_admin_second_factor,
}
use docs_pe.Portal.Accounts.Auth
use docs_pe.Portal.Accounts.Teams

-- A deletion among the passkeys of one account leaves the other accounts' alone.
pub has_passkey-delete :
    (i j : ℕ) (chosen : WebAuthnCredential → Bool) (cs : List WebAuthnCredential)
    → ((c : WebAuthnCredential) → chosen c ≡ true → c.user_id ≡ i)
    → (i == j) ≡ false
    → has_passkey j (delete chosen cs) ≡ has_passkey j cs
has_passkey-delete i j chosen [] h d = refl
has_passkey-delete i j chosen (c ∷ cs) h d =
    ground (arith, h c, has_passkey-delete i j chosen cs h d)

pub has_passkey-update :
    (j n : ℕ) (chosen : WebAuthnCredential → Bool) (cs : List WebAuthnCredential)
    → has_passkey j (update chosen (λ c. record c { sign_count = n }) cs) ≡ has_passkey j cs
has_passkey-update j n chosen [] = refl
has_passkey-update j n chosen (c ∷ cs) = ground (arith, has_passkey-update j n chosen cs)

-- What holds of one account: its constraints, and the factor that an administrator must have.
pub record IsGuarded (i : ℕ) (db : Database) : Type 0 where
  pub factor : require_admin_second_factor i db ≡ true
  pub consistent : (a : Account) → lookup i db.users ≡ some a → Auth.is_consistent a ≡ true

abbrev pub AreGuarded : Database → Type 0
AreGuarded db = (i : ℕ) → IsGuarded i db

-- An account is written: the others have what they had.
pub put-IsGuarded :
    (i j : ℕ) (a' : Account) (db db' : Database)
    → db'.users ≡ put i a' db.users
    → ((i == j) ≡ false → has_passkey j db'.passkeys ≡ has_passkey j db.passkeys)
    → require_admin_second_factor i db' ≡ true
    → Auth.is_consistent a' ≡ true
    → AreGuarded db
    → IsGuarded j db'
unfolding require_admin_second_factor has_required_factor
put-IsGuarded i j a' db db' w others own fits g = record {
  factor = ground (arith, w, lookup-put i j a' db.users, others, own, (g j).factor);
  consistent = λ b h. ground (arith, h, w, lookup-put i j a' db.users, fits, (g j).consistent b);
}

-- The passkeys change in a way that keeps those of each account, as far as it has any.
pub passkeys-IsGuarded :
    (j : ℕ) (db db' : Database)
    → db'.users ≡ db.users
    → (has_passkey j db.passkeys ≡ true → has_passkey j db'.passkeys ≡ true)
    → AreGuarded db
    → IsGuarded j db'
unfolding require_admin_second_factor has_required_factor
passkeys-IsGuarded j db db' w more g = record {
  factor = ground (arith, w, more, (g j).factor);
  consistent = λ b h. ground (arith, h, w, (g j).consistent b);
}

pub insert-IsGuarded :
    (u : Unicode) (i j : ℕ) (a : Account) (db : Database)
    → Auth.is_consistent a ≡ true
    → AreGuarded db
    → IsGuarded j (Auth.insert_account u i a db).1
unfolding Auth.insert_account
insert-IsGuarded u i j a db fits g =
    ground
      (arith, g j, put-IsGuarded i j a db (record db { users = put i a db.users }) refl (λ _. refl))

pub change-IsGuarded :
    (i j : ℕ) (f : Account → Account) (holds : Database → Bool) (db : Database)
    → ((a : Account)
        → lookup i db.users ≡ some a
        → holds (record db { users = put i (f a) db.users }) ≡ true
        → require_admin_second_factor i (record db { users = put i (f a) db.users }) ≡ true)
    → AreGuarded db
    → IsGuarded j (Auth.change_account i f holds db).1
unfolding Auth.change_account
change-IsGuarded i j f holds db own g = elim (Option-cases (lookup i db.users)) [
  | inl e ↦ rw (e, Auth.change_account) (g j)
  | inr (a, e) ↦
      let db' : Database = record db { users = put i (f a) db.users } in
      rw (e, Auth.change_account)
        (ground (arith, g j, own a e, put-IsGuarded i j (f a) db db' refl (λ _. refl)))
]

-- A change that leaves the administrator flag and TOTP as they are.
pub kept_factor :
    (i : ℕ) (a a' : Account) (db : Database)
    → lookup i db.users ≡ some a
    → a'.is_site_admin ≡ a.is_site_admin
    → a'.mfa_enabled ≡ a.mfa_enabled
    → AreGuarded db
    → require_admin_second_factor i (record db { users = put i a' db.users }) ≡ true
unfolding require_admin_second_factor has_required_factor
kept_factor i a a' db e s m g = ground (arith, lookup-put i i a' db.users, (g i).factor)

pub totp-IsGuarded :
    (i j : ℕ) (secret : ProtectedSecret) (hashes : Option (List Text)) (promote : Bool)
    (db : Database)
    → AreGuarded db
    → IsGuarded j (Auth.enable_totp i secret hashes promote db).1
unfolding Auth.enable_totp
totp-IsGuarded i j secret hashes promote db g = elim (Option-cases (lookup i db.users)) [
  | inl e ↦ rw (e, Auth.enable_totp) (ground (arith, g j))
  | inr (a, e) ↦
      let a' : Account = Auth.with_totp secret promote a in
      let db' : Database = record db {
        users = put i a' db.users;
        recovery_codes = Auth.enrolled_codes i hashes db.recovery_codes;
      } in
      rw (e, Auth.enable_totp) (ground (arith, g j, put-IsGuarded i j a' db db' refl (λ _. refl)))
]

pub disable-IsGuarded :
    (i j : ℕ) (db : Database) → AreGuarded db → IsGuarded j (Auth.disable_totp i db).1
unfolding Auth.disable_totp Auth.is_consistent
disable-IsGuarded i j db g = elim (Option-cases (lookup i db.users)) [
  | inl e ↦ rw (e, Auth.disable_totp) (passkeys-IsGuarded j db _ refl (λ h. h) g)
  | inr (a, e) ↦
      let a' : Account = record a { mfa_enabled = false; mfa_secret = none } in
      rw (e, Auth.disable_totp)
        (ground (
          arith,
          g j,
          (g i).consistent a e,
          put-IsGuarded i j a' db
              (record db { users = put i a' db.users; recovery_codes = Auth.left_codes i db }) refl
              (λ _. refl),
        ))
]

-- A commit keeps what its tables would have, if its checks hold, and what the old ones have.
pub commit-IsGuarded :
    (j : ℕ) (holds : Bool) (db' db : Database)
    → (holds ≡ true → IsGuarded j db')
    → IsGuarded j db
    → IsGuarded j (commit {A = Unit {0}} holds tt db' db).1
commit-IsGuarded j true db' db h g = h refl
commit-IsGuarded j false db' db h g = g

-- A passkey more, with no promotion, is no factor less.
pub own_factor :
    (c : WebAuthnCredential) (codes : List RecoveryCode) (a : Account) (db : Database)
    → lookup c.user_id db.users ≡ some a
    → require_admin_second_factor c.user_id (record db {
      users = put c.user_id a db.users;
      passkeys = c ∷ db.passkeys;
      recovery_codes = codes;
    })
      ≡ true
unfolding require_admin_second_factor has_required_factor
own_factor c codes a db e = ground (arith, lookup-put c.user_id c.user_id a db.users)

pub add-IsGuarded :
    (j : ℕ) (c : WebAuthnCredential) (hashes : Option (List Text)) (promote : Bool) (db : Database)
    → AreGuarded db
    → IsGuarded j (Auth.add_webauthn_credential c hashes promote db).1
unfolding Auth.add_webauthn_credential
add-IsGuarded j c hashes promote db g = elim (Option-cases (lookup c.user_id db.users)) [
  | inl e ↦ rw (e, Auth.add_webauthn_credential) (ground (arith, g j))
  | inr (a, e) ↦
      let a' : Account = if promote then Auth.promoted a else a in
      let codes = Auth.enrolled_codes c.user_id hashes db.recovery_codes in
      let db' : Database = record db {
        users = put c.user_id a' db.users;
        passkeys = c ∷ db.passkeys;
        recovery_codes = codes;
      } in
      let kept : Auth.added_holds promote c.user_id a' db' ≡ true → IsGuarded j db' = λ h.
        put-IsGuarded c.user_id j a' db db' refl (λ d. ground arith)
          (ground (arith, own_factor c codes a db e)) (ground (arith, (g c.user_id).consistent a e))
          g in
      rw (e, Auth.add_webauthn_credential)
        (elim (Bool-cases (any (λ k. text_eq k.credential_id c.credential_id) db.passkeys)) [
          | inl taken ↦ rw taken (g j)
          | inr free ↦ rw free (commit-IsGuarded j _ db' db kept (g j))
        ])
]

pub remove-IsGuarded :
    (i j c : ℕ) (db : Database)
    → AreGuarded db
    → IsGuarded j (Auth.remove_webauthn_credential i c db).1
unfolding Auth.remove_webauthn_credential require_admin_second_factor has_required_factor
remove-IsGuarded i j c db g =
    let chosen = λ (k : WebAuthnCredential). k.id == c && k.user_id == i in
    ground (
      arith,
      g j,
      has_passkey-delete i j chosen db.passkeys (λ k h. ground arith),
      passkeys-IsGuarded j db (record db { passkeys = delete chosen db.passkeys }) refl,
    )

pub deleted-IsGuarded :
    (i j : ℕ) (db : Database) → AreGuarded db → IsGuarded j (Auth.without_account i db)
unfolding require_admin_second_factor has_required_factor
deleted-IsGuarded i j db g =
    let chosen = λ (k : WebAuthnCredential). k.user_id == i in
    record {
      factor = ground (
        arith,
        (g j).factor,
        lookup-remove i j db.users,
        has_passkey-delete i j chosen db.passkeys (λ k h. ground arith),
      );
      consistent = λ b h. ground (arith, h, lookup-remove i j db.users, (g j).consistent b);
    }

pub delete-IsGuarded :
    (i j : ℕ) (db : Database) → AreGuarded db → IsGuarded j (Auth.delete_if_unused i db).1
unfolding Auth.delete_if_unused
delete-IsGuarded i j db g = elim (Option-cases (lookup i db.users)) [
  | inl e ↦ rw (e, Auth.delete_if_unused) (g j)
  | inr (a, e) ↦
      rw (e, Auth.delete_if_unused)
        (elim (Bool-cases (Auth.has_history i db)) [
          | inl h ↦ rw h (g j)
          | inr h ↦ rw h (ground (arith, g j, deleted-IsGuarded i j db g))
        ])
]

pub touch-IsGuarded :
    (j c n : ℕ) (db : Database)
    → AreGuarded db
    → IsGuarded j (Auth.touch_webauthn_credential c n db).1
unfolding Auth.touch_webauthn_credential
touch-IsGuarded j c n db g =
    passkeys-IsGuarded j db _ refl
      (λ h. has_passkey-update j n (Auth.accepts_count c n) db.passkeys ∙ h) g

-- Tables that hold the same accounts and passkeys.
pub same-IsGuarded :
    (j : ℕ) (db db' : Database)
    → db'.users ≡ db.users
    → db'.passkeys ≡ db.passkeys
    → AreGuarded db
    → IsGuarded j db'
same-IsGuarded j db db' w p g = passkeys-IsGuarded j db db' w (λ h. ground arith) g

pub insert_team_same :
    (t : ℕ) (team : Team) (i : ℕ) (db db' : Database)
    → Teams.insert_team t team i db ≡ ok db'
    → (db'.users ≡ db.users) × (db'.passkeys ≡ db.passkeys)
unfolding Teams.insert_team
insert_team_same t team i db db' h = ground arith
