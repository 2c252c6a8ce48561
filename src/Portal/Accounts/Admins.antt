-- ===== src/Portal/Accounts/Admins.antt =====
-- packages/portal/portal/repository/auth.py: the installation keeps an active site administrator.
use docs_pe.Common.{
  ℕ, Bool, true, false, ◌≡◌, refl, Option, none, some, List, [], ◌∷◌, Text, arith, Bool-cases,
  Option-cases, inl, inr, ◌==◌, any, All,
}
use docs_pe.Common.Unicode.{Unicode}
use docs_pe.Common.Dict.{lookup, put, remove}
use docs_pe.Common.Eq.{nat_eq_key, pair_eq_key}
use docs_pe.Portal.Accounts.{
  Account, Database, require_site_admin, is_active_admin, ok, Answer-cases, ProtectedSecret,
  WebAuthnCredential, Team,
}
use docs_pe.Portal.Accounts.Auth
use docs_pe.Portal.Accounts.Teams
use docs_pe.Portal.Accounts.Transactions.{
  Transaction, creates_user, creates_account, enables_totp, disables_totp, adds_passkey,
  removes_passkey, touches_passkey, promotes, sets_pending, spends_code, deactivates, reactivates,
  demotes, sets_password, deletes, sets_global_search, creates_first_team, creates_team,
  adds_member, removes_member, creates_invite, deletes_invite, accepts_invite, run, run_all,
}

abbrev pub is_deletion : Transaction → Bool
is_deletion (deletes i) = true
is_deletion x = false

abbrev any_admin : List (ℕ × Account) → Bool
any_admin us = any (λ e. is_active_admin e.1) us

-- An account that is written with the flags it had, or that is new, removes no administrator.
admin-put :
    (i : ℕ) (a' : Account) (us : List (ℕ × Account))
    → ((a : Account) → lookup i us ≡ some a → is_active_admin a' ≡ is_active_admin a)
    → any_admin us ≡ true
    → any_admin (put i a' us) ≡ true
unfolding lookup put
admin-put i a' [] w h = ground arith
admin-put i a' ((j, b) ∷ us) w h = elim (Bool-cases (j == i)) [
  | inl e ↦ ground (arith, w b)
  | inr e ↦ ground (arith, admin-put i a' us (λ a k. w a (ground arith)))
]

-- An active administrator stays when another account goes.
pub admin-remove :
    (i k : ℕ) (a : Account) (us : List (ℕ × Account))
    → lookup k us ≡ some a
    → is_active_admin a ≡ true
    → (i == k) ≡ false
    → any_admin (remove i us) ≡ true
unfolding lookup remove
admin-remove i k a [] e h d = ground arith
admin-remove i k a ((j, b) ∷ us) e h d = ground (arith, admin-remove i k a us)

insert_keeps :
    (u : Unicode) (i : ℕ) (a : Account) (db : Database)
    → require_site_admin db ≡ true
    → require_site_admin (Auth.insert_account u i a db).1 ≡ true
unfolding Auth.insert_account require_site_admin
insert_keeps u i a db h = elim (Option-cases (lookup i db.users)) [
  | inl e ↦ ground (arith, admin-put i a db.users (λ b k. ground arith) h)
  | inr (b, e) ↦ ground arith
]

change_keeps :
    (i : ℕ) (f : Account → Account) (holds : Database → Bool) (db : Database)
    → ((a : Account)
        → holds (record db { users = put i (f a) db.users }) ≡ true
        → lookup i db.users ≡ some a
        → require_site_admin (record db { users = put i (f a) db.users }) ≡ true)
    → require_site_admin db ≡ true
    → require_site_admin (Auth.change_account i f holds db).1 ≡ true
unfolding Auth.change_account
change_keeps i f holds db w h = elim (Option-cases (lookup i db.users)) [
  | inl e ↦ rw (e, Auth.change_account) h
  | inr (a, e) ↦ rw (e, Auth.change_account) (ground (arith, w a))
]

-- The tables with an account written whose flags are those it had.
same_flags :
    (i : ℕ) (a a' : Account) (db : Database)
    → lookup i db.users ≡ some a
    → is_active_admin a' ≡ is_active_admin a
    → require_site_admin db ≡ true
    → any_admin (put i a' db.users) ≡ true
unfolding require_site_admin
same_flags i a a' db e s h = admin-put i a' db.users (λ b k. ground arith) h

disable_keeps :
    (i : ℕ) (db : Database)
    → require_site_admin db ≡ true
    → require_site_admin (Auth.disable_totp i db).1 ≡ true
unfolding Auth.disable_totp require_site_admin
disable_keeps i db h = elim (Option-cases (lookup i db.users)) [
  | inl e ↦ rw (e, Auth.disable_totp) h
  | inr (a, e) ↦
      rw (e, Auth.disable_totp)
        (ground (
          arith,
          h,
          same_flags i a (record a { mfa_enabled = false; mfa_secret = none }) db e refl h,
        ))
]

passkey_keeps :
    (c : WebAuthnCredential) (hashes : Option (List Text)) (promote : Bool) (db : Database)
    → require_site_admin db ≡ true
    → require_site_admin (Auth.add_webauthn_credential c hashes promote db).1 ≡ true
unfolding Auth.add_webauthn_credential
passkey_keeps c hashes true db h = elim (Option-cases (lookup c.user_id db.users)) [
  | inl e ↦ rw (e, Auth.add_webauthn_credential) (ground (arith, h))
  | inr (a, e) ↦ rw (e, Auth.add_webauthn_credential) (ground (arith, h))
]
passkey_keeps c hashes false db h = elim (Option-cases (lookup c.user_id db.users)) [
  | inl e ↦ rw (e, Auth.add_webauthn_credential) (ground (arith, h))
  | inr (a, e) ↦
      rw (e, Auth.add_webauthn_credential)
        (unfold require_site_admin in ground (arith, h, same_flags c.user_id a a db e refl h))
]

totp_keeps :
    (i : ℕ) (secret : ProtectedSecret) (hashes : Option (List Text)) (promote : Bool)
    (db : Database)
    → require_site_admin db ≡ true
    → require_site_admin (Auth.enable_totp i secret hashes promote db).1 ≡ true
unfolding Auth.enable_totp
totp_keeps i secret hashes promote db h = elim (Option-cases (lookup i db.users)) [
  | inl e ↦ rw (e, Auth.enable_totp) (ground (arith, h))
  | inr (a, e) ↦ rw (e, Auth.enable_totp) (ground (arith, h))
]

team_keeps :
    (t i : ℕ) (team : Team) (db db' : Database)
    → Teams.insert_team t team i db ≡ ok db'
    → db'.users ≡ db.users
unfolding Teams.insert_team
team_keeps t i team db db' h = ground arith

create_team_users :
    (t i by : ℕ) (slug name : Text) (db : Database)
    → (Teams.create_team t slug name by i db).1.users ≡ db.users
unfolding Teams.create_team
create_team_users t i by slug name db =
    elim (Answer-cases (Teams.insert_team t (Teams.new_team slug name by) i db)) [
      | inl (_, h) ↦ rw (h, Teams.create_team) refl
      | inr (db', h) ↦
          rw (h, Teams.create_team)
            (ground (arith, team_keeps t i (Teams.new_team slug name by) db db' h))
    ]

first_team_users :
    (t i : ℕ) (slug name : Text) (db : Database)
    → (Teams.create_first_team t slug name i db).1.users ≡ db.users
unfolding Teams.create_first_team
first_team_users t i slug name db = elim (Bool-cases (Teams.is_uninstalled db)) [
  | inr e ↦ rw (e, Teams.create_first_team) refl
  | inl e ↦ elim (Answer-cases (Teams.insert_team t (Teams.new_team slug name i) i db)) [
    | inl (_, h) ↦ rw (e, h, Teams.create_first_team) refl
    | inr (db', h) ↦
        rw (e, h, Teams.create_first_team)
          (ground (arith, team_keeps t i (Teams.new_team slug name i) db db' h))
  ]
]

same_users :
    (db db' : Database)
    → db'.users ≡ db.users
    → require_site_admin db ≡ true
    → require_site_admin db' ≡ true
unfolding require_site_admin
same_users db db' w h = rw w h

-- One transaction other than a deletion keeps an active administrator.
run_keeps_admin :
    (u : Unicode) (x : Transaction) (db : Database)
    → is_deletion x ≡ false
    → require_site_admin db ≡ true
    → require_site_admin (run u x db) ≡ true
unfolding run Auth.create_user Auth.create_account Auth.promote_now Auth.set_pending_site_admin
    Auth.consume_recovery_code Auth.deactivate Auth.reactivate Auth.demote Auth.set_password
    Auth.touch_webauthn_credential Auth.remove_webauthn_credential Teams.set_global_search
    Teams.add_member Teams.remove_member Teams.create_invite Teams.delete_invite
    Teams.mark_invite_accepted
run_keeps_admin u (creates_user i email hash admin) db n h =
    insert_keeps u i (Auth.new_account u email hash admin) db h
run_keeps_admin u (creates_account i email hash) db n h =
    ground (arith, h, insert_keeps u i (Auth.new_account u email hash false) db)
run_keeps_admin u (enables_totp i secret hashes promote) db n h =
    totp_keeps i secret hashes promote db h
run_keeps_admin u (disables_totp i) db n h = disable_keeps i db h
run_keeps_admin u (adds_passkey c hashes promote) db n h = passkey_keeps c hashes promote db h
run_keeps_admin u (removes_passkey i c) db n h =
    same_users db (Auth.remove_webauthn_credential i c db).1 (ground arith) h
run_keeps_admin u (touches_passkey c k) db n h = same_users db _ refl h
run_keeps_admin u (promotes i) db n h =
    change_keeps i Auth.promoted (Auth.admin_triggers i) db (λ a k e. ground arith) h
run_keeps_admin u (sets_pending i pending) db n h =
    change_keeps i (λ a. record a { pending_site_admin = pending }) Auth.no_trigger db
      (λ a k e.
        unfold require_site_admin in
        same_flags i a (record a { pending_site_admin = pending }) db e refl h)
      h
run_keeps_admin u (spends_code now i hash) db n h = same_users db _ refl h
run_keeps_admin u (deactivates now i actor) db n h =
    change_keeps i (Auth.deactivated now actor) require_site_admin db (λ a k e. k) h
run_keeps_admin u (reactivates i) db n h =
    change_keeps i Auth.reactivated require_site_admin db (λ a k e. k) h
run_keeps_admin u (demotes i) db n h =
    change_keeps i Auth.demoted (Auth.admin_triggers i) db (λ a k e. ground arith) h
run_keeps_admin u (sets_password i hash) db n h =
    change_keeps i (λ a. record a { password_hash = hash }) Auth.no_trigger db
      (λ a k e.
        unfold require_site_admin in same_flags i a (record a { password_hash = hash }) db e refl h)
      h
run_keeps_admin u (deletes i) db n h = ground arith
run_keeps_admin u (sets_global_search k enabled) db n h =
    same_users db (Teams.set_global_search k enabled db) (ground arith) h
run_keeps_admin u (creates_first_team k slug name i) db n h =
    same_users db _ (first_team_users k i slug name db) h
run_keeps_admin u (creates_team k slug name by leader) db n h =
    same_users db _ (create_team_users k leader by slug name db) h
run_keeps_admin u (adds_member k i role) db n h =
    same_users db (Teams.add_member k i role db).1 (ground arith) h
run_keeps_admin u (removes_member k i) db n h =
    same_users db (Teams.remove_member k i db).1 (ground arith) h
run_keeps_admin u (creates_invite v) db n h =
    same_users db (Teams.create_invite v db).1 (ground arith) h
run_keeps_admin u (deletes_invite k v) db n h = same_users db _ refl h
run_keeps_admin u (accepts_invite now v) db n h = same_users db _ refl h

-- Transactions other than the deletion of an account, in any order, leave an active site
-- administrator if there is one, however many of them demote or deactivate administrators.
pub run_all_keeps_admin :
    (u : Unicode) (xs : List Transaction) (db : Database)
    → All (λ x. is_deletion x ≡ false) xs
    → require_site_admin db ≡ true
    → require_site_admin (run_all u xs db) ≡ true
unfolding run_all
run_all_keeps_admin u [] db n h = h
run_all_keeps_admin u (x ∷ xs) db n h =
    run_all_keeps_admin u xs (run u x db) n.1 (run_keeps_admin u x db n.0 h)
