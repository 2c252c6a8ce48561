-- ===== src/Portal/Accounts/Leaders/Runs.antt =====
-- packages/portal/portal/repository/auth.py and packages/portal/portal/repository/teams.py: each
-- transaction keeps the leaders of every team.
use docs_pe.Common.{
  ℕ, Bool, true, false, ◌≡◌, refl, Option, none, some, List, [], ◌∷◌, Text, arith, Bool-cases,
  Option-cases, inl, inr, if◌then◌else◌, is_some,
}
use docs_pe.Common.Unicode.{Unicode}
use docs_pe.Common.Dict.{lookup, put, remove, lookup-put}
use docs_pe.Common.Eq.{nat_eq_key, pair_eq_key}
use docs_pe.Portal.Accounts.{
  Account, Team, TeamRole, team_leader, Database, require_team_leader, require_site_admin, ok,
  Answer-cases, ProtectedSecret, WebAuthnCredential,
}
use docs_pe.Portal.Accounts.Auth
use docs_pe.Portal.Accounts.Teams
use docs_pe.Portal.Accounts.Leaders.{
  Memberships, IsLed, AreLed, others-IsLed, put-IsLed, remove-IsLed, without-IsLed,
}
use docs_pe.Portal.Accounts.Transactions.{
  Transaction, creates_user, creates_account, enables_totp, disables_totp, adds_passkey,
  removes_passkey, touches_passkey, promotes, sets_pending, spends_code, deactivates, reactivates,
  demotes, sets_password, deletes, sets_global_search, creates_first_team, creates_team,
  adds_member, removes_member, creates_invite, deletes_invite, accepts_invite, run, run_all,
}

remove_absent : (k : ℕ × ℕ) (m : Memberships) → lookup k m ≡ none → remove k m ≡ m
unfolding lookup remove
remove_absent k [] h = refl
remove_absent k ((j, r) ∷ m) h = ground (arith, remove_absent k m)

-- Tables in which no more than one account is written, and no membership or team.
account-IsLed :
    (t i : ℕ) (a : Account) (db db' : Database)
    → db'.memberships ≡ db.memberships
    → db'.teams ≡ db.teams
    → db'.users ≡ put i a db.users
    → AreLed db
    → IsLed t db'
account-IsLed t i a db db' m s w g =
    others-IsLed t db db' m (rw s refl) (λ j h. ground (arith, w, lookup-put i j a db.users)) g

same-IsLed :
    (t : ℕ) (db db' : Database)
    → db'.memberships ≡ db.memberships
    → db'.teams ≡ db.teams
    → db'.users ≡ db.users
    → AreLed db
    → IsLed t db'
same-IsLed t db db' m s w g = others-IsLed t db db' m (rw s refl) (λ j h. ground (arith, w)) g

change-IsLed :
    (t i : ℕ) (f : Account → Account) (holds : Database → Bool) (db : Database)
    → AreLed db
    → IsLed t (Auth.change_account i f holds db).1
unfolding Auth.change_account
change-IsLed t i f holds db g = elim (Option-cases (lookup i db.users)) [
  | inl e ↦ rw (e, Auth.change_account) (g t)
  | inr (a, e) ↦
      let db' : Database = record db { users = put i (f a) db.users } in
      rw (e, Auth.change_account)
        (ground (arith, g t, account-IsLed t i (f a) db db' refl refl refl g))
]

insert-IsLed :
    (u : Unicode) (t i : ℕ) (a : Account) (db : Database)
    → AreLed db
    → IsLed t (Auth.insert_account u i a db).1
unfolding Auth.insert_account
insert-IsLed u t i a db g =
    ground
      (arith, g t, account-IsLed t i a db (record db { users = put i a db.users }) refl refl refl g)

-- What an inserted team puts into the tables.
insert_team_rows :
    (t : ℕ) (team : Team) (i : ℕ) (db db' : Database)
    → Teams.insert_team t team i db ≡ ok db'
    → (db'.memberships ≡ put (t, i) team_leader db.memberships)
      × (db'.teams ≡ put t team db.teams)
      × (db'.users ≡ db.users)
      × (is_some (lookup i db.users) ≡ true)
unfolding Teams.insert_team
insert_team_rows t team i db db' h = ground arith

create_team-IsLed :
    (t k i by : ℕ) (slug name : Text) (db : Database)
    → AreLed db
    → IsLed t (Teams.create_team k slug name by i db).1
unfolding Teams.create_team
create_team-IsLed t k i by slug name db g =
    let team = Teams.new_team slug name by in
    elim (Answer-cases (Teams.insert_team k team i db)) [
      | inl (e, h) ↦ rw (h, Teams.create_team) (g t)
      | inr (db', h) ↦
          let (m, s, w, account) = insert_team_rows k team i db db' h in
          rw (h, Teams.create_team)
            (ground (
              arith,
              g t,
              s,
              lookup-put k k team db.teams,
              lookup-put k t team db.teams,
              put-IsLed t k i team_leader db db' m
                  (λ d. ground (arith, s, lookup-put k t team db.teams)) w
                  (ground (arith, s, lookup-put k k team db.teams)) account,
            ))
    ]

first_team-IsLed :
    (t k i : ℕ) (slug name : Text) (db : Database)
    → AreLed db
    → IsLed t (Teams.create_first_team k slug name i db).1
unfolding Teams.create_first_team
first_team-IsLed t k i slug name db g =
    let team = Teams.new_team slug name i in
    elim (Bool-cases (Teams.is_uninstalled db)) [
      | inr e ↦ rw (e, Teams.create_first_team) (g t)
      | inl e ↦ elim (Answer-cases (Teams.insert_team k team i db)) [
        | inl (_, h) ↦ rw (e, h, Teams.create_first_team) (g t)
        | inr (db', h) ↦
            let (m, s, w, account) = insert_team_rows k team i db db' h in
            let db'' : Database = record db' {
              installation = some (record { initial_team_id = some k; completed_by = some i });
            } in
            rw (e, h, Teams.create_first_team)
              (ground (
                arith,
                g t,
                put-IsLed t k i team_leader db db'' m
                    (λ d. ground (arith, s, lookup-put k t team db.teams)) w
                    (ground (arith, s, lookup-put k k team db.teams)) account,
              ))
      ]
    ]

add-IsLed :
    (t k i : ℕ) (role : TeamRole) (db : Database)
    → AreLed db
    → IsLed t (Teams.add_member k i role db).1
unfolding Teams.add_member
add-IsLed t k i role db g =
    let db' : Database = record db { memberships = put (k, i) role db.memberships } in
    ground (
      arith,
      g t,
      λ (x : is_some (lookup k db.teams) ≡ true) (y : is_some (lookup i db.users) ≡ true)
            (z : require_team_leader k db' ≡ true).
          put-IsLed t k i role db db' refl (λ d. refl) refl x y z g,
    )

remove_member-IsLed :
    (t k i : ℕ) (db : Database) → AreLed db → IsLed t (Teams.remove_member k i db).1
unfolding Teams.remove_member
remove_member-IsLed t k i db g =
    let db' : Database = record db { memberships = remove (k, i) db.memberships } in
    elim (Option-cases (lookup (k, i) db.memberships)) [
      | inl e ↦
          let kept = same-IsLed t db db' (remove_absent (k, i) db.memberships e) refl refl g in
          ground (arith, g t, kept)
      | inr (role, e) ↦
          ground
            (arith, e, g t, λ (z : require_team_leader k db' ≡ true). remove-IsLed t k i db z g)
    ]

delete-IsLed : (t i : ℕ) (db : Database) → AreLed db → IsLed t (Auth.delete_if_unused i db).1
unfolding Auth.delete_if_unused
delete-IsLed t i db g = elim (Option-cases (lookup i db.users)) [
  | inl e ↦ rw (e, Auth.delete_if_unused) (g t)
  | inr (a, e) ↦
      rw (e, Auth.delete_if_unused)
        (elim (Bool-cases (Auth.has_history i db)) [
          | inl h ↦ rw h (g t)
          | inr h ↦ rw h (ground (arith, g t, without-IsLed t i db))
        ])
]

global_led :
    (t k : ℕ) (enabled : Bool) (db : Database)
    → is_some (lookup t (Teams.set_global_search k enabled db).teams) ≡ is_some (lookup t db.teams)
unfolding Teams.set_global_search
global_led t k enabled db = elim (Option-cases (lookup k db.teams)) [
  | inl e ↦ rw (e, Teams.set_global_search) refl
  | inr (team, e) ↦
      rw (e, Teams.set_global_search)
        (ground (arith, lookup-put k t (record team { has_global_search = enabled }) db.teams))
]

totp-IsLed :
    (t i : ℕ) (secret : ProtectedSecret) (hashes : Option (List Text)) (promote : Bool)
    (db : Database)
    → AreLed db
    → IsLed t (Auth.enable_totp i secret hashes promote db).1
unfolding Auth.enable_totp
totp-IsLed t i secret hashes promote db g = elim (Option-cases (lookup i db.users)) [
  | inl e ↦ rw (e, Auth.enable_totp) (ground (arith, g t))
  | inr (a, e) ↦
      let a' : Account = Auth.with_totp secret promote a in
      let db' : Database = record db {
        users = put i a' db.users;
        recovery_codes = Auth.enrolled_codes i hashes db.recovery_codes;
      } in
      rw (e, Auth.enable_totp) (ground (arith, g t, account-IsLed t i a' db db' refl refl refl g))
]

disable-IsLed : (t i : ℕ) (db : Database) → AreLed db → IsLed t (Auth.disable_totp i db).1
unfolding Auth.disable_totp
disable-IsLed t i db g = elim (Option-cases (lookup i db.users)) [
  | inl e ↦ rw (e, Auth.disable_totp) (same-IsLed t db _ refl refl refl g)
  | inr (a, e) ↦
      let a' : Account = record a { mfa_enabled = false; mfa_secret = none } in
      let db' : Database = record db {
        users = put i a' db.users;
        recovery_codes = Auth.left_codes i db;
      } in
      rw (e, Auth.disable_totp) (ground (arith, g t, account-IsLed t i a' db db' refl refl refl g))
]

passkey-IsLed :
    (t : ℕ) (c : WebAuthnCredential) (hashes : Option (List Text)) (promote : Bool) (db : Database)
    → AreLed db
    → IsLed t (Auth.add_webauthn_credential c hashes promote db).1
unfolding Auth.add_webauthn_credential
passkey-IsLed t c hashes promote db g = elim (Option-cases (lookup c.user_id db.users)) [
  | inl e ↦ rw (e, Auth.add_webauthn_credential) (ground (arith, g t))
  | inr (a, e) ↦
      let a' : Account = if promote then Auth.promoted a else a in
      let db' : Database = record db {
        users = put c.user_id a' db.users;
        passkeys = c ∷ db.passkeys;
        recovery_codes = Auth.enrolled_codes c.user_id hashes db.recovery_codes;
      } in
      let kept = account-IsLed t c.user_id a' db db' refl refl refl g in
      rw (e, Auth.add_webauthn_credential)
        (elim (Bool-cases (Auth.added_holds promote c.user_id a' db')) [
          | inl h ↦ rw h (ground (arith, g t, kept))
          | inr h ↦ rw h (ground (arith, g t))
        ])
]

-- One transaction keeps every team's leader.
run-AreLed : (u : Unicode) (x : Transaction) (db : Database) → AreLed db → AreLed (run u x db)
unfolding run Auth.create_user Auth.create_account Auth.promote_now Auth.set_pending_site_admin
    Auth.consume_recovery_code Auth.deactivate Auth.reactivate Auth.demote Auth.set_password
    Auth.touch_webauthn_credential Auth.remove_webauthn_credential Teams.set_global_search
    Teams.create_invite Teams.delete_invite Teams.mark_invite_accepted
run-AreLed u (creates_user i email hash admin) db g t =
    insert-IsLed u t i (Auth.new_account u email hash admin) db g
run-AreLed u (creates_account i email hash) db g t =
    ground (arith, g t, insert-IsLed u t i (Auth.new_account u email hash false) db)
run-AreLed u (enables_totp i secret hashes promote) db g t =
    totp-IsLed t i secret hashes promote db g
run-AreLed u (disables_totp i) db g t = disable-IsLed t i db g
run-AreLed u (adds_passkey c hashes promote) db g t = passkey-IsLed t c hashes promote db g
run-AreLed u (removes_passkey i c) db g t =
    same-IsLed t db (Auth.remove_webauthn_credential i c db).1 (ground arith) (ground arith)
      (ground arith) g
run-AreLed u (touches_passkey c n) db g t = same-IsLed t db _ refl refl refl g
run-AreLed u (promotes i) db g t = change-IsLed t i Auth.promoted (Auth.admin_triggers i) db g
run-AreLed u (sets_pending i pending) db g t =
    change-IsLed t i (λ a. record a { pending_site_admin = pending }) Auth.no_trigger db g
run-AreLed u (spends_code now i hash) db g t = same-IsLed t db _ refl refl refl g
run-AreLed u (deactivates now i actor) db g t =
    change-IsLed t i (Auth.deactivated now actor) require_site_admin db g
run-AreLed u (reactivates i) db g t = change-IsLed t i Auth.reactivated require_site_admin db g
run-AreLed u (demotes i) db g t = change-IsLed t i Auth.demoted (Auth.admin_triggers i) db g
run-AreLed u (sets_password i hash) db g t =
    change-IsLed t i (λ a. record a { password_hash = hash }) Auth.no_trigger db g
run-AreLed u (deletes i) db g t = delete-IsLed t i db g
run-AreLed u (sets_global_search k enabled) db g t =
    others-IsLed t db (Teams.set_global_search k enabled db) (ground arith)
      (global_led t k enabled db) (λ i h. ground arith) g
run-AreLed u (creates_first_team k slug name i) db g t = first_team-IsLed t k i slug name db g
run-AreLed u (creates_team k slug name by leader) db g t =
    create_team-IsLed t k leader by slug name db g
run-AreLed u (adds_member k i role) db g t = add-IsLed t k i role db g
run-AreLed u (removes_member k i) db g t = remove_member-IsLed t k i db g
run-AreLed u (creates_invite v) db g t =
    same-IsLed t db (Teams.create_invite v db).1 (ground arith) (ground arith) (ground arith) g
run-AreLed u (deletes_invite k v) db g t = same-IsLed t db _ refl refl refl g
run-AreLed u (accepts_invite now v) db g t = same-IsLed t db _ refl refl refl g

-- Whatever transactions run, in whatever order, with or without errors: if every team has a leader,
-- and every membership an account and a team that are there, that is so afterwards.
pub run_all-AreLed :
    (u : Unicode) (xs : List Transaction) (db : Database) → AreLed db → AreLed (run_all u xs db)
unfolding run_all
run_all-AreLed u [] db g = g
run_all-AreLed u (x ∷ xs) db g = run_all-AreLed u xs (run u x db) (run-AreLed u x db g)
