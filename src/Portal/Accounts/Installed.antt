-- ===== src/Portal/Accounts/Installed.antt =====
-- packages/portal/portal/repository/teams.py: the first team is created once.
use docs_pe.Common.{
  ℕ, true, false, ◌≡◌, refl, none, some, List, [], ◌∷◌, Text, arith, Option-cases, inl, inr,
  is_empty,
}
use docs_pe.Common.Unicode.{Unicode}
use docs_pe.Portal.Accounts.{
  Database, Team, Answer-cases, ok, err, provisioning, initial_team_exists,
}
use docs_pe.Portal.Accounts.Auth
use docs_pe.Portal.Accounts.Teams
use docs_pe.Portal.Accounts.Transactions.{
  Transaction, creates_user, creates_account, enables_totp, disables_totp, adds_passkey,
  removes_passkey, touches_passkey, promotes, sets_pending, spends_code, deactivates, reactivates,
  demotes, sets_password, deletes, sets_global_search, creates_first_team, creates_team,
  adds_member, removes_member, creates_invite, deletes_invite, accepts_invite, run, run_all,
}

-- The installation names a first team.
abbrev pub IsInstalled : ℕ → Database → Type 0
IsInstalled t db = (Teams.installation_status db).1 ≡ some t

installed_closed : (t : ℕ) (db : Database) → IsInstalled t db → Teams.is_uninstalled db ≡ false
unfolding Teams.installation_status
installed_closed t db h = elim (Option-cases db.installation) [
  | inl e ↦ ground (arith, h, e)
  | inr (i, e) ↦ ground (arith, h, e)
]

insert_team_installation :
    (t i : ℕ) (team : Team) (db db' : Database)
    → Teams.insert_team t team i db ≡ ok db'
    → db'.installation ≡ db.installation
unfolding Teams.insert_team
insert_team_installation t i team db db' h = ground arith

create_team_installation :
    (t i by : ℕ) (slug name : Text) (db : Database)
    → (Teams.create_team t slug name by i db).1.installation ≡ db.installation
unfolding Teams.create_team
create_team_installation t i by slug name db =
    elim (Answer-cases (Teams.insert_team t (Teams.new_team slug name by) i db)) [
      | inl (_, h) ↦ rw (h, Teams.create_team) refl
      | inr (db', h) ↦
          rw (h, Teams.create_team)
            (ground (arith, insert_team_installation t i (Teams.new_team slug name by) db db' h))
    ]

same_installation :
    (t : ℕ) (db db' : Database)
    → db'.installation ≡ db.installation
    → IsInstalled t db
    → IsInstalled t db'
unfolding Teams.installation_status
same_installation t db db' w h = rw w h

run-IsInstalled :
    (u : Unicode) (t : ℕ) (x : Transaction) (db : Database)
    → IsInstalled t db
    → IsInstalled t (run u x db)
unfolding run Auth.create_user Auth.create_account Auth.insert_account Auth.enable_totp
    Auth.disable_totp Auth.add_webauthn_credential Auth.change_account Auth.delete_if_unused
    Auth.promote_now Auth.set_pending_site_admin Auth.consume_recovery_code Auth.deactivate
    Auth.reactivate Auth.demote Auth.set_password Auth.touch_webauthn_credential
    Auth.remove_webauthn_credential Teams.set_global_search Teams.add_member Teams.remove_member
    Teams.create_invite Teams.delete_invite Teams.mark_invite_accepted Teams.create_first_team
run-IsInstalled u t (creates_first_team k slug name i) db h =
    ground (arith, h, installed_closed t db h)
run-IsInstalled u t (creates_team k slug name by leader) db h =
    same_installation t db _ (create_team_installation k leader by slug name db) h
run-IsInstalled u t (creates_user i email hash admin) db h =
    same_installation t db (run u (creates_user i email hash admin) db) (ground arith) h
run-IsInstalled u t (creates_account i email hash) db h =
    same_installation t db (run u (creates_account i email hash) db) (ground arith) h
run-IsInstalled u t (enables_totp i secret hashes promote) db h =
    same_installation t db (run u (enables_totp i secret hashes promote) db) (ground arith) h
run-IsInstalled u t (disables_totp i) db h =
    same_installation t db (run u (disables_totp i) db) (ground arith) h
run-IsInstalled u t (adds_passkey c hashes promote) db h =
    same_installation t db (run u (adds_passkey c hashes promote) db) (ground arith) h
run-IsInstalled u t (removes_passkey i c) db h =
    same_installation t db (run u (removes_passkey i c) db) (ground arith) h
run-IsInstalled u t (touches_passkey c n) db h =
    same_installation t db (run u (touches_passkey c n) db) (ground arith) h
run-IsInstalled u t (promotes i) db h =
    same_installation t db (run u (promotes i) db) (ground arith) h
run-IsInstalled u t (sets_pending i pending) db h =
    same_installation t db (run u (sets_pending i pending) db) (ground arith) h
run-IsInstalled u t (spends_code now i hash) db h =
    same_installation t db (run u (spends_code now i hash) db) (ground arith) h
run-IsInstalled u t (deactivates now i actor) db h =
    same_installation t db (run u (deactivates now i actor) db) (ground arith) h
run-IsInstalled u t (reactivates i) db h =
    same_installation t db (run u (reactivates i) db) (ground arith) h
run-IsInstalled u t (demotes i) db h =
    same_installation t db (run u (demotes i) db) (ground arith) h
run-IsInstalled u t (sets_password i hash) db h =
    same_installation t db (run u (sets_password i hash) db) (ground arith) h
run-IsInstalled u t (deletes i) db h =
    same_installation t db (run u (deletes i) db) (ground arith) h
run-IsInstalled u t (sets_global_search k enabled) db h =
    same_installation t db (run u (sets_global_search k enabled) db) (ground arith) h
run-IsInstalled u t (adds_member k i role) db h =
    same_installation t db (run u (adds_member k i role) db) (ground arith) h
run-IsInstalled u t (removes_member k i) db h =
    same_installation t db (run u (removes_member k i) db) (ground arith) h
run-IsInstalled u t (creates_invite v) db h =
    same_installation t db (run u (creates_invite v) db) (ground arith) h
run-IsInstalled u t (deletes_invite k v) db h =
    same_installation t db (run u (deletes_invite k v) db) (ground arith) h
run-IsInstalled u t (accepts_invite now v) db h =
    same_installation t db (run u (accepts_invite now v) db) (ground arith) h

run_all-IsInstalled :
    (u : Unicode) (t : ℕ) (xs : List Transaction) (db : Database)
    → IsInstalled t db
    → IsInstalled t (run_all u xs db)
unfolding run_all
run_all-IsInstalled u t [] db h = h
run_all-IsInstalled u t (x ∷ xs) db h =
    run_all-IsInstalled u t xs (run u x db) (run-IsInstalled u t x db h)

first_team_rows :
    (t i : ℕ) (slug name : Text) (db db' : Database)
    → Teams.create_first_team t slug name i db ≡ (ok t, db')
    → ((Teams.installation_status db).1 ≡ none) × (is_empty db.teams ≡ true) × IsInstalled t db'
unfolding Teams.create_first_team Teams.installation_status
first_team_rows t i slug name db db' h = elim (Option-cases db.installation) [
  | inl e ↦ ground (arith, h, e)
  | inr (s, e) ↦ elim (Answer-cases (Teams.insert_team t (Teams.new_team slug name i) i db)) [
    | inl (_, f) ↦ ground (arith, h, e, f)
    | inr (db'', f) ↦ ground (arith, h, e, f)
  ]
]

refused :
    (k j : ℕ) (other title : Text) (db : Database)
    → Teams.is_uninstalled db ≡ false
    → Teams.create_first_team k other title j db ≡ (err (provisioning initial_team_exists), db)
unfolding Teams.create_first_team
refused k j other title db h = rw (h, Teams.create_first_team) refl

-- The first team is created only where no team was and none had been recorded as the first; from
-- then on, whatever transactions run, another first team is refused, and the first stays recorded.
pub first_team_once :
    (u : Unicode) (t i : ℕ) (slug name : Text) (db db' : Database)
    → Teams.create_first_team t slug name i db ≡ (ok t, db')
    → (is_empty db.teams ≡ true)
      × ((Teams.installation_status db).1 ≡ none)
      × ((xs : List Transaction)
          → ((Teams.installation_status (run_all u xs db')).1 ≡ some t)
            × ((k j : ℕ) (other title : Text)
                → Teams.create_first_team k other title j (run_all u xs db')
                  ≡ (err (provisioning initial_team_exists), run_all u xs db')))
first_team_once u t i slug name db db' h =
    let (opened, empty, installed) = first_team_rows t i slug name db db' h in
    (
      empty,
      opened,
      λ xs.
          let kept = run_all-IsInstalled u t xs db' installed in
          (
            kept,
            λ k j other title.
                refused k j other title (run_all u xs db')
                  (installed_closed t (run_all u xs db') kept),
          ),
    )
