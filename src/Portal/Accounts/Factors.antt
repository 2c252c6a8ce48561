-- ===== src/Portal/Accounts/Factors.antt =====
-- packages/portal/portal/repository/auth.py: every site administrator keeps a second factor, and
-- each account its constraints.
use docs_pe.Common.{ℕ, false, refl, some, List, [], ◌∷◌, Text, arith, Bool-cases, inl, inr}
use docs_pe.Common.Unicode.{Unicode}
use docs_pe.Common.Dict.{put, remove}
use docs_pe.Common.Eq.{nat_eq_key, pair_eq_key}
use docs_pe.Portal.Accounts.{Database, Answer-cases, require_site_admin}
use docs_pe.Portal.Accounts.Auth
use docs_pe.Portal.Accounts.Teams
use docs_pe.Portal.Accounts.Transactions.{
  Transaction, creates_user, creates_account, enables_totp, disables_totp, adds_passkey,
  removes_passkey, touches_passkey, promotes, sets_pending, spends_code, deactivates, reactivates,
  demotes, sets_password, deletes, sets_global_search, creates_first_team, creates_team,
  adds_member, removes_member, creates_invite, deletes_invite, accepts_invite, run, run_all,
}
use docs_pe.Portal.Accounts.Guards.{
  AreGuarded, IsGuarded, add-IsGuarded, change-IsGuarded, delete-IsGuarded, disable-IsGuarded,
  insert-IsGuarded, insert_team_same, kept_factor, remove-IsGuarded, same-IsGuarded, totp-IsGuarded,
  touch-IsGuarded,
}

create_team-IsGuarded :
    (t i k j : ℕ) (slug name : Text) (db : Database)
    → AreGuarded db
    → IsGuarded j (Teams.create_team t slug name i k db).1
unfolding Teams.create_team
create_team-IsGuarded t i k j slug name db g =
    elim (Answer-cases (Teams.insert_team t (Teams.new_team slug name i) k db)) [
      | inl (e, h) ↦ rw (h, Teams.create_team) (g j)
      | inr (db', h) ↦
          let s = insert_team_same t (Teams.new_team slug name i) k db db' h in
          rw (h, Teams.create_team) (ground (arith, g j, same-IsGuarded j db db' s.0 s.1 g))
    ]

first_team-IsGuarded :
    (t i j : ℕ) (slug name : Text) (db : Database)
    → AreGuarded db
    → IsGuarded j (Teams.create_first_team t slug name i db).1
unfolding Teams.create_first_team
first_team-IsGuarded t i j slug name db g = elim (Bool-cases (Teams.is_uninstalled db)) [
  | inr e ↦ rw (e, Teams.create_first_team) (g j)
  | inl e ↦ elim (Answer-cases (Teams.insert_team t (Teams.new_team slug name i) i db)) [
    | inl (_, h) ↦ rw (e, h, Teams.create_first_team) (g j)
    | inr (db', h) ↦
        let s = insert_team_same t (Teams.new_team slug name i) i db db' h in
        let db'' : Database = record db' {
          installation = some (record { initial_team_id = some t; completed_by = some i });
        } in
        rw (e, h, Teams.create_first_team) (ground (arith, g j, same-IsGuarded j db db'' s.0 s.1 g))
  ]
]

-- One transaction keeps every account's constraints and every administrator's second factor.
pub run-AreGuarded :
    (u : Unicode) (t : Transaction) (db : Database) → AreGuarded db → AreGuarded (run u t db)
unfolding run Auth.create_user Auth.create_account Auth.promote_now Auth.set_pending_site_admin
    Auth.consume_recovery_code Auth.deactivate Auth.reactivate Auth.demote Auth.set_password
    Teams.set_global_search Teams.add_member Teams.remove_member Teams.create_invite
    Teams.delete_invite Teams.mark_invite_accepted Auth.is_consistent
run-AreGuarded u (creates_user i email hash admin) db g j =
    insert-IsGuarded u i j (Auth.new_account u email hash admin) db (ground arith) g
run-AreGuarded u (creates_account i email hash) db g j =
    ground (arith, g j, insert-IsGuarded u i j (Auth.new_account u email hash false) db)
run-AreGuarded u (enables_totp i secret hashes promote) db g j =
    totp-IsGuarded i j secret hashes promote db g
run-AreGuarded u (disables_totp i) db g j = disable-IsGuarded i j db g
run-AreGuarded u (adds_passkey c hashes promote) db g j = add-IsGuarded j c hashes promote db g
run-AreGuarded u (removes_passkey i c) db g j = remove-IsGuarded i j c db g
run-AreGuarded u (touches_passkey c n) db g j = touch-IsGuarded j c n db g
run-AreGuarded u (promotes i) db g j =
    change-IsGuarded i j Auth.promoted (Auth.admin_triggers i) db (λ a e h. ground arith) g
run-AreGuarded u (sets_pending i pending) db g j =
    change-IsGuarded i j (λ a. record a { pending_site_admin = pending }) Auth.no_trigger db
      (λ a e h. kept_factor i a (record a { pending_site_admin = pending }) db e refl refl g) g
run-AreGuarded u (spends_code now i hash) db g j = same-IsGuarded j db _ refl refl g
run-AreGuarded u (deactivates now i actor) db g j =
    change-IsGuarded i j (Auth.deactivated now actor) require_site_admin db
      (λ a e h. kept_factor i a (Auth.deactivated now actor a) db e refl refl g) g
run-AreGuarded u (reactivates i) db g j =
    change-IsGuarded i j Auth.reactivated require_site_admin db
      (λ a e h. kept_factor i a (Auth.reactivated a) db e refl refl g) g
run-AreGuarded u (demotes i) db g j =
    change-IsGuarded i j Auth.demoted (Auth.admin_triggers i) db (λ a e h. ground arith) g
run-AreGuarded u (sets_password i hash) db g j =
    change-IsGuarded i j (λ a. record a { password_hash = hash }) Auth.no_trigger db
      (λ a e h. kept_factor i a (record a { password_hash = hash }) db e refl refl g) g
run-AreGuarded u (deletes i) db g j = delete-IsGuarded i j db g
run-AreGuarded u (sets_global_search t enabled) db g j =
    same-IsGuarded j db (Teams.set_global_search t enabled db) (ground arith) (ground arith) g
run-AreGuarded u (creates_first_team t slug name i) db g j =
    first_team-IsGuarded t i j slug name db g
run-AreGuarded u (creates_team t slug name by leader) db g j =
    create_team-IsGuarded t by leader j slug name db g
run-AreGuarded u (adds_member t i role) db g j =
    ground
      (arith, g j, same-IsGuarded j db (record db { memberships = put (t, i) role db.memberships }))
run-AreGuarded u (removes_member t i) db g j =
    ground
      (arith, g j, same-IsGuarded j db (record db { memberships = remove (t, i) db.memberships }))
run-AreGuarded u (creates_invite v) db g j =
    same-IsGuarded j db (Teams.create_invite v db).1 (ground arith) (ground arith) g
run-AreGuarded u (deletes_invite t v) db g j = same-IsGuarded j db _ refl refl g
run-AreGuarded u (accepts_invite now v) db g j = same-IsGuarded j db _ refl refl g

-- Whatever transactions run, in whatever order, with or without errors: if every account meets its
-- constraints and every site administrator has TOTP or a passkey, that is so afterwards.
pub run_all-AreGuarded :
    (u : Unicode) (ts : List Transaction) (db : Database)
    → AreGuarded db
    → AreGuarded (run_all u ts db)
unfolding run_all
run_all-AreGuarded u [] db g = g
run_all-AreGuarded u (t ∷ ts) db g = run_all-AreGuarded u ts (run u t db) (run-AreGuarded u t db g)
