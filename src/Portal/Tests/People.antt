-- ===== src/Portal/Tests/People.antt =====
-- packages/portal: the theorems on accounts, teams and provisioning at concrete inputs.
use docs_pe.Common.{
  ℕ, ◌≡◌, refl, Bool, true, false, none, some, List, [], ◌∷◌, Text, text, arith, if◌then◌else◌,
  is_some, is_empty, text_eq,
}
use docs_pe.Common.Dict.{lookup, put, remove, HasUniqueKeys}
use docs_pe.Common.Eq.{nat_eq_key, pair_eq_key}
use docs_pe.Portal.Accounts.{
  ok, err, provisioning, initial_team_exists, last_leader, team_leader, team_member,
  ProtectedSecret, Account, Database, has_required_factor, require_admin_second_factor,
  require_team_leader, require_site_admin, leaders,
}
use docs_pe.Portal.Accounts.Auth
use docs_pe.Portal.Accounts.Teams
use docs_pe.Portal.Accounts.Transactions.{
  Transaction, deletes, demotes, disables_totp, removes_member, deactivates, creates_user, run_all,
}
use docs_pe.Portal.Accounts.Guards.{AreGuarded}
use docs_pe.Portal.Accounts.Factors.{run_all-AreGuarded}
use docs_pe.Portal.Accounts.Leaders.{AreLed}
use docs_pe.Portal.Accounts.Leaders.Runs.{run_all-AreLed}
use docs_pe.Portal.Accounts.Leaders.Last.{remove_member_lem}
use docs_pe.Portal.Accounts.Admins.{run_all_keeps_admin}
use docs_pe.Portal.Accounts.Installed.{first_team_once}
use docs_pe.Portal.Tests.{ascii}

abbrev secret : ProtectedSecret
secret = record { ciphertext = []; wrapped_data_key = []; master_key_version = text "1" }

abbrev pub person : Text → Bool → Account
person email is_site_admin = record {
  email = email;
  password_hash = text "hash";
  is_site_admin = is_site_admin;
  pending_site_admin = false;
  deactivated_at = none;
  deactivated_by = none;
  is_active = true;
  mfa_secret = some secret;
  mfa_enabled = true;
}

-- Two administrators, 1 and 2; team 7 is led by the account 3, with the member 1.
abbrev pub office : Database
office = record {
  users =
      (1, person (text "a@a.pe") true)
      ∷ (2, person (text "b@a.pe") true)
      ∷ (3, person (text "c@a.pe") false)
      ∷ [];
  passkeys = [];
  recovery_codes = [];
  teams =
      (
        7,
        record {
          slug = text "lima";
          name = text "Lima";
          has_global_search = false;
          created_by = 3;
        },
      )
      ∷ [];
  memberships = ((7, 3), team_leader) ∷ ((7, 1), team_member) ∷ [];
  invites = [];
  installation = some (record { initial_team_id = none; completed_by = none });
  referenced = [];
}

office-AreGuarded : AreGuarded office
unfolding lookup require_admin_second_factor has_required_factor Auth.is_consistent
office-AreGuarded i = record { factor = ground arith; consistent = λ a h. ground (arith, h) }

office-AreLed : AreLed office
unfolding lookup require_team_leader leaders
office-AreLed t = record {
  led = ground arith;
  team_there = λ i role h. ground (arith, h);
  account_there = λ i role h. ground (arith, h);
}

abbrev requests : List Transaction
requests =
    demotes 1
    ∷ disables_totp 2
    ∷ removes_member 7 3
    ∷ creates_user 4 (text "d@a.pe") (text "hash") true
    ∷ deactivates 50 2 1
    ∷ []

run_all-AreGuarded_example : AreGuarded (run_all ascii requests office)
run_all-AreGuarded_example = run_all-AreGuarded ascii requests office office-AreGuarded

run_all-AreLed_example : AreLed (run_all ascii requests office)
run_all-AreLed_example = run_all-AreLed ascii requests office office-AreLed

has_admin : require_site_admin office ≡ true
unfolding require_site_admin
has_admin = refl

run_all_keeps_admin_example : require_site_admin (run_all ascii requests office) ≡ true
run_all_keeps_admin_example =
    run_all_keeps_admin ascii requests office (refl, (refl, (refl, (refl, (refl, tt))))) has_admin

-- Each of two administrators deletes the other, both past their guards: none is left.
last_admins_deleted : require_site_admin (run_all ascii (deletes 2 ∷ deletes 1 ∷ []) office) ≡ false
unfolding run_all Auth.delete_if_unused require_team_leader leaders require_site_admin lookup remove
last_admins_deleted = refl

members_once : HasUniqueKeys office.memberships
unfolding lookup
members_once = (refl, (refl, tt))

team_there : is_some (lookup 7 office.teams) ≡ true
unfolding lookup
team_there = refl

remove_member_lem_example : Teams.remove_member 7 3 office ≡ (
    if Teams.loses_last_leader 7 3 office
    then (err (provisioning last_leader), office)
    else (ok tt, record office { memberships = remove (7, 3) office.memberships }))
remove_member_lem_example = remove_member_lem 7 3 office office-AreLed members_once team_there

abbrev fresh_office : Database
fresh_office = record office { teams = []; memberships = [] }

abbrev founded : Database
founded = (Teams.create_first_team 9 (text "lima-sur") (text "Lima Sur") 1 fresh_office).1

founding :
    Teams.create_first_team 9 (text "lima-sur") (text "Lima Sur") 1 fresh_office ≡ (ok 9, founded)
unfolding Teams.create_first_team lookup put leaders require_team_leader text_eq
founding = refl

first_team_once_example :
    (is_empty fresh_office.teams ≡ true)
    × ((Teams.installation_status fresh_office).1 ≡ none)
    × ((xs : List Transaction)
        → ((Teams.installation_status (run_all ascii xs founded)).1 ≡ some 9)
          × ((k j : ℕ) (other title : Text)
              → Teams.create_first_team k other title j (run_all ascii xs founded)
                ≡ (err (provisioning initial_team_exists), run_all ascii xs founded)))
first_team_once_example =
    first_team_once ascii 9 1 (text "lima-sur") (text "Lima Sur") fresh_office founded founding
