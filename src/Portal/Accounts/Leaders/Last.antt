-- ===== src/Portal/Accounts/Leaders/Last.antt =====
-- packages/portal/portal/repository/teams.py: when a team refuses to lose a leader.
use docs_pe.Common.{
  ℕ, suc, true, false, not, ◌&&◌, ◌≡◌, ◌<◌, ◌≤◌, refl, none, some, [], ◌∷◌, arith, Bool-cases,
  Option-cases, inl, inr, if◌then◌else◌, is_some,
}
use docs_pe.Common.Dict.{lookup, put, remove, HasUniqueKeys}
use docs_pe.Common.Eq.{nat_eq_key, pair_eq_key}
use docs_pe.Portal.Accounts.{
  TeamRole, team_leader, team_member, is_leader, leaders, Database, require_team_leader, ok, err,
  provisioning, last_leader,
}
use docs_pe.Portal.Accounts.Teams
use docs_pe.Portal.Accounts.Leaders.{Memberships, AreLed, leaders-put_leader}

-- A membership that is not there is not counted.
leaders-remove_absent :
    (t i : ℕ) (m : Memberships) → lookup (t, i) m ≡ none → leaders t (remove (t, i) m) ≡ leaders t m
unfolding leaders remove lookup
leaders-remove_absent t i [] h = refl
leaders-remove_absent t i (((s, j), r) ∷ m) h = ground (arith, leaders-remove_absent t i m)

-- With each membership once, a removal takes at most one leader.
leaders-remove_own :
    (t i : ℕ) (role : TeamRole) (m : Memberships)
    → HasUniqueKeys m
    → lookup (t, i) m ≡ some role
    → leaders t m
      ≡ (if is_leader role then suc (leaders t (remove (t, i) m)) else leaders t (remove (t, i) m))
unfolding leaders remove lookup
leaders-remove_own t i role [] w h = ground arith
leaders-remove_own t i role (((s, j), r) ∷ m) w h =
    ground (arith, leaders-remove_own t i role m w.1, leaders-remove_absent t i m)

leaders-remove-le : (t i : ℕ) (m : Memberships) → leaders t (remove (t, i) m) ≤ leaders t m
unfolding leaders remove
leaders-remove-le t i [] = ground arith
leaders-remove-le t i (((s, j), r) ∷ m) = ground (arith, leaders-remove-le t i m)

leaders-put_own :
    (t i : ℕ) (m : Memberships) → leaders t (remove (t, i) m) ≤ leaders t (put (t, i) team_member m)
unfolding leaders remove put
leaders-put_own t i [] = ground arith
leaders-put_own t i (((s, j), r) ∷ m) =
    ground (arith, leaders-put_own t i m, leaders-remove-le t i m)

-- The leaders that a team keeps when one of two or more becomes a member or goes.
remaining :
    (t i : ℕ) (db : Database)
    → HasUniqueKeys db.memberships
    → 0 < leaders t db.memberships
    → Teams.loses_last_leader t i db ≡ false
    → 0 < leaders t (remove (t, i) db.memberships)
unfolding Teams.role_for
remaining t i db w some_leader kept = elim (Option-cases (lookup (t, i) db.memberships)) [
  | inl e ↦ ground (arith, leaders-remove_absent t i db.memberships e)
  | inr (role, e) ↦ ground (arith, e, leaders-remove_own t i role db.memberships w e)
]

team_led :
    (t : ℕ) (db : Database)
    → is_some (lookup t db.teams) ≡ true
    → AreLed db
    → 0 < leaders t db.memberships
unfolding require_team_leader
team_led t db there g = ground (arith, (g t).led)

-- In tables where every team is led and each membership stands once, a removal from a team that is
-- there is refused, as the last leader's, exactly where the member leads it alone; otherwise it
-- commits, and takes that membership only. The check at the commit never stops it.
pub remove_member_lem :
    (t i : ℕ) (db : Database)
    → AreLed db
    → HasUniqueKeys db.memberships
    → is_some (lookup t db.teams) ≡ true
    → Teams.remove_member t i db ≡ (
        if Teams.loses_last_leader t i db
        then (err (provisioning last_leader), db)
        else (ok tt, record db { memberships = remove (t, i) db.memberships }))
unfolding Teams.remove_member require_team_leader
remove_member_lem t i db g w there = elim (Bool-cases (Teams.loses_last_leader t i db)) [
  | inl e ↦ ground (arith, there, e)
  | inr e ↦ ground (arith, there, e, remaining t i db w (team_led t db there g) e)
]

-- The same of adding a member or changing a role: it is refused as the last leader's exactly where a
-- sole leader would become a member, and an account that is there is otherwise given the role.
pub add_member_lem :
    (t i : ℕ) (role : TeamRole) (db : Database)
    → AreLed db
    → HasUniqueKeys db.memberships
    → is_some (lookup t db.teams) ≡ true
    → is_some (lookup i db.users) ≡ true
    → Teams.add_member t i role db ≡ (
        if not (is_leader role) && Teams.loses_last_leader t i db
        then (err (provisioning last_leader), db)
        else (ok tt, record db { memberships = put (t, i) role db.memberships }))
unfolding Teams.add_member require_team_leader
add_member_lem t i team_leader db g w there known =
    ground (arith, there, known, leaders-put_leader t i db.memberships)
add_member_lem t i team_member db g w there known =
    elim (Bool-cases (Teams.loses_last_leader t i db)) [
      | inl e ↦ ground (arith, there, e)
      | inr e ↦ ground (
        arith,
        there,
        known,
        e,
        remaining t i db w (team_led t db there g) e,
        leaders-put_own t i db.memberships,
      )
    ]
