-- ===== src/Portal/Provisioning/Reads.antt =====
-- packages/portal/portal/application/provisioning.py: what a site administrator reads, with the
-- queries of packages/portal/portal/repository/teams.py under it, whose rows come in no order here;
-- and `set_global_search` of packages/portal/portal/application/service.py.
use docs_pe.Common.{
  ℕ, Bool, false, not, ◌&&◌, Option, none, some, List, [], ◌∷◌, Text, text, map, leb, is_some, ◌==◌,
  if◌then◌else◌,
}
use docs_pe.Common.Dict.{lookup}
use docs_pe.Common.Eq.{nat_eq_key, pair_eq_key}
use docs_pe.Portal.Accounts.{
  TeamRole, PortalUser, Team, user_row, user_not_found, not_found, required,
}
use docs_pe.Portal.Accounts.Auth
use docs_pe.Portal.Accounts.Teams
use docs_pe.Portal.Provisioning.{S, asks, execute, site_admin}

pub record InstallationStatus : Type 0 where
  pub team_count : ℕ
  pub initial_team_id : Option ℕ
  pub can_create_first_team : Bool
  pub next_step : Text

abbrev pub status_of : ℕ → Option ℕ → InstallationStatus
status_of team_count initial_team_id =
    let can = team_count == 0 && not (is_some initial_team_id) in
    record {
      team_count = team_count;
      initial_team_id = initial_team_id;
      can_create_first_team = can;
      next_step = if can then text "create_first_team" else text "manage_site";
    }

-- `installation_status`
unfoldable pub installation_status : ℕ → S InstallationStatus
unfolding Teams.installation_status
installation_status actor_id =
    site_admin actor_id
      (asks (λ db. status_of (Teams.installation_status db).0 (Teams.installation_status db).1))

-- `users`
unfoldable pub users : ℕ → S (List PortalUser)
unfolding user_row
users actor_id = site_admin actor_id (asks (λ db. map (λ e. user_row db.passkeys e.0 e.1) db.users))

-- `user_detail`
unfoldable pub user_detail : ℕ → ℕ → S PortalUser
unfolding Auth.user_by_id
user_detail actor_id user_id =
    site_admin actor_id (λ s. required (Auth.user_by_id user_id s.db) (not_found user_not_found) s)

-- The teams of an account, with its role in each.
unfoldable pub teams_of :
    ℕ → List ((ℕ × ℕ) × TeamRole) → List (ℕ × Team) → List (ℕ × Text × Text × TeamRole)
teams_of user_id memberships [] = []
teams_of user_id memberships ((i, t) ∷ ts) =
    let rest = teams_of user_id memberships ts in
    elim (lookup (i, user_id) memberships) [
      | none ↦ rest
      | some role ↦ (i, t.slug, t.name, role) ∷ rest
    ]

-- `teams_for_user`
unfoldable pub teams_for_user : ℕ → ℕ → S (List (ℕ × Text × Text × TeamRole))
unfolding teams_of
teams_for_user actor_id user_id =
    site_admin actor_id (asks (λ db. teams_of user_id db.memberships db.teams))

abbrev pub is_sole : Option PortalUser → ℕ → Bool
is_sole none n = false
is_sole (some user) n = user.is_site_admin && (user.is_active && leb n 1)

-- `is_sole_active_admin`
unfoldable pub is_sole_active_admin : ℕ → ℕ → S Bool
unfolding Auth.user_by_id Auth.count_active_site_admins
is_sole_active_admin actor_id user_id =
    site_admin actor_id
      (asks (λ db. is_sole (Auth.user_by_id user_id db) (Auth.count_active_site_admins db.users)))

-- `teams`
unfoldable pub teams : ℕ → S (List (ℕ × Team))
teams actor_id = site_admin actor_id (asks (λ db. db.teams))

-- `set_global_search` of service.py
unfoldable pub set_global_search : ℕ → ℕ → Bool → S (Unit {0})
unfolding Teams.set_global_search
set_global_search actor_id team_id enabled =
    site_admin actor_id (execute (Teams.set_global_search team_id enabled))
