-- ===== src/Portal/Accounts/Teams.antt =====
-- packages/portal/portal/repository/teams.py and `lock_team_row` of
-- packages/portal/portal/repository/shared.py. Each function is one transaction; `now()` and the
-- ids that `uuid4` draws are arguments. A role other than the two of `TeamRole` does not occur, so
-- the test of `add_member` for it has no model.
use docs_pe.Common.{
  ℕ, Bool, false, not, ◌&&◌, ◌||◌, Option, none, some, List, [], ◌∷◌, Text, leb, if◌then◌else◌, any,
  all, text_eq, is_some, is_empty, ◌==◌, length,
}
use docs_pe.Common.Dict.{lookup, put, remove}
use docs_pe.Common.Table.{first, select, update, delete}
use docs_pe.Common.Eq.{nat_eq_key, pair_eq_key}
use docs_pe.Portal.Accounts.{
  initial_team_exists, team_missing, last_leader, not_found, provisioning, check_violation,
  unique_violation, foreign_key_violation, Answer, ok, err, TeamRole, team_leader, is_leader, Team,
  TeamInvite, Database, leaders, require_team_leader, M, commit, is_pending,
}

-- `role_for`
unfoldable pub role_for : ℕ → ℕ → Database → Option TeamRole
role_for actor_id team_id db = lookup (team_id, actor_id) db.memberships

abbrev pub is_lower_alnum : ℕ → Bool
is_lower_alnum c = (leb b'a' c && leb c b'z') || (leb b'0' c && leb c b'9')

-- ^[a-z0-9][a-z0-9-]{1,62}$
unfoldable pub is_slug : Text → Bool
is_slug [] = false
is_slug (c ∷ cs) =
    is_lower_alnum c
    && (leb 1 (length cs) && (leb (length cs) 62 && all (λ d. is_lower_alnum d || d == b'-') cs))

-- The first team that passes a test, with its id.
unfoldable pub find_team : (Team → Bool) → List (ℕ × Team) → Option (ℕ × Team)
find_team p [] = none
find_team p ((i, t) ∷ ts) = let rest = find_team p ts in if p t then some (i, t) else rest

abbrev pub has_slug : Text → Team → Bool
has_slug slug t = text_eq t.slug slug

-- `team_by_slug`
unfoldable pub team_by_slug : Text → Database → Option (ℕ × Team)
unfolding find_team
team_by_slug slug db = find_team (has_slug slug) db.teams

abbrev pub has_global : List (ℕ × Team) → ℕ → Bool
has_global teams team_id = elim (lookup team_id teams) [
  | none ↦ false
  | some t ↦ t.has_global_search
]

-- `any_team_has_global_search`
unfoldable pub any_team_has_global_search : ℕ → Database → Bool
any_team_has_global_search actor_id db =
    any (λ m. m.0.1 == actor_id && has_global db.teams m.0.0) db.memberships

-- `set_global_search`
unfoldable pub set_global_search : ℕ → Bool → Database → Database
set_global_search team_id enabled db = elim (lookup team_id db.teams) [
  | none ↦ db
  | some t ↦ record db { teams = put team_id (record t { has_global_search = enabled }) db.teams }
]

abbrev pub leads_alone : ℕ → List ((ℕ × ℕ) × TeamRole) → ℕ × Team → Bool
leads_alone user_id memberships (i, t) =
    (elim (lookup (i, user_id) memberships) [ none ↦ false | some role ↦ is_leader role ])
    && leb (leaders i memberships) 1

-- `teams_where_sole_leader`
unfoldable pub teams_where_sole_leader : ℕ → Database → List (ℕ × Team)
teams_where_sole_leader user_id db = select (leads_alone user_id db.memberships) db.teams

abbrev pub new_team : Text → Text → ℕ → Team
new_team slug name created_by = record {
  slug = slug;
  name = name;
  has_global_search = false;
  created_by = created_by;
}

-- INSERT INTO portal_teams, and its leader into portal_team_memberships, without the commit.
unfoldable pub insert_team : ℕ → Team → ℕ → Database → Answer Database
unfolding is_slug find_team
insert_team team_id team leader_id db =
    if not (is_slug team.slug && any (λ c. not (c == b' ')) team.name)
    then err check_violation
    else if is_some (find_team (has_slug team.slug) db.teams) || is_some (lookup team_id db.teams)
    then err unique_violation
    else if is_some (lookup team.created_by db.users) && is_some (lookup leader_id db.users)
    then ok (record db {
      teams = put team_id team db.teams;
      memberships = put (team_id, leader_id) team_leader db.memberships;
    })
    else err foreign_key_violation

-- `create_team`
unfoldable pub create_team : ℕ → Text → Text → ℕ → ℕ → M ℕ
unfolding insert_team
create_team team_id slug name created_by leader_id db =
    elim (insert_team team_id (new_team slug name created_by) leader_id db) [
      | err e ↦ (err e, db)
      | ok db' ↦ commit (require_team_leader team_id db') team_id db' db
    ]

-- `installation_status`
unfoldable pub installation_status : Database → ℕ × Option ℕ
installation_status db =
    (length db.teams, elim db.installation [ none ↦ none | some i ↦ i.initial_team_id ])

-- Whether the first team can still be created.
abbrev pub is_uninstalled : Database → Bool
is_uninstalled db = elim db.installation [
  | none ↦ false
  | some i ↦ not (is_some i.initial_team_id) && is_empty db.teams
]

-- `create_first_team`
unfoldable pub create_first_team : ℕ → Text → Text → ℕ → M ℕ
unfolding insert_team
create_first_team team_id slug name actor_id db =
    if is_uninstalled db
    then elim (insert_team team_id (new_team slug name actor_id) actor_id db) [
      | err e ↦ (err e, db)
      | ok db' ↦
          let db'' : Database = record db' {
            installation =
                some (record { initial_team_id = some team_id; completed_by = some actor_id });
          } in
          commit (require_team_leader team_id db'') team_id db'' db
    ]
    else (err (provisioning initial_team_exists), db)

abbrev pub is_team_leader : Option TeamRole → Bool
is_team_leader none = false
is_team_leader (some role) = is_leader role

-- `_check_not_last_leader`, where the call demands it
abbrev pub loses_last_leader : ℕ → ℕ → Database → Bool
loses_last_leader team_id user_id db =
    is_team_leader (role_for user_id team_id db) && leb (leaders team_id db.memberships) 1

-- `add_member`
unfoldable pub add_member : ℕ → ℕ → TeamRole → M (Unit {0})
unfolding role_for
add_member team_id user_id role db =
    if not (is_some (lookup team_id db.teams))
    then (err (not_found team_missing), db)
    else if not (is_leader role) && loses_last_leader team_id user_id db
    then (err (provisioning last_leader), db)
    else if not (is_some (lookup user_id db.users))
    then (err foreign_key_violation, db)
    else let db' : Database = record db {
      memberships = put (team_id, user_id) role db.memberships;
    } in
      commit (require_team_leader team_id db') tt db' db

-- `remove_member`
unfoldable pub remove_member : ℕ → ℕ → M (Unit {0})
unfolding role_for
remove_member team_id user_id db =
    if not (is_some (lookup team_id db.teams))
    then (err (not_found team_missing), db)
    else if loses_last_leader team_id user_id db
    then (err (provisioning last_leader), db)
    else let db' : Database = record db {
      memberships = remove (team_id, user_id) db.memberships;
    } in
      commit
        (not (is_some (lookup (team_id, user_id) db.memberships))
          || require_team_leader team_id db')
        tt db' db

abbrev pub is_invite_of : ℕ → Text → TeamInvite → Bool
is_invite_of team_id email v = v.team_id == team_id && text_eq v.email email

-- `create_invite`: the invite that the team has for the email, if any, is written anew
unfoldable pub create_invite : TeamInvite → M (Unit {0})
create_invite invite db =
    if not (is_some (lookup invite.team_id db.teams) && is_some (lookup invite.invited_by db.users))
    then (err foreign_key_violation, db)
    else if any
        (λ v.
          text_eq v.token_hash invite.token_hash
          && not (is_invite_of invite.team_id invite.email v))
        db.invites
    then (err unique_violation, db)
    else (
      ok tt,
      record db {
        invites =
            if any (is_invite_of invite.team_id invite.email) db.invites
            then update (is_invite_of invite.team_id invite.email) (λ v. invite) db.invites
            else invite ∷ db.invites;
      },
    )

-- `invite_by_token_hash`
unfoldable pub invite_by_token_hash : Text → Database → Option TeamInvite
invite_by_token_hash token_hash db = first (λ v. text_eq v.token_hash token_hash) db.invites

-- `pending_invites_for_team`, in the table's order
unfoldable pub pending_invites_for_team : ℕ → Database → List TeamInvite
pending_invites_for_team team_id db = select (λ v. v.team_id == team_id && is_pending v) db.invites

-- `delete_invite`
unfoldable pub delete_invite : ℕ → ℕ → Database → Database
delete_invite team_id invite_id db = record db {
  invites = delete (λ v. v.id == invite_id && v.team_id == team_id) db.invites;
}

-- `mark_invite_accepted`
unfoldable pub mark_invite_accepted : ℕ → ℕ → Database → Database
mark_invite_accepted now invite_id db = record db {
  invites = update (λ v. v.id == invite_id) (λ v. record v { accepted_at = some now }) db.invites;
}
