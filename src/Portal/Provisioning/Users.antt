-- ===== src/Portal/Provisioning/Users.antt =====
-- packages/portal/portal/application/provisioning.py: the operations of a site administrator on
-- teams and accounts. What `uuid4` draws is an argument.
use docs_pe.Common.{
  ℕ, Bool, true, false, not, Option, none, some, [], Text, if◌then◌else◌, is_empty, ◌==◌,
}
use docs_pe.Common.Unicode.{Unicode}
use docs_pe.Portal.Ephemeral.{Decimal}
use docs_pe.Portal.Accounts.{
  user_not_found, user_cannot_deactivate_self, user_last_leader, user_has_history,
  initial_team_mismatch, not_found, provisioning, team_leader, PortalUser, has_second_factor, Team,
  ◌>>=◌, ◌>>◌, return, raise, require, required, check_violation,
}
use docs_pe.Portal.Accounts.Auth
use docs_pe.Portal.Accounts.Teams
use docs_pe.Portal.Provisioning.{
  team_created, user_created, user_deactivated, user_reactivated, user_deleted, user_promoted,
  user_demoted, user_password_reset, Security, S, transact, asks, record_event, site_admin,
  site_admin_step_up, require_password, clean_name, clean_email, account_by_email, reload,
}
use docs_pe.Portal.Provisioning.Slugs.{clean_slug, unique_slug}

-- `slug` as a form gives it: no text is what an absent one is.
abbrev pub given : Option Text → Bool
given none = false
given (some slug) = not (is_empty slug)

abbrev pub slug_or_empty : Option Text → Text
slug_or_empty none = []
slug_or_empty (some slug) = slug

module _ (u : Unicode) (d : Decimal) (v : Security) where
  -- `self._slug(slug) if slug else await self._unique_slug(clean_name)`
  unfoldable pub chosen_slug : Option Text → Text → S Text
  unfolding clean_slug unique_slug
  chosen_slug slug name s =
      if given slug
      then clean_slug u (slug_or_empty slug) s
      else required (unique_slug u d name s.db.teams) check_violation s

  -- `ensure_site_admin`
  unfoldable pub ensure_site_admin : ℕ → Text → Text → S (PortalUser × Bool)
  unfolding Auth.create_account Auth.set_pending_site_admin reload
  ensure_site_admin new_id email password_hash = do
    user ← transact (Auth.create_account u new_id email password_hash)
    if has_second_factor user then return (user, false) else (do
      _ ← transact (Auth.set_pending_site_admin user.id true)
      pending ← reload user.id
      return (pending, true))

  -- `create_first_team`
  unfoldable pub create_first_team : ℕ → ℕ → Text → Option Text → S ℕ
  unfolding clean_name chosen_slug Teams.create_first_team record_event
  create_first_team actor_id new_id name slug = site_admin actor_id do
    clean ← clean_name u name
    address ← chosen_slug slug clean
    team_id ← transact (Teams.create_first_team new_id address clean actor_id)
    record_event team_created actor_id
    return team_id

  -- The end of `ensure_first_team`, where there is a team.
  unfoldable pub verify_first_team : ℕ → Option ℕ → Option (ℕ × Team) → S (ℕ × Bool)
  verify_first_team actor_id initial none = raise (provisioning initial_team_mismatch)
  verify_first_team actor_id initial (some (team_id, team)) =
      if Auth.is_reference team_id initial
      then (do transact (Teams.add_member team_id actor_id team_leader); return (team_id, false))
      else raise (provisioning initial_team_mismatch)

  -- `ensure_first_team`: whether the team was created
  unfoldable pub ensure_first_team : ℕ → ℕ → Text → Text → S (ℕ × Bool)
  unfolding clean_slug create_first_team verify_first_team Teams.installation_status
  ensure_first_team actor_id new_id name slug = site_admin actor_id do
    address ← clean_slug u slug
    status ← asks Teams.installation_status
    if status.0 == 0
        then (do
          team_id ← create_first_team actor_id new_id name (some address)
          return (team_id, true))
        else (do
          existing ← asks (Teams.team_by_slug address)
          verify_first_team actor_id status.1 existing)

  module _ (now : ℕ) (verified_at : Option ℕ) (actor_id : ℕ) where
    -- `create_team`
    unfoldable pub create_team : ℕ → Text → Option Text → Text → S ℕ
    unfolding account_by_email clean_name chosen_slug Teams.create_team record_event
    create_team new_id name slug leader_email = site_admin_step_up now verified_at actor_id do
      leader ← account_by_email u leader_email
      clean ← clean_name u name
      address ← chosen_slug slug clean
      team_id ← transact (Teams.create_team new_id address clean actor_id leader.id)
      record_event team_created actor_id
      return team_id

    -- `create_user`
    unfoldable pub create_user : ℕ → Text → Text → S PortalUser
    unfolding clean_email Auth.create_user record_event
    create_user new_id email password = site_admin_step_up now verified_at actor_id do
      require_password password
      address ← clean_email u email
      user ← transact (Auth.create_user u new_id address (v.hash_password password) false)
      record_event user_created actor_id
      return user

    -- `reset_password`
    unfoldable pub reset_password : ℕ → Text → S (Unit {0})
    unfolding Auth.set_password record_event
    reset_password user_id password = site_admin_step_up now verified_at actor_id do
      require_password password
      _ ← transact (Auth.set_password user_id (v.hash_password password))
      record_event user_password_reset actor_id

-- `_guard_account_removal`
unfoldable pub guard_account_removal : ℕ → ℕ → S (Unit {0})
unfolding Auth.user_by_id Teams.teams_where_sole_leader
guard_account_removal actor_id user_id = do
  require (not (user_id == actor_id)) (provisioning user_cannot_deactivate_self)
  found ← asks (Auth.user_by_id user_id)
  target ← required found (not_found user_not_found)
  sole_leader_of ← asks (Teams.teams_where_sole_leader user_id)
  require (is_empty sole_leader_of) (provisioning user_last_leader)

-- Each operation of an administrator who must have proved a second factor lately.
module _ (now : ℕ) (verified_at : Option ℕ) (actor_id : ℕ) where
  -- `deactivate_user`
  unfoldable pub deactivate_user : ℕ → S PortalUser
  unfolding guard_account_removal Auth.deactivate record_event
  deactivate_user user_id = site_admin_step_up now verified_at actor_id do
    guard_account_removal actor_id user_id
    user ← transact (Auth.deactivate now user_id actor_id)
    record_event user_deactivated actor_id
    return user

  -- `reactivate_user`
  unfoldable pub reactivate_user : ℕ → S PortalUser
  unfolding Auth.reactivate record_event
  reactivate_user user_id = site_admin_step_up now verified_at actor_id do
    user ← transact (Auth.reactivate user_id)
    record_event user_reactivated actor_id
    return user

  -- `delete_user`
  unfoldable pub delete_user : ℕ → S (Unit {0})
  unfolding guard_account_removal Auth.delete_if_unused record_event
  delete_user user_id = site_admin_step_up now verified_at actor_id do
    guard_account_removal actor_id user_id
    deleted ← transact (Auth.delete_if_unused user_id)
    require deleted (provisioning user_has_history)
    record_event user_deleted actor_id

  -- The middle of `promote_to_site_admin`: whether the account must enrol first.
  unfoldable pub promote_found : PortalUser → S Bool
  unfolding Auth.promote_now Auth.set_pending_site_admin
  promote_found user =
      if has_second_factor user
      then (do _ ← transact (Auth.promote_now user.id); return false)
      else (do _ ← transact (Auth.set_pending_site_admin user.id true); return true)

  -- `promote_to_site_admin`
  unfoldable pub promote_to_site_admin : ℕ → S Bool
  unfolding Auth.user_by_id promote_found record_event
  promote_to_site_admin user_id = site_admin_step_up now verified_at actor_id do
    found ← asks (Auth.user_by_id user_id)
    user ← required found (not_found user_not_found)
    if user.is_site_admin then return false else (do
      needs_setup ← promote_found user
      record_event user_promoted actor_id
      return needs_setup)

  -- `demote_site_admin`
  unfoldable pub demote_site_admin : ℕ → S PortalUser
  unfolding Auth.demote record_event
  demote_site_admin user_id = site_admin_step_up now verified_at actor_id do
    require (not (user_id == actor_id)) (provisioning user_cannot_deactivate_self)
    user ← transact (Auth.demote user_id)
    record_event user_demoted actor_id
    return user
