-- ===== src/Portal/Provisioning/Members.antt =====
-- packages/portal/portal/application/provisioning.py: members and invitations of a team. Mails are
-- listed by their address and token.
use docs_pe.Common.{ℕ, ◌+◌, Bool, false, ◌&&◌, Option, none, some, List, ◌∷◌, Text, ltb, ◌==◌}
use docs_pe.Common.Unicode.{Unicode}
use docs_pe.Common.Table.{first}
use docs_pe.Portal.Accounts.{
  invite_invalid, not_found, ok, PortalUser, TeamRole, TeamInvite, is_pending, ◌>>=◌, ◌>>◌, return,
  require, required,
}
use docs_pe.Portal.Accounts.Auth
use docs_pe.Portal.Accounts.Teams
use docs_pe.Portal.Provisioning.{
  member_added, member_removed, invite_sent, invite_accepted, Security, S, transact, execute, asks,
  record_event, site_admin_or_leader, require_password, clean_email, account_by_email,
}

abbrev pub invite_ttl : ℕ
invite_ttl = 604800000

-- `self._mailer.send`
unfoldable pub send_mail : Text → Text → S (Unit {0})
send_mail address token s = (ok tt, record s { mails = (address, token) ∷ s.mails })

module _ (u : Unicode) (v : Security) where
  -- `_send_invite`
  unfoldable pub send_invite : ℕ → ℕ → ℕ → Text → ℕ → Text → TeamRole → S (Unit {0})
  unfolding Teams.create_invite send_mail record_event
  send_invite now new_id actor_id token team_id email role = do
    transact (
        Teams.create_invite (record {
          id = new_id;
          team_id = team_id;
          email = email;
          role = role;
          token_hash = v.token_hash token;
          invited_by = actor_id;
          created_at = now;
          expires_at = now + invite_ttl;
          accepted_at = none;
        }))
    send_mail email token
    record_event invite_sent actor_id

  -- The end of `invite_or_add_member`: whoever has an account is added, others get a mail.
  unfoldable pub add_or_invite :
      ℕ → ℕ → ℕ → Text → ℕ → Text → TeamRole → Option (PortalUser × Text) → S (Unit {0})
  unfolding send_invite Teams.add_member record_event
  add_or_invite now new_id actor_id token team_id email role none =
      send_invite now new_id actor_id token team_id email role
  add_or_invite now new_id actor_id token team_id email role (some (member, hash)) = do
    transact (Teams.add_member team_id member.id role)
    record_event member_added actor_id

  -- `invite_or_add_member`
  unfoldable pub invite_or_add_member : ℕ → ℕ → ℕ → Text → ℕ → Text → TeamRole → S (Unit {0})
  unfolding clean_email Auth.user_by_email add_or_invite
  invite_or_add_member now new_id actor_id token team_id email role =
      site_admin_or_leader actor_id team_id do
        address ← clean_email u email
        found ← asks (Auth.user_by_email u address)
        add_or_invite now new_id actor_id token team_id address role found

  -- `resend_invite`
  unfoldable pub resend_invite : ℕ → ℕ → ℕ → Text → ℕ → ℕ → S (Unit {0})
  unfolding Teams.pending_invites_for_team send_invite
  resend_invite now new_id actor_id token team_id invite_id =
      site_admin_or_leader actor_id team_id do
        invites ← asks (Teams.pending_invites_for_team team_id)
        invite ← required (first (λ v. v.id == invite_id) invites) (not_found invite_invalid)
        send_invite now new_id actor_id token team_id invite.email invite.role

  abbrev pub is_redeemable : ℕ → TeamInvite → Bool
  is_redeemable now invite = is_pending invite && ltb now invite.expires_at

  -- `_valid_invite`, which is `invite_preview` too
  unfoldable pub valid_invite : ℕ → Text → S TeamInvite
  unfolding Teams.invite_by_token_hash
  valid_invite now token = do
    found ← asks (Teams.invite_by_token_hash (v.token_hash token))
    invite ← required found (not_found invite_invalid)
    require (is_redeemable now invite) (not_found invite_invalid)
    return invite

  -- The account of an invited address, which is created if there is none.
  unfoldable pub invited_account : ℕ → Text → Text → Option (PortalUser × Text) → S PortalUser
  unfolding Auth.create_user
  invited_account new_id email password none =
      transact (Auth.create_user u new_id email (v.hash_password password) false)
  invited_account new_id email password (some (user, hash)) = return user

  -- `redeem_invite`
  unfoldable pub redeem_invite : ℕ → ℕ → ℕ → Text → Text → S PortalUser
  unfolding valid_invite Auth.user_by_email invited_account Teams.add_member
      Teams.mark_invite_accepted record_event
  redeem_invite now accepted new_id token password = do
    invite ← valid_invite now token
    require_password password
    found ← asks (Auth.user_by_email u invite.email)
    user ← invited_account new_id invite.email password found
    transact (Teams.add_member invite.team_id user.id invite.role)
    execute (Teams.mark_invite_accepted accepted invite.id)
    record_event invite_accepted user.id
    return user

  -- `remove_member`
  unfoldable pub remove_member : ℕ → ℕ → Text → S (Unit {0})
  unfolding account_by_email Teams.remove_member record_event
  remove_member actor_id team_id email = site_admin_or_leader actor_id team_id do
    member ← account_by_email u email
    transact (Teams.remove_member team_id member.id)
    record_event member_removed actor_id

-- `cancel_invite`
unfoldable pub cancel_invite : ℕ → ℕ → ℕ → S (Unit {0})
unfolding Teams.delete_invite
cancel_invite actor_id team_id invite_id =
    site_admin_or_leader actor_id team_id (execute (Teams.delete_invite team_id invite_id))

-- `pending_invites`
unfoldable pub pending_invites : ℕ → ℕ → S (List TeamInvite)
unfolding Teams.pending_invites_for_team
pending_invites actor_id team_id =
    site_admin_or_leader actor_id team_id (asks (Teams.pending_invites_for_team team_id))
