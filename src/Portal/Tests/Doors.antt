-- ===== src/Portal/Tests/Doors.antt =====
-- packages/portal: the theorems on provisioning and login at concrete inputs.
use docs_pe.Common.{
  ◌+◌, ◌<◌, ◌&&◌, ◌==◌, ℕ, ◌≡◌, refl, true, false, Option, none, some, [], ◌∷◌, Text, text, length,
  leb, text_eq,
}
use docs_pe.Common.Dict.{lookup, put, remove}
use docs_pe.Common.Eq.{nat_eq_key, pair_eq_key, text_eq_key}
use docs_pe.Common.Unicode.{strip}
use docs_pe.Portal.Accounts.{
  Account, is_active_admin, Answer, ok, err, permission_denied, step_up, site_admin_required,
  step_up_required, invite_invalid, not_found, team_member, TeamInvite, PortalUser,
  require_site_admin, require_team_leader, leaders, require_admin_second_factor,
}
use docs_pe.Portal.Throttle.{normalize_email}
use docs_pe.Portal.Accounts.Auth
use docs_pe.Portal.Accounts.Teams
use docs_pe.Portal.Provisioning.{Security, Site, is_step_up_fresh, site_admin_step_up, min_password}
use docs_pe.Portal.Provisioning.Users
use docs_pe.Portal.Provisioning.Guarded.{deletion, asks_role_only, perform, perform_refused}
use docs_pe.Portal.Provisioning.Members.{is_redeemable, valid_invite, redeem_invite}
use docs_pe.Portal.Provisioning.Invites.{redeem_once}
use docs_pe.Portal.Provisioning.Removal.{delete_user_keeps_actor}
use docs_pe.Portal.Provisioning.Slugs.{unique_slug, slugify, is_taken}
use docs_pe.Portal.Provisioning.Slugs.Free.{unique_slug_free}
use docs_pe.Portal.Tests.{ascii, signs}
use docs_pe.Portal.Tests.People.{office}

abbrev loads_setup : Text → Option (ℕ × Text)
loads_setup [] = none
loads_setup (i ∷ s) = some (i, s)

abbrev security : Security
security = record {
  hash_password = λ t. t;
  token_hash = λ t. t;
  totp_matches = text_eq;
  protect = λ t. record { ciphertext = t; wrapped_data_key = []; master_key_version = [] };
  verify_webauthn_registration = λ c r. none;
  dumps = λ i s. i ∷ s;
  loads = loads_setup;
  loads-dumps = λ i s. refl;
}

abbrev site : Site
site = record { db = office; tokens = []; audit = []; mails = [] }

perform_refused_example :
    (((a : Account) → lookup 3 office.users ≡ some a → (a.is_site_admin && a.is_active) ≡ false)
      → perform ascii signs security 1000000 (some 90000) 3 (deletion 1) site
        ≡ (err (permission_denied site_admin_required), site))
    × ((a : Account)
        → lookup 3 office.users ≡ some a
        → a.is_site_admin ≡ true
        → a.is_active ≡ true
        → asks_role_only (deletion 1) ≡ false
        → ((t : ℕ) → some 90000 ≡ some t → t + 900000 < 1000000)
        → perform ascii signs security 1000000 (some 90000) 3 (deletion 1) site
          ≡ (err (step_up step_up_required), site))
perform_refused_example =
    perform_refused ascii signs security 1000000 (some 90000) 3 (deletion 1) site

-- The state after a call, whatever its answer.
abbrev after_call : {A : Type 0} → Answer A × Site → Site
after_call r = r.1

abbrev deleted : Site
deleted = after_call (Users.delete_user 2000000 (some 1500000) 1 2 site)

deleting : Users.delete_user 2000000 (some 1500000) 1 2 site ≡ (ok tt, deleted)
unfolding Users.delete_user site_admin_step_up lookup leaders require_team_leader remove
deleting = refl

delete_user_keeps_actor_example :
    ((a : Account) × (lookup 1 office.users ≡ some a) × (is_active_admin a ≡ true))
    × (is_step_up_fresh 2000000 (some 1500000) ≡ true)
    × ((2 == 1) ≡ false)
    × (Teams.teams_where_sole_leader 2 office ≡ [])
    × (lookup 2 deleted.db.users ≡ none)
    × (lookup 1 deleted.db.users ≡ lookup 1 office.users)
    × (require_site_admin deleted.db ≡ true)
delete_user_keeps_actor_example =
    delete_user_keeps_actor 2000000 (some 1500000) 1 2 site deleted deleting

abbrev invited : Site
invited = record site {
  db = record office {
    invites =
        record {
          id = 5;
          team_id = 7;
          email = text "e@a.pe";
          role = team_member;
          token_hash = text "t";
          invited_by = 3;
          created_at = 0;
          expires_at = 1000;
          accepted_at = none;
        }
        ∷ [];
  };
}

abbrev word : Text
word = text "doce letras y"

abbrev joined : Site
joined = after_call (redeem_invite ascii security 500 501 4 (text "t") word invited)

abbrev newcomer : PortalUser
newcomer = record {
  id = 4;
  email = text "e@a.pe";
  is_site_admin = false;
  mfa_enabled = false;
  has_passkey = false;
  is_active = true;
  pending_site_admin = false;
}

redeeming : redeem_invite ascii security 500 501 4 (text "t") word invited ≡ (ok newcomer, joined)
unfolding redeem_invite lookup put text_eq leaders require_team_leader strip Auth.user_by_email
    normalize_email require_admin_second_factor
redeeming = refl

redeem_once_example :
    (invite : TeamInvite) × (Teams.invite_by_token_hash (text "t") invited.db ≡ some invite)
    × (is_redeemable ascii security 500 invite ≡ true)
    × (leb min_password (length word) ≡ true)
    × (lookup (invite.team_id, newcomer.id) joined.db.memberships ≡ some invite.role)
    × ((later : ℕ)
        → valid_invite ascii security later (text "t") joined
          ≡ (err (not_found invite_invalid), joined))
redeem_once_example =
    redeem_once ascii security 500 501 4 (text "t") word invited joined newcomer redeeming

unique_slug_free_example :
    (slug : Text) × (unique_slug ascii signs (text "lima") office.teams ≡ some slug)
    × (is_taken slug office.teams ≡ false)
    × (is_taken (slugify ascii (text "lima")) office.teams ≡ false
        → slug ≡ slugify ascii (text "lima"))
unique_slug_free_example = unique_slug_free ascii signs (text "lima") office.teams

second_address : unique_slug ascii signs (text "lima") office.teams ≡ some (text "lima-2")
unfolding unique_slug text_eq strip
second_address = refl
