-- ===== src/Portal/Provisioning/Guarded.antt =====
-- packages/portal/portal/application/access.py: what the operations of
-- packages/portal/portal/application/provisioning.py refuse before they do anything.
use docs_pe.Common.{
  ℕ, Bool, true, false, ◌||◌, ◌&&◌, ◌≡◌, ◌+◌, ◌<◌, refl, sym, subst, Option, none, some,
  Option-cases, inl, inr, Text, arith,
}
use docs_pe.Common.Dict.{lookup}
use docs_pe.Common.Eq.{nat_eq_key}
use docs_pe.Common.Unicode.{Unicode}
use docs_pe.Portal.Ephemeral.{Decimal}
use docs_pe.Portal.Accounts.{
  site_admin_required, step_up_required, leader_required, permission_denied, step_up, ok, err,
  Failure, require, TeamRole, Account, user_row, ◌>>=◌, ◌>>◌, return,
}
use docs_pe.Portal.Accounts.Auth.{user_by_id}
use docs_pe.Portal.Accounts.Teams.{role_for, is_team_leader}
use docs_pe.Portal.Provisioning.{
  Security, Site, S, is_admin_user, is_step_up_fresh, require_admin, require_step_up,
  require_leader_or_admin, site_admin, site_admin_step_up, site_admin_or_leader,
}
use docs_pe.Portal.Provisioning.Users
use docs_pe.Portal.Provisioning.Reads
use docs_pe.Portal.Provisioning.Members

-- The operations of `ProvisioningService` for a site administrator, and `set_global_search`.
pub data AdminRequest : Type 0 where
  first_team : ℕ → Text → Option Text → AdminRequest
  same_first_team : ℕ → Text → Text → AdminRequest
  team : ℕ → Text → Option Text → Text → AdminRequest
  user : ℕ → Text → Text → AdminRequest
  password : ℕ → Text → AdminRequest
  deactivation : ℕ → AdminRequest
  reactivation : ℕ → AdminRequest
  deletion : ℕ → AdminRequest
  promotion : ℕ → AdminRequest
  demotion : ℕ → AdminRequest
  status_reading users_reading teams_reading : AdminRequest
  user_reading : ℕ → AdminRequest
  user_teams_reading : ℕ → AdminRequest
  sole_admin_reading : ℕ → AdminRequest
  global_search : ℕ → Bool → AdminRequest

-- Those that need no second-factor proof.
abbrev pub asks_role_only : AdminRequest → Bool
asks_role_only (first_team i name slug) = true
asks_role_only (same_first_team i name slug) = true
asks_role_only status_reading = true
asks_role_only users_reading = true
asks_role_only teams_reading = true
asks_role_only (user_reading i) = true
asks_role_only (user_teams_reading i) = true
asks_role_only (sole_admin_reading i) = true
asks_role_only (global_search i on) = true
asks_role_only r = false

-- The operations for a leader of the team or a site administrator.
pub data TeamRequest : Type 0 where
  invitation : ℕ → ℕ → Text → Text → TeamRole → TeamRequest
  resending : ℕ → ℕ → Text → ℕ → TeamRequest
  cancellation : ℕ → TeamRequest
  removal : Text → TeamRequest

abbrev quietly : {A : Type 0} → S A → S (Unit {0})
quietly m = m >>= λ _. return tt

quietly_err :
    {A : Type 0} (m : S A) (s : Site) {e : Failure} → m s ≡ (err e, s) → quietly m s ≡ (err e, s)
quietly_err m s {e} h =
    subst (λ r. (elim r.0 [ ok a ↦ return tt r.1 | err f ↦ (err f, r.1) ]) ≡ (err e, s)) (sym h)
      refl

admin_denied :
    {A : Type 0} (actor_id : ℕ) (body : S A) (s : Site)
    → is_admin_user (user_by_id actor_id s.db) ≡ false
    → site_admin actor_id body s ≡ (err (permission_denied site_admin_required), s)
unfolding site_admin require_admin
admin_denied actor_id body s h =
    subst
      (λ b.
        (require b (permission_denied site_admin_required) >> body) s
        ≡ (err (permission_denied site_admin_required), s))
      (sym h) refl

step_up_denied :
    {A : Type 0} (now : ℕ) (verified_at : Option ℕ) (actor_id : ℕ) (body : S A) (s : Site)
    → is_admin_user (user_by_id actor_id s.db) ≡ false
    → site_admin_step_up now verified_at actor_id body s
      ≡ (err (permission_denied site_admin_required), s)
unfolding site_admin_step_up
step_up_denied now verified_at actor_id body s h =
    admin_denied actor_id (require_step_up now verified_at >> body) s h

stale :
    {A : Type 0} (now : ℕ) (verified_at : Option ℕ) (actor_id : ℕ) (body : S A) (s : Site)
    → is_admin_user (user_by_id actor_id s.db) ≡ true
    → is_step_up_fresh now verified_at ≡ false
    → site_admin_step_up now verified_at actor_id body s ≡ (err (step_up step_up_required), s)
unfolding site_admin_step_up site_admin require_admin require_step_up
stale now verified_at actor_id body s h f =
    subst
      (λ b.
        (require b (permission_denied site_admin_required)
            >> (require (is_step_up_fresh now verified_at) (step_up step_up_required) >> body))
          s
        ≡ (err (step_up step_up_required), s))
      (sym h)
      (subst
        (λ b.
          (require b (step_up step_up_required) >> body) s ≡ (err (step_up step_up_required), s))
        (sym f) refl)

no_admin :
    (actor_id : ℕ) (s : Site)
    → ((a : Account)
        → lookup actor_id s.db.users ≡ some a
        → (a.is_site_admin && a.is_active) ≡ false)
    → is_admin_user (user_by_id actor_id s.db) ≡ false
unfolding user_by_id user_row
no_admin actor_id s h = elim (Option-cases (lookup actor_id s.db.users)) [
  | inl e ↦ ground (arith, e)
  | inr (a, e) ↦ ground (arith, e, h a e)
]

is_admin :
    (actor_id : ℕ) (s : Site) (a : Account)
    → lookup actor_id s.db.users ≡ some a
    → a.is_site_admin ≡ true
    → a.is_active ≡ true
    → is_admin_user (user_by_id actor_id s.db) ≡ true
unfolding user_by_id user_row
is_admin actor_id s a e admin on = ground (arith, e, admin, on)

is_late :
    (now : ℕ) (verified_at : Option ℕ)
    → ((t : ℕ) → verified_at ≡ some t → t + 900000 < now)
    → is_step_up_fresh now verified_at ≡ false
unfolding is_step_up_fresh
is_late now none h = refl
is_late now (some t) h = ground (arith, h t refl)

orb : {a b : Bool} → a ≡ false → b ≡ false → (a || b) ≡ false
orb h k = rw (h, k) refl

team_denied :
    {A : Type 0} (actor_id team_id : ℕ) (body : S A) (s : Site)
    → is_admin_user (user_by_id actor_id s.db) ≡ false
    → is_team_leader (role_for actor_id team_id s.db) ≡ false
    → site_admin_or_leader actor_id team_id body s ≡ (err (permission_denied leader_required), s)
unfolding site_admin_or_leader require_leader_or_admin
team_denied actor_id team_id body s a l =
    subst
      (λ b.
        (require b (permission_denied leader_required) >> body) s
        ≡ (err (permission_denied leader_required), s))
      (sym (orb a l)) refl

module _ (u : Unicode) (d : Decimal) (v : Security) where
  unfoldable pub perform : ℕ → Option ℕ → ℕ → AdminRequest → S (Unit {0})
  perform now verified_at actor_id (first_team i name slug) =
      quietly (Users.create_first_team u d v actor_id i name slug)
  perform now verified_at actor_id (same_first_team i name slug) =
      quietly (Users.ensure_first_team u d v actor_id i name slug)
  perform now verified_at actor_id (team i name slug leader) =
      quietly (Users.create_team u d v now verified_at actor_id i name slug leader)
  perform now verified_at actor_id (user i email word) =
      quietly (Users.create_user u d v now verified_at actor_id i email word)
  perform now verified_at actor_id (password i word) =
      Users.reset_password u d v now verified_at actor_id i word
  perform now verified_at actor_id (deactivation i) =
      quietly (Users.deactivate_user now verified_at actor_id i)
  perform now verified_at actor_id (reactivation i) =
      quietly (Users.reactivate_user now verified_at actor_id i)
  perform now verified_at actor_id (deletion i) = Users.delete_user now verified_at actor_id i
  perform now verified_at actor_id (promotion i) =
      quietly (Users.promote_to_site_admin now verified_at actor_id i)
  perform now verified_at actor_id (demotion i) =
      quietly (Users.demote_site_admin now verified_at actor_id i)
  perform now verified_at actor_id status_reading = quietly (Reads.installation_status actor_id)
  perform now verified_at actor_id users_reading = quietly (Reads.users actor_id)
  perform now verified_at actor_id teams_reading = quietly (Reads.teams actor_id)
  perform now verified_at actor_id (user_reading i) = quietly (Reads.user_detail actor_id i)
  perform now verified_at actor_id (user_teams_reading i) =
      quietly (Reads.teams_for_user actor_id i)
  perform now verified_at actor_id (sole_admin_reading i) =
      quietly (Reads.is_sole_active_admin actor_id i)
  perform now verified_at actor_id (global_search i on) = Reads.set_global_search actor_id i on

  unfoldable pub perform_in_team : ℕ → ℕ → TeamRequest → S (Unit {0})
  perform_in_team actor_id team_id (invitation now i token email role) =
      Members.invite_or_add_member u v now i actor_id token team_id email role
  perform_in_team actor_id team_id (resending now i token invite) =
      Members.resend_invite u v now i actor_id token team_id invite
  perform_in_team actor_id team_id (cancellation invite) =
      Members.cancel_invite actor_id team_id invite
  perform_in_team actor_id team_id (removal email) =
      Members.remove_member u v actor_id team_id email

  guarded :
      (now : ℕ) (verified_at : Option ℕ) (actor_id : ℕ) (r : AdminRequest) (s : Site)
      → (is_admin_user (user_by_id actor_id s.db) ≡ false
          → perform now verified_at actor_id r s ≡ (err (permission_denied site_admin_required), s))
        × (is_admin_user (user_by_id actor_id s.db) ≡ true
            → asks_role_only r ≡ false
            → is_step_up_fresh now verified_at ≡ false
            → perform now verified_at actor_id r s ≡ (err (step_up step_up_required), s))
  unfolding perform Users.create_first_team Users.ensure_first_team Users.create_team
      Users.create_user Users.reset_password Users.deactivate_user Users.reactivate_user
      Users.delete_user Users.promote_to_site_admin Users.demote_site_admin
      Reads.installation_status Reads.users Reads.teams Reads.user_detail Reads.teams_for_user
      Reads.is_sole_active_admin Reads.set_global_search
  guarded now verified_at actor_id (first_team i name slug) s = (
    λ h.
        quietly_err (Users.create_first_team u d v actor_id i name slug) s
          (admin_denied actor_id _ s h),
    λ h b f. ground arith,
  )
  guarded now verified_at actor_id (same_first_team i name slug) s = (
    λ h.
        quietly_err (Users.ensure_first_team u d v actor_id i name slug) s
          (admin_denied actor_id _ s h),
    λ h b f. ground arith,
  )
  guarded now verified_at actor_id (team i name slug leader) s = (
    λ h.
        quietly_err (Users.create_team u d v now verified_at actor_id i name slug leader) s
          (step_up_denied now verified_at actor_id _ s h),
    λ h b f.
        quietly_err (Users.create_team u d v now verified_at actor_id i name slug leader) s
          (stale now verified_at actor_id _ s h f),
  )
  guarded now verified_at actor_id (user i email word) s = (
    λ h.
        quietly_err (Users.create_user u d v now verified_at actor_id i email word) s
          (step_up_denied now verified_at actor_id _ s h),
    λ h b f.
        quietly_err (Users.create_user u d v now verified_at actor_id i email word) s
          (stale now verified_at actor_id _ s h f),
  )
  guarded now verified_at actor_id (password i word) s =
      (step_up_denied now verified_at actor_id _ s, λ h b f. stale now verified_at actor_id _ s h f)
  guarded now verified_at actor_id (deactivation i) s = (
    λ h.
        quietly_err (Users.deactivate_user now verified_at actor_id i) s
          (step_up_denied now verified_at actor_id _ s h),
    λ h b f.
        quietly_err (Users.deactivate_user now verified_at actor_id i) s
          (stale now verified_at actor_id _ s h f),
  )
  guarded now verified_at actor_id (reactivation i) s = (
    λ h.
        quietly_err (Users.reactivate_user now verified_at actor_id i) s
          (step_up_denied now verified_at actor_id _ s h),
    λ h b f.
        quietly_err (Users.reactivate_user now verified_at actor_id i) s
          (stale now verified_at actor_id _ s h f),
  )
  guarded now verified_at actor_id (deletion i) s =
      (step_up_denied now verified_at actor_id _ s, λ h b f. stale now verified_at actor_id _ s h f)
  guarded now verified_at actor_id (promotion i) s = (
    λ h.
        quietly_err (Users.promote_to_site_admin now verified_at actor_id i) s
          (step_up_denied now verified_at actor_id _ s h),
    λ h b f.
        quietly_err (Users.promote_to_site_admin now verified_at actor_id i) s
          (stale now verified_at actor_id _ s h f),
  )
  guarded now verified_at actor_id (demotion i) s = (
    λ h.
        quietly_err (Users.demote_site_admin now verified_at actor_id i) s
          (step_up_denied now verified_at actor_id _ s h),
    λ h b f.
        quietly_err (Users.demote_site_admin now verified_at actor_id i) s
          (stale now verified_at actor_id _ s h f),
  )
  guarded now verified_at actor_id status_reading s = (
    λ h. quietly_err (Reads.installation_status actor_id) s (admin_denied actor_id _ s h),
    λ h b f. ground arith,
  )
  guarded now verified_at actor_id users_reading s = (
    λ h. quietly_err (Reads.users actor_id) s (admin_denied actor_id _ s h),
    λ h b f. ground arith,
  )
  guarded now verified_at actor_id teams_reading s = (
    λ h. quietly_err (Reads.teams actor_id) s (admin_denied actor_id _ s h),
    λ h b f. ground arith,
  )
  guarded now verified_at actor_id (user_reading i) s = (
    λ h. quietly_err (Reads.user_detail actor_id i) s (admin_denied actor_id _ s h),
    λ h b f. ground arith,
  )
  guarded now verified_at actor_id (user_teams_reading i) s = (
    λ h. quietly_err (Reads.teams_for_user actor_id i) s (admin_denied actor_id _ s h),
    λ h b f. ground arith,
  )
  guarded now verified_at actor_id (sole_admin_reading i) s = (
    λ h. quietly_err (Reads.is_sole_active_admin actor_id i) s (admin_denied actor_id _ s h),
    λ h b f. ground arith,
  )
  guarded now verified_at actor_id (global_search i on) s =
      (λ h. admin_denied actor_id _ s h, λ h b f. ground arith)

  -- An account that is not there, is not active or is no site administrator gets that answer from
  -- every operation of `ProvisioningService` for administrators and from `set_global_search`, whatever
  -- else is wrong with the request; an active administrator with no second-factor proof of the last
  -- fifteen minutes gets the other from each that asks for it. Nothing is written either way.
  pub perform_refused :
      (now : ℕ) (verified_at : Option ℕ) (actor_id : ℕ) (r : AdminRequest) (s : Site)
      → (((a : Account)
            → lookup actor_id s.db.users ≡ some a
            → (a.is_site_admin && a.is_active) ≡ false)
          → perform now verified_at actor_id r s ≡ (err (permission_denied site_admin_required), s))
        × ((a : Account)
            → lookup actor_id s.db.users ≡ some a
            → a.is_site_admin ≡ true
            → a.is_active ≡ true
            → asks_role_only r ≡ false
            → ((t : ℕ) → verified_at ≡ some t → t + 900000 < now)
            → perform now verified_at actor_id r s ≡ (err (step_up step_up_required), s))
  perform_refused now verified_at actor_id r s = (
    λ h. (guarded now verified_at actor_id r s).0 (no_admin actor_id s h),
    λ a there admin on b late.
        (guarded now verified_at actor_id r s).1 (is_admin actor_id s a there admin on) b
          (is_late now verified_at late),
  )

  -- Whoever neither leads the team nor is an active site administrator is told so by every operation
  -- on its members and invitations, and nothing is written.
  pub perform_in_team_refused :
      (actor_id team_id : ℕ) (r : TeamRequest) (s : Site)
      → is_admin_user (user_by_id actor_id s.db) ≡ false
      → is_team_leader (role_for actor_id team_id s.db) ≡ false
      → perform_in_team actor_id team_id r s ≡ (err (permission_denied leader_required), s)
  unfolding perform_in_team Members.invite_or_add_member Members.resend_invite Members.cancel_invite
      Members.remove_member
  perform_in_team_refused actor_id team_id (invitation now i token email role) s a l =
      team_denied actor_id team_id _ s a l
  perform_in_team_refused actor_id team_id (resending now i token invite) s a l =
      team_denied actor_id team_id _ s a l
  perform_in_team_refused actor_id team_id (cancellation invite) s a l =
      team_denied actor_id team_id _ s a l
  perform_in_team_refused actor_id team_id (removal email) s a l =
      team_denied actor_id team_id _ s a l
