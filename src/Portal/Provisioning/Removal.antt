-- ===== src/Portal/Provisioning/Removal.antt =====
-- packages/portal/portal/application/provisioning.py: what `_guard_account_removal` lets through.
use docs_pe.Common.{
  ℕ, Bool, true, false, ◌≡◌, refl, Option, none, some, [], arith, ◌==◌, Option-cases, inl, inr,
}
use docs_pe.Common.Dict.{lookup, remove, lookup-remove}
use docs_pe.Common.Eq.{nat_eq_key, pair_eq_key}
use docs_pe.Portal.Accounts.{
  Failure, provisioning, user_has_history, ok, Account, Database, user_row, require_site_admin,
  is_active_admin, permission_denied, site_admin_required, step_up, step_up_required, ◌>>=◌, ◌>>◌,
  require,
}
use docs_pe.Portal.Accounts.Auth
use docs_pe.Portal.Accounts.Teams
use docs_pe.Portal.Accounts.Admins.{admin-remove}
use docs_pe.Portal.Provisioning.{
  Site, S, transact, is_admin_user, is_step_up_fresh, require_admin, require_step_up, site_admin,
  site_admin_step_up, record_event, user_deleted,
}
use docs_pe.Portal.Provisioning.Invites.{>>=-eq-ok}
use docs_pe.Portal.Provisioning.Users.{guard_account_removal, delete_user}

-- A check that passes changes nothing.
require_ok :
    (b : Bool) (e : Failure) (s s1 : Site) → require b e s ≡ (ok tt, s1) → (b ≡ true) × (s1 ≡ s)
require_ok true e s s1 h = (refl, ground arith)
require_ok false e s s1 h = ground arith

-- The body of an operation runs for an active site administrator with a fresh proof.
pub stepped_up :
    {A : Type 0} (now : ℕ) (verified_at : Option ℕ) (actor_id : ℕ) (body : S A) (s s' : Site)
    {a : A}
    → site_admin_step_up now verified_at actor_id body s ≡ (ok a, s')
    → (is_admin_user (Auth.user_by_id actor_id s.db) ≡ true)
      × (is_step_up_fresh now verified_at ≡ true)
      × (body s ≡ (ok a, s'))
unfolding site_admin_step_up site_admin require_admin require_step_up
stepped_up now verified_at actor_id body s s' h =
    let (_, s1, e1, h1) =
      >>=-eq-ok (require_admin actor_id) (λ _. require_step_up now verified_at >> body) s h in
    let (admin, same1) =
      require_ok (is_admin_user (Auth.user_by_id actor_id s.db))
        (permission_denied site_admin_required) s s1 e1 in
    let (_, s2, e2, h2) = >>=-eq-ok (require_step_up now verified_at) (λ _. body) s1 h1 in
    let (fresh, same2) =
      require_ok (is_step_up_fresh now verified_at) (step_up step_up_required) s1 s2 e2 in
    (admin, fresh, ground (arith, same1, same2, h2))

-- What the guard makes sure of: another account, that is there and leads no team alone.
pub guard_ok :
    (actor_id user_id : ℕ) (s s1 : Site)
    → guard_account_removal actor_id user_id s ≡ (ok tt, s1)
    → (s1 ≡ s) × ((user_id == actor_id) ≡ false) × (Teams.teams_where_sole_leader user_id s.db ≡ [])
unfolding guard_account_removal
guard_ok actor_id user_id s s1 h = elim (Option-cases (Auth.user_by_id user_id s.db)) [
  | inl e ↦ ground (arith, h, e)
  | inr (a, e) ↦ ground (arith, h, e)
]

delete_rows :
    (i : ℕ) (s s' : Site)
    → transact (Auth.delete_if_unused i) s ≡ (ok true, s')
    → s'.db.users ≡ remove i s.db.users
unfolding Auth.delete_if_unused
delete_rows i s s' h = elim (Option-cases (lookup i s.db.users)) [
  | inl e ↦ ground (arith, h, e)
  | inr (a, e) ↦ ground (arith, h, e)
]

admin_account :
    (i : ℕ) (db : Database)
    → is_admin_user (Auth.user_by_id i db) ≡ true
    → (a : Account) × (lookup i db.users ≡ some a) × (is_active_admin a ≡ true)
unfolding Auth.user_by_id user_row
admin_account i db h = elim (Option-cases (lookup i db.users)) [
  | inl e ↦ ground (arith, h, e)
  | inr (a, e) ↦ (a, e, ground (arith, h, e))
]

-- The parts of `delete_user` from its guard on.
abbrev deleting_end : ℕ → Bool → S (Unit {0})
deleting_end actor_id deleted =
    require deleted (provisioning user_has_history) >> record_event user_deleted actor_id

abbrev deleting : ℕ → ℕ → S (Unit {0})
deleting actor_id user_id = transact (Auth.delete_if_unused user_id) >>= deleting_end actor_id

abbrev deletion : ℕ → ℕ → S (Unit {0})
deletion actor_id user_id = guard_account_removal actor_id user_id >> deleting actor_id user_id

-- A deletion of an account that succeeds, with no other transaction within it, was asked for by an
-- active site administrator with a fresh proof, of another account that led no team alone; the
-- account is gone, and the administrator is there as before, so that the installation has one.
pub delete_user_keeps_actor :
    (now : ℕ) (verified_at : Option ℕ) (actor_id user_id : ℕ) (s s' : Site)
    → delete_user now verified_at actor_id user_id s ≡ (ok tt, s')
    → ((a : Account) × (lookup actor_id s.db.users ≡ some a) × (is_active_admin a ≡ true))
      × (is_step_up_fresh now verified_at ≡ true)
      × ((user_id == actor_id) ≡ false)
      × (Teams.teams_where_sole_leader user_id s.db ≡ [])
      × (lookup user_id s'.db.users ≡ none)
      × (lookup actor_id s'.db.users ≡ lookup actor_id s.db.users)
      × (require_site_admin s'.db ≡ true)
unfolding delete_user require_site_admin record_event
delete_user_keeps_actor now verified_at actor_id user_id s s' h =
    let (admin, fresh, h1) =
      stepped_up now verified_at actor_id (deletion actor_id user_id) s s' h in
    let (_, s1, e1, h2) =
      >>=-eq-ok (guard_account_removal actor_id user_id) (λ _. deleting actor_id user_id) s h1 in
    let (same1, other, alone) = guard_ok actor_id user_id s s1 e1 in
    let (deleted, s2, e2, h3) =
      >>=-eq-ok (transact (Auth.delete_if_unused user_id)) (deleting_end actor_id) s1 h2 in
    let (_, s3, e3, h4) =
      >>=-eq-ok (require deleted (provisioning user_has_history))
        (λ _. record_event user_deleted actor_id) s2 h3 in
    let (done, same3) = require_ok deleted (provisioning user_has_history) s2 s3 e3 in
    let rows = delete_rows user_id s1 s2 (ground (arith, e2, done)) in
    let (a, there, active) = admin_account actor_id s.db admin in
    let kept = admin-remove user_id actor_id a s.db.users there active other in
    (
      (a, there, active),
      fresh,
      other,
      alone,
      ground (arith, h4, same3, rows, same1, lookup-remove user_id user_id s.db.users),
      ground (arith, h4, same3, rows, same1, other, lookup-remove user_id actor_id s.db.users),
      ground (arith, h4, same3, rows, same1, kept),
    )
