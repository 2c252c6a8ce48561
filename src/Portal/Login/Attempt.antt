-- ===== src/Portal/Login/Attempt.antt =====
-- packages/portal/portal/application/login.py: when a password gives a session.
use docs_pe.Common.{
  Bool, true, false, ◌≡◌, refl, Option, none, some, Text, arith, is_some, if◌then◌else◌, Bool-cases,
  Option-cases, inl, inr,
}
use docs_pe.Common.Unicode.{Unicode}
use docs_pe.Portal.Ephemeral.{Decimal}
use docs_pe.Portal.Throttle
use docs_pe.Portal.Sessions.{Services, consume}
use docs_pe.Portal.Accounts.{PortalUser, has_second_factor}
use docs_pe.Portal.Accounts.Auth
use docs_pe.Portal.Provisioning.{Site}
use docs_pe.Portal.Login.{
  Verifiers, Clock, Draws, LoginAttempt, LoginOutcome, session_issued, mfa_challenge_issued,
  login_rejected, login_csrf, authenticate, establish, count_failure, admitted, checked, attempt,
  reject,
}

module _ (u : Unicode) (d : Decimal) (v : Services) (w : Verifiers) (t : Clock)
    (fresh : Draws) where
  -- What a login by password must have been.
  pub record IsProven (passed : Bool) (a : LoginAttempt) (s : Site) (user : PortalUser)
      : Type 0 where
    pub human : passed ≡ true
    pub form : is_some (consume v t.taken_at login_csrf a.csrf_token s.tokens).0 ≡ true
    pub unlocked :
        Throttle.allows u d t.account_at t.source_at a.email a.source
          (consume v t.taken_at login_csrf a.csrf_token s.tokens).1
        ≡ some true
    pub hash : Text
    pub known : Auth.user_by_email u a.email s.db ≡ some (user, hash)
    pub password : w.verify_password a.password hash ≡ true
    pub active : user.is_active ≡ true

  -- What the password gives: a session where the account has no second factor, and a token that a
  -- second factor must complete where it has one.
  abbrev pub granted : PortalUser → LoginOutcome
  granted user =
      if has_second_factor user
      then mfa_challenge_issued fresh.pending_token
      else session_issued fresh.cookie_token user.pending_site_admin

  abbrev pub Grants : Bool → LoginAttempt → Site → LoginOutcome → Type 0
  Grants passed a s (login_rejected r) = Unit
  Grants passed a s outcome =
      (user : PortalUser) × IsProven passed a s user × (outcome ≡ granted user)

  admitted-Grants :
      (passed : Bool) (a : LoginAttempt) (found : Option PortalUser) (s s1 s' : Site)
      (r : LoginOutcome)
      → ((user : PortalUser) → found ≡ some user → IsProven passed a s user)
      → admitted u d v w t fresh a found s1 ≡ some (r, s')
      → Grants passed a s r
  unfolding admitted establish
  admitted-Grants passed a none s s1 s' r proven h =
      elim (Option-cases (
        Throttle.record_failure u d t.failed_account_at t.failed_source_at a.email a.source
          s1.tokens)) [
            | inl e ↦ unfold count_failure in ground (arith, h, e)
            | inr (tokens, e) ↦ unfold count_failure in unfold reject in ground (arith, h, e)
          ]
  admitted-Grants passed a (some user) s s1 s' r proven h =
      elim (Bool-cases (has_second_factor user)) [
        | inl e ↦ ground (arith, h, e, proven user refl)
        | inr e ↦ ground (arith, h, e, proven user refl)
      ]

  proven :
      (a : LoginAttempt) (s : Site) (user : PortalUser)
      → is_some (consume v t.taken_at login_csrf a.csrf_token s.tokens).0 ≡ true
      → Throttle.allows u d t.account_at t.source_at a.email a.source
          (consume v t.taken_at login_csrf a.csrf_token s.tokens).1
        ≡ some true
      → authenticate u d v w t fresh a.email a.password s.db ≡ some user
      → IsProven true a s user
  unfolding authenticate
  proven a s user e f k = elim (Option-cases (Auth.user_by_email u a.email s.db)) [
    | inl n ↦ ground (arith, k, n)
    | inr ((found, hash), n) ↦ record {
      human = refl;
      form = e;
      unlocked = f;
      hash = hash;
      known = ground (arith, k, n);
      password = ground (arith, k, n);
      active = ground (arith, k, n);
    }
  ]

  -- A login by password that is not refused was let in by the human check, had a form token that was
  -- live, was not locked by the throttle, and named an active account with its password; it gives a
  -- session if the account has no second factor, and only a pending token if it has one.
  pub attempt-Grants :
      (passed : Bool) (a : LoginAttempt) (s s' : Site) (r : LoginOutcome)
      → attempt u d v w t fresh passed a s ≡ some (r, s')
      → Grants passed a s r
  unfolding attempt checked
  attempt-Grants false a s s' r h = unfold reject in ground (arith, h)
  attempt-Grants true a s s' r h =
      let form = (consume v t.taken_at login_csrf a.csrf_token s.tokens).0 in
      let taken : Site = record s {
        tokens = (consume v t.taken_at login_csrf a.csrf_token s.tokens).1;
      } in
      let allowed = Throttle.allows u d t.account_at t.source_at a.email a.source taken.tokens in
      elim (Bool-cases (is_some form)) [
        | inr e ↦ unfold reject in ground (arith, h, e)
        | inl e ↦ elim (Option-cases allowed) [
          | inl f ↦ ground (arith, h, e, f)
          | inr (false, f) ↦ unfold reject in ground (arith, h, e, f)
          | inr (true, f) ↦
              admitted-Grants true a (authenticate u d v w t fresh a.email a.password s.db) s taken
                s' r (λ user k. proven a s user e f k) (ground (arith, h, e, f))
        ]
      ]
