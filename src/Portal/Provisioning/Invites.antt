-- ===== src/Portal/Provisioning/Invites.antt =====
-- packages/portal/portal/application/provisioning.py: an invitation is redeemed once, in time.
use docs_pe.Common.{
  ℕ, Bool, true, false, ◌≡◌, refl, ap, ◌∙◌, Option, none, some, List, [], ◌∷◌, Text, leb, length,
  if◌then◌else◌, arith, text_eq, ◌==◌, Bool-cases, Option-cases, inl, inr,
}
use docs_pe.Common.Unicode.{Unicode}
use docs_pe.Common.Dict.{lookup, put, lookup-put}
use docs_pe.Common.Table.{first, update}
use docs_pe.Common.Eq.{nat_eq_key, pair_eq_key, same_refl}
use docs_pe.Portal.Accounts.{
  invite_invalid, not_found, Answer, ok, err, PortalUser, TeamRole, TeamInvite, ◌>>=◌, ◌>>◌, return,
}
use docs_pe.Portal.Accounts.Auth
use docs_pe.Portal.Accounts.Teams
use docs_pe.Portal.Provisioning.{
  Security, Site, S, transact, execute, asks, min_password, require_password, record_event,
  invite_accepted,
}
use docs_pe.Portal.Provisioning.Members.{
  is_redeemable, valid_invite, invited_account, redeem_invite,
}

after-ok :
    {A B : Type 0} (r : Answer A × Site) (f : A → S B) {b : B} {s' : Site}
    → (let (answer, s1) = r in elim answer [ ok a ↦ f a s1 | err e ↦ (err e, s1) ]) ≡ (ok b, s')
    → (a : A) × (s1 : Site) × (r ≡ (ok a, s1)) × (f a s1 ≡ (ok b, s'))
after-ok (ok a, s1) f h = (a, s1, refl, h)
after-ok (err e, s1) f h = ground arith

-- A chain that ends well has a first step that does.
pub >>=-eq-ok :
    {A B : Type 0} (m : S A) (f : A → S B) (s : Site) {b : B} {s' : Site}
    → (m >>= f) s ≡ (ok b, s')
    → (a : A) × (s1 : Site) × (m s ≡ (ok a, s1)) × (f a s1 ≡ (ok b, s'))
>>=-eq-ok m f s h = after-ok (m s) f h

password_ok :
    (password : Text) (s s1 : Site)
    → require_password password s ≡ (ok tt, s1)
    → (leb min_password (length password) ≡ true) × (s1 ≡ s)
password_ok password s s1 h = elim (Bool-cases (leb min_password (length password))) [
  | inl e ↦ (e, ground arith)
  | inr e ↦ ground arith
]

first-update :
    (p q : TeamInvite → Bool) (f : TeamInvite → TeamInvite) (vs : List TeamInvite) (v : TeamInvite)
    → ((w : TeamInvite) → p (f w) ≡ p w)
    → first p vs ≡ some v
    → first p (update q f vs) ≡ some (if q v then f v else v)
first-update p q f [] v same h = ground arith
first-update p q f (w ∷ vs) v same h = ground (arith, same w, first-update p q f vs v same)

module _ (u : Unicode) (v : Security) where
  valid-ok :
      (now : ℕ) (token : Text) (s s1 : Site) (invite : TeamInvite)
      → valid_invite u v now token s ≡ (ok invite, s1)
      → (s1 ≡ s)
        × (Teams.invite_by_token_hash (v.token_hash token) s.db ≡ some invite)
        × (is_redeemable u v now invite ≡ true)
  unfolding valid_invite
  valid-ok now token s s1 invite h =
      elim (Option-cases (Teams.invite_by_token_hash (v.token_hash token) s.db)) [
        | inl e ↦ ground (arith, e)
        | inr (w, e) ↦ ground (arith, e)
      ]

  -- An invitation that is not there, accepted or expired is refused.
  pub valid-refused :
      (now : ℕ) (token : Text) (s : Site) (invite : TeamInvite)
      → Teams.invite_by_token_hash (v.token_hash token) s.db ≡ some invite
      → is_redeemable u v now invite ≡ false
      → valid_invite u v now token s ≡ (err (not_found invite_invalid), s)
  unfolding valid_invite
  valid-refused now token s invite e h = ground (arith, e)

  account_invites :
      (new_id : ℕ) (email password : Text) (found : Option (PortalUser × Text)) (s s1 : Site)
      (user : PortalUser)
      → invited_account u v new_id email password found s ≡ (ok user, s1)
      → s1.db.invites ≡ s.db.invites
  unfolding invited_account Auth.create_user Auth.insert_account
  account_invites new_id email password none s s1 user h = ground arith
  account_invites new_id email password (some (w, hash)) s s1 user h = ground arith

  member_rows :
      (t i : ℕ) (role : TeamRole) (s s1 : Site)
      → transact (Teams.add_member t i role) s ≡ (ok tt, s1)
      → (s1.db.invites ≡ s.db.invites) × (s1.db.memberships ≡ put (t, i) role s.db.memberships)
  unfolding Teams.add_member
  member_rows t i role s s1 h = ground arith

  -- The link after a redemption: its invitation is accepted, whatever the time.
  spent :
      (accepted later : ℕ) (token : Text) (s s' : Site) (invite : TeamInvite)
      → Teams.invite_by_token_hash (v.token_hash token) s.db ≡ some invite
      → s'.db.invites
        ≡ update
            (λ w. w.id == invite.id)
            (λ w. record w { accepted_at = some accepted })
            s.db.invites
      → valid_invite u v later token s' ≡ (err (not_found invite_invalid), s')
  unfolding Teams.invite_by_token_hash
  spent accepted later token s s' invite found rows =
      let accept = λ (w : TeamInvite). record w { accepted_at = some accepted } in
      let hit = λ (w : TeamInvite). text_eq w.token_hash (v.token_hash token) in
      let own = λ (w : TeamInvite). w.id == invite.id in
      let self : own invite ≡ true = same_refl invite.id in
      valid-refused later token s' (accept invite)
        (ap (first hit) rows
          ∙ first-update hit own accept s.db.invites invite (λ w. refl) found
          ∙ ap (λ b. some (if b then accept invite else invite)) self)
        (ground arith)

  -- What follows the checks of a redemption.
  abbrev redeem_checked : ℕ → ℕ → Text → TeamInvite → S PortalUser
  redeem_checked accepted new_id password invite = do
    found ← asks (Auth.user_by_email u invite.email)
    account ← invited_account u v new_id invite.email password found
    transact (Teams.add_member invite.team_id account.id invite.role)
    execute (Teams.mark_invite_accepted accepted invite.id)
    record_event invite_accepted account.id
    return account

  -- What the rest of a redemption does, once the invitation is found and the password is long enough.
  redeemed_rows :
      (accepted new_id : ℕ) (password : Text) (invite : TeamInvite) (s s' : Site)
      (user : PortalUser)
      → redeem_checked accepted new_id password invite s ≡ (ok user, s')
      → (lookup (invite.team_id, user.id) s'.db.memberships ≡ some invite.role)
        × (s'.db.invites
            ≡ update
                (λ w. w.id == invite.id)
                (λ w. record w { accepted_at = some accepted })
                s.db.invites)
  unfolding Teams.mark_invite_accepted record_event
  redeemed_rows accepted new_id password invite s s' user h =
      let found = Auth.user_by_email u invite.email s.db in
      let (account, s1, e1, h1) =
        >>=-eq-ok (invited_account u v new_id invite.email password found)
          (λ account. do
            transact (Teams.add_member invite.team_id account.id invite.role)
            execute (Teams.mark_invite_accepted accepted invite.id)
            record_event invite_accepted account.id
            return account)
          s h in
      let (_, s2, e2, h2) =
        >>=-eq-ok (transact (Teams.add_member invite.team_id account.id invite.role))
          (λ _. do
            execute (Teams.mark_invite_accepted accepted invite.id)
            record_event invite_accepted account.id
            return account)
          s1 h1 in
      let (i2, m2) = member_rows invite.team_id account.id invite.role s1 s2 e2 in
      let i1 = account_invites new_id invite.email password found s s1 account e1 in
      ground (
        arith,
        h2,
        i2,
        m2,
        i1,
        lookup-put (invite.team_id, account.id) (invite.team_id, account.id) invite.role
            s1.db.memberships,
        same_refl {A = ℕ × ℕ} (invite.team_id, account.id),
      )

  -- A redemption that succeeds had an invitation for its link, not accepted before and not expired,
  -- and a password of twelve characters or more; its account then has the invited role in the team,
  -- and the link is refused from then on, at any time.
  pub redeem_once :
      (now accepted new_id : ℕ) (token password : Text) (s s' : Site) (user : PortalUser)
      → redeem_invite u v now accepted new_id token password s ≡ (ok user, s')
      → (invite : TeamInvite) × (Teams.invite_by_token_hash (v.token_hash token) s.db ≡ some invite)
        × (is_redeemable u v now invite ≡ true)
        × (leb min_password (length password) ≡ true)
        × (lookup (invite.team_id, user.id) s'.db.memberships ≡ some invite.role)
        × ((later : ℕ) → valid_invite u v later token s' ≡ (err (not_found invite_invalid), s'))
  unfolding redeem_invite
  redeem_once now accepted new_id token password s s' user h =
      let (invite, s1, e1, h1) =
        >>=-eq-ok (valid_invite u v now token)
          (λ w. require_password password >> redeem_checked accepted new_id password w) s h in
      let (same, found, due) = valid-ok now token s s1 invite e1 in
      let (_, s2, e2, h2) =
        >>=-eq-ok (require_password password) (λ _. redeem_checked accepted new_id password invite)
          s1 h1 in
      let (long, same2) = password_ok password s1 s2 e2 in
      let (member, rows) = redeemed_rows accepted new_id password invite s2 s' user h2 in
      (
        invite,
        found,
        due,
        long,
        member,
        λ later. spent accepted later token s s' invite found (ground (arith, rows, same, same2)),
      )
