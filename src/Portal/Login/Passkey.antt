-- ===== src/Portal/Login/Passkey.antt =====
-- packages/portal/portal/application/login.py: when a passkey gives a session.
use docs_pe.Common.{
  ℕ, ◌<◌, Bool, true, false, ◌≡◌, refl, Option, some, List, [], ◌∷◌, Text, arith, Bool-cases,
  Option-cases, inl, inr, any, ltb, ◌==◌, ◌&&◌, ◌||◌,
}
use docs_pe.Common.Unicode.{Unicode}
use docs_pe.Common.Table.{update}
use docs_pe.Portal.Ephemeral.{Decimal}
use docs_pe.Portal.Sessions.{Services, consume}
use docs_pe.Portal.Accounts.{Database, PortalUser, WebAuthnCredential}
use docs_pe.Portal.Accounts.Auth
use docs_pe.Portal.Provisioning.{Site}
use docs_pe.Portal.Login.{
  Verifiers, Clock, Draws, PasskeyLoginAttempt, session_issued, passkey_login, offered, is_owner,
  touched, asserted, complete_passkey_login, reject,
}

touched_rows :
    (row_id n : ℕ) (cs : List WebAuthnCredential)
    → 0 < n
    → any
        (Auth.accepts_count row_id n)
        (update (Auth.accepts_count row_id n) (λ c. record c { sign_count = n }) cs)
      ≡ false
touched_rows row_id n [] h = refl
touched_rows row_id n (c ∷ cs) h = ground (arith, touched_rows row_id n cs h)

-- A counter that has advanced is not accepted again: of two uses of one assertion, in whatever order
-- they come, the second is refused.
pub touch_once :
    (row_id n : ℕ) (db : Database)
    → 0 < n
    → (Auth.touch_webauthn_credential row_id n (Auth.touch_webauthn_credential row_id n db).1).0
      ≡ false
unfolding Auth.touch_webauthn_credential
touch_once row_id n db h = touched_rows row_id n db.passkeys h

module _ (u : Unicode) (d : Decimal) (v : Services) (w : Verifiers) (t : Clock)
    (fresh : Draws) where
  -- What a passkey login that gives a session must have been.
  pub record IsAsserted (a : PasskeyLoginAttempt) (s : Site) : Type 0 where
    pub payload : Text
    pub expected : Option ℕ
    pub challenge : Text
    pub stored : WebAuthnCredential
    pub new_sign_count : ℕ
    pub user : PortalUser
    pub pending : (consume v t.taken_at passkey_login a.login_token s.tokens).0 ≡ some payload
    pub named : w.loads_challenge payload ≡ some (expected, challenge)
    pub credential : offered u d v w t fresh expected a.response_json s.db ≡ some stored
    pub owner : is_owner u d v w t fresh expected stored ≡ true
    pub verified :
        w.verify_webauthn_authentication a.response_json challenge stored.public_key
          stored.sign_count
        ≡ some new_sign_count
    pub counted :
        any
          (λ c.
            c.id == stored.id
            && (ltb c.sign_count new_sign_count || (new_sign_count == 0 && c.sign_count == 0)))
          s.db.passkeys
        ≡ true
    pub known :
        Auth.user_by_id stored.user_id
          (Auth.touch_webauthn_credential stored.id new_sign_count s.db).1
        ≡ some user
    pub active : user.is_active ≡ true

  offered_owner :
      (expected : Option ℕ) (response : Text) (db : Database) (stored : WebAuthnCredential)
      → offered u d v w t fresh expected response db ≡ some stored
      → is_owner u d v w t fresh expected stored ≡ true
  unfolding offered
  offered_owner expected response db stored h =
      elim (Option-cases (w.response_credential_id response)) [
        | inl e ↦ ground (arith, h, e)
        | inr (c, e) ↦ elim (Option-cases (Auth.webauthn_credential_by_credential_id c db)) [
          | inl f ↦ ground (arith, h, e, f)
          | inr (k, f) ↦ ground (arith, h, e, f)
        ]
      ]

  -- The account behind a credential that was touched, where that gives a session.
  touched_user :
      (stored : WebAuthnCredential) (n : ℕ) (s s' : Site) (cookie : Text) (setup : Bool)
      → touched u d v w t fresh stored n s ≡ some (session_issued cookie setup, s')
      → (user : PortalUser) × (any (Auth.accepts_count stored.id n) s.db.passkeys ≡ true)
        × (Auth.user_by_id stored.user_id (Auth.touch_webauthn_credential stored.id n s.db).1
            ≡ some user)
        × (user.is_active ≡ true)
  unfolding touched reject
  touched_user stored n s s' cookie setup h =
      elim (Bool-cases (Auth.touch_webauthn_credential stored.id n s.db).0) [
        | inr e ↦ ground (arith, h, e)
        | inl e ↦
            elim (Option-cases (
              Auth.user_by_id stored.user_id (Auth.touch_webauthn_credential stored.id n s.db).1)) [
                | inl f ↦ ground (arith, h, e, f)
                | inr (user, f) ↦ (
                  user,
                  unfold Auth.touch_webauthn_credential in e,
                  f,
                  elim (Bool-cases user.is_active) [
                    | inl g ↦ g
                    | inr g ↦ ground (arith, h, e, f, g)
                  ],
                )
              ]
      ]

  -- A passkey gives a session only where its login token was live, the credential that the response
  -- names is stored and belongs to the account that the token names, if it names one, the assertion
  -- is verified for the token's challenge, the account is active, and the counter of the assertion is
  -- above the stored one, or both are 0, as with a passkey that keeps no count.
  pub complete_passkey_login-IsAsserted :
      (a : PasskeyLoginAttempt) (s s' : Site) (cookie : Text) (setup : Bool)
      → complete_passkey_login u d v w t fresh a s ≡ some (session_issued cookie setup, s')
      → IsAsserted a s
  unfolding complete_passkey_login asserted reject
  complete_passkey_login-IsAsserted a s s' cookie setup h =
      let pending = (consume v t.taken_at passkey_login a.login_token s.tokens).0 in
      let taken : Site = record s {
        tokens = (consume v t.taken_at passkey_login a.login_token s.tokens).1;
      } in
      elim (Option-cases pending) [
        | inl e ↦ ground (arith, h, e)
        | inr (payload, e) ↦ elim (Option-cases (w.loads_challenge payload)) [
          | inl f ↦ ground (arith, h, e, f)
          | inr ((expected, challenge), f) ↦
              elim (Option-cases (offered u d v w t fresh expected a.response_json s.db)) [
                | inl g ↦ ground (arith, h, e, f, g)
                | inr (stored, g) ↦
                    elim (Option-cases (
                      w.verify_webauthn_authentication a.response_json challenge stored.public_key
                        stored.sign_count)) [
                          | inl k ↦ ground (arith, h, e, f, g, k)
                          | inr (n, k) ↦
                              let (user, advanced, known, active) =
                                touched_user stored n taken s' cookie setup
                                  (ground (arith, h, e, f, g, k)) in
                              record {
                                payload = payload;
                                expected = expected;
                                challenge = challenge;
                                stored = stored;
                                new_sign_count = n;
                                user = user;
                                pending = e;
                                named = f;
                                credential = g;
                                owner = offered_owner expected a.response_json s.db stored g;
                                verified = k;
                                counted = advanced;
                                known = known;
                                active = active;
                              }
                        ]
              ]
        ]
      ]
