-- ===== src/Portal/Login/Second.antt =====
-- packages/portal/portal/application/login.py: the second step of a login, which a pending token pays.
use docs_pe.Common.{
  ℕ, ◌+◌, text, ◌≤◌, Bool, true, false, ◌||◌, ◌≡◌, refl, ◌∙◌, Option, none, some, List, [], ◌∷◌,
  Text, arith, Bool-cases, Option-cases, inl, inr, any, text_eq,
}
use docs_pe.Common.Unicode.{Unicode}
use docs_pe.Common.Dict.{lookup, lookup-put}
use docs_pe.Common.Eq.{text_eq_key}
use docs_pe.Common.Table.{update}
use docs_pe.Portal.Ephemeral.{EphemeralStore, Decimal, increment, put_new, take, live_entry}
use docs_pe.Portal.Throttle
use docs_pe.Portal.Sessions.Tokens.{consume-peek}
use docs_pe.Portal.Sessions.{
  Services, Readings, consume, mint, session_key, token_key, session_idle,
}
use docs_pe.Portal.Accounts.{Database, PortalUser, ProtectedSecret, RecoveryCode}
use docs_pe.Portal.Accounts.Auth
use docs_pe.Portal.Provisioning.{Site}
use docs_pe.Portal.Login.{
  Verifiers, Clock, Draws, MfaAttempt, LoginOutcome, session_issued, pending_mfa, pending_user,
  second_factor_accepted, second_step, complete_mfa, establish, count_failure, reject,
}

spent_codes :
    (now user_id : ℕ) (hash : Text) (codes : List RecoveryCode)
    → any
        (Auth.is_spendable user_id hash)
        (update (Auth.is_spendable user_id hash) (λ c. record c { used_at = some now }) codes)
      ≡ false
spent_codes now user_id hash [] = refl
spent_codes now user_id hash (c ∷ codes) = ground (arith, spent_codes now user_id hash codes)

-- A recovery code is accepted where an unused one is there, and not once more.
pub recovery_code_once :
    (now later user_id : ℕ) (hash : Text) (db : Database)
    → ((Auth.consume_recovery_code now user_id hash db).0
        ≡ any (Auth.is_spendable user_id hash) db.recovery_codes)
      × ((Auth.consume_recovery_code later user_id hash
            (Auth.consume_recovery_code now user_id hash db).1).0
          ≡ false)
unfolding Auth.consume_recovery_code
recovery_code_once now later user_id hash db =
    (refl, spent_codes now user_id hash db.recovery_codes)

-- A counter that moves leaves the rows of other keys alone.
increment_other :
    (d : Decimal) (now ttl n : ℕ) (key j : Text) (s s' : EphemeralStore)
    → text_eq key j ≡ false
    → increment d now key ttl s ≡ some (n, s')
    → lookup j s' ≡ lookup j s
unfolding increment
increment_other d now ttl n key j s s' other h = elim (Option-cases (live_entry now key s)) [
  | inl e ↦
      ground (arith, h, e, lookup-put key j (record { value = text "1"; expires_at = now + ttl }) s)
  | inr (entry, e) ↦ elim (Option-cases (d.parse entry.value)) [
    | inl f ↦ ground (arith, h, e, f)
    | inr (m, f) ↦ ground (
      arith,
      h,
      e,
      f,
      lookup-put key j (record { value = d.render (m + 1); expires_at = entry.expires_at }) s,
    )
  ]
]

failure_other :
    (u : Unicode) (d : Decimal) (now later : ℕ) (email source j : Text) (s s' : EphemeralStore)
    → text_eq (Throttle.account_key u email) j ≡ false
    → text_eq (Throttle.source_key source) j ≡ false
    → Throttle.record_failure u d now later email source s ≡ some s'
    → lookup j s' ≡ lookup j s
unfolding Throttle.record_failure
failure_other u d now later email source j s s' x y h =
    elim (Option-cases (increment d now (Throttle.account_key u email) Throttle.login_window s)) [
      | inl e ↦ ground (arith, h, e)
      | inr ((n, s1), e) ↦
          elim (Option-cases
            (increment d later (Throttle.source_key source) Throttle.login_window s1)) [
              | inl f ↦ ground (arith, h, e, f)
              | inr ((m, s2), f) ↦ ground (
                arith,
                h,
                e,
                f,
                increment_other d now Throttle.login_window n (Throttle.account_key u email) j s s1
                    x e,
                increment_other d later Throttle.login_window m (Throttle.source_key source) j s1 s2
                    y f,
              )
            ]
    ]

module _ (v : Services) where
  mint_other :
      (t : Readings) (token csrf user_id j : Text) (verified : Option ℕ) (s : EphemeralStore)
      → text_eq (session_key v token) j ≡ false
      → lookup j (mint v t token csrf user_id verified s) ≡ lookup j s
  unfolding mint put_new
  mint_other t token csrf user_id j verified s x = ground (
    arith,
    lookup-put (session_key v token) j
        (record {
          value = v.dumps (record {
            user_id = user_id;
            csrf_token = csrf;
            created_at = t.utc;
            mfa_verified_at = verified;
          });
          expires_at = t.refresh_at + session_idle;
        })
        s,
  )

  -- The keys of pending tokens are neither sessions' nor counters'.
  pending_apart :
      (u : Unicode) (token email source pending : Text)
      → (text_eq (session_key v token) (token_key v pending_mfa pending) ≡ false)
        × (text_eq (Throttle.account_key u email) (token_key v pending_mfa pending) ≡ false)
        × (text_eq (Throttle.source_key source) (token_key v pending_mfa pending) ≡ false)
  unfolding text_eq
  pending_apart u token email source pending = (refl, refl, refl)

  consume_same :
      (later : ℕ) (purpose token : Text) (s s' : EphemeralStore)
      → lookup (token_key v purpose token) s' ≡ lookup (token_key v purpose token) s
      → (consume v later purpose token s').0 ≡ (consume v later purpose token s).0
  unfolding consume take live_entry
  consume_same later purpose token s s' h = ground (arith, h)

module _ (u : Unicode) (d : Decimal) (v : Services) (w : Verifiers) (t : Clock)
    (fresh : Draws) where
  -- What a second step that gives a session must have been.
  pub record IsCompleted (a : MfaAttempt) (s : Site) : Type 0 where
    pub payload : Text
    pub user_id : ℕ
    pub user : PortalUser
    pub secret : ProtectedSecret
    pub pending : (consume v t.taken_at pending_mfa a.pending_token s.tokens).0 ≡ some payload
    pub named : w.uuid payload ≡ some user_id
    pub known : Auth.user_by_id user_id s.db ≡ some user
    pub enrolled : Auth.mfa_secret user.id s.db ≡ some secret
    pub code :
        (w.totp_matches (w.reveal secret) a.code
          || any (Auth.is_spendable user.id (v.token_hash a.code)) s.db.recovery_codes)
        ≡ true

  -- A session from the second step, for an account that the token names.
  step_proof :
      (a : MfaAttempt) (s s1 s' : Site) (payload : Text) (user_id : ℕ) (user : PortalUser)
      (cookie : Text) (setup : Bool)
      → s1.db ≡ s.db
      → (consume v t.taken_at pending_mfa a.pending_token s.tokens).0 ≡ some payload
      → w.uuid payload ≡ some user_id
      → Auth.user_by_id user_id s.db ≡ some user
      → second_step u d v w t fresh a (some user) s1 ≡ some (session_issued cookie setup, s')
      → IsCompleted a s
  unfolding second_step second_factor_accepted Auth.consume_recovery_code
  step_proof a s s1 s' payload user_id user cookie setup same p n k h =
      elim (Option-cases (Auth.mfa_secret user.id s.db)) [
        | inl e ↦
            elim (Option-cases (
              Throttle.record_failure u d t.failed_account_at t.failed_source_at user.email a.source
                s1.tokens)) [
                  | inl f ↦ unfold count_failure in ground (arith, h, same, e, f)
                  | inr (tokens, f) ↦
                      unfold count_failure in unfold reject in ground (arith, h, same, e, f)
                ]
        | inr (secret, e) ↦ record {
          payload = payload;
          user_id = user_id;
          user = user;
          secret = secret;
          pending = p;
          named = n;
          known = k;
          enrolled = e;
          code =
              elim (Option-cases (
                Throttle.record_failure u d t.failed_account_at t.failed_source_at user.email
                  a.source s1.tokens)) [
                    | inl f ↦ unfold count_failure in ground (arith, h, same, e, f)
                    | inr (tokens, f) ↦
                        unfold count_failure in unfold reject in ground (arith, h, same, e, f)
                  ];
        }
      ]

  -- The rows of pending tokens that the second step leaves.
  step_rows :
      (a : MfaAttempt) (found : Option PortalUser) (pending : Text) (s s' : Site) (r : LoginOutcome)
      → second_step u d v w t fresh a found s ≡ some (r, s')
      → lookup (token_key v pending_mfa pending) s'.tokens
        ≡ lookup (token_key v pending_mfa pending) s.tokens
  unfolding second_step
  step_rows a none pending s s' r h = unfold reject in ground (arith, h)
  step_rows a (some user) pending s s' r h =
      let (x, y, z) = pending_apart v u fresh.cookie_token user.email a.source pending in
      elim (Bool-cases (second_factor_accepted u d v w t fresh user.id a.code s.db).0) [
        | inl e ↦
            unfold establish in
            ground (
              arith,
              h,
              e,
              mint_other v t.minted fresh.cookie_token fresh.csrf_token (w.uuid_text user.id)
                  (token_key v pending_mfa pending) (some t.minted.utc) s.tokens x,
            )
        | inr e ↦
            elim (Option-cases (
              Throttle.record_failure u d t.failed_account_at t.failed_source_at user.email a.source
                s.tokens)) [
                  | inl f ↦ unfold count_failure in ground (arith, h, e, f)
                  | inr (tokens, f) ↦
                      unfold count_failure in
                      unfold reject in
                      ground (
                        arith,
                        h,
                        e,
                        f,
                        failure_other u d t.failed_account_at t.failed_source_at user.email a.source
                            (token_key v pending_mfa pending) s.tokens tokens y z f,
                      )
                ]
      ]

  completed :
      (a : MfaAttempt) (s s1 s' : Site) (payload : Text) (user_id : ℕ) (cookie : Text)
      (setup : Bool) (found : Option PortalUser)
      → Auth.user_by_id user_id s.db ≡ found
      → s1.db ≡ s.db
      → (consume v t.taken_at pending_mfa a.pending_token s.tokens).0 ≡ some payload
      → w.uuid payload ≡ some user_id
      → second_step u d v w t fresh a found s1 ≡ some (session_issued cookie setup, s')
      → IsCompleted a s
  unfolding second_step
  completed a s s1 s' payload i cookie setup none k same p n h = unfold reject in ground (arith, h)
  completed a s s1 s' payload i cookie setup (some user) k same p n h =
      step_proof a s s1 s' payload i user cookie setup same p n k h

  -- A second step gives a session only where its pending token was live and names an account with
  -- TOTP, and the code is the TOTP code or an unused recovery code; and whatever it gives, a session
  -- or a refusal, the token pays for no other step, so that each login by password has one guess.
  pub complete_mfa_once :
      (a : MfaAttempt) (s s' : Site) (r : LoginOutcome)
      → complete_mfa u d v w t fresh a s ≡ some (r, s')
      → ((cookie : Text) (setup : Bool) → r ≡ session_issued cookie setup → IsCompleted a s)
        × ((later : ℕ)
            → t.taken_at ≤ later
            → (consume v later pending_mfa a.pending_token s'.tokens).0 ≡ none)
  unfolding complete_mfa pending_user
  complete_mfa_once a s s' r h =
      let pending = (consume v t.taken_at pending_mfa a.pending_token s.tokens).0 in
      let taken : Site = record s {
        tokens = (consume v t.taken_at pending_mfa a.pending_token s.tokens).1;
      } in
      elim (Option-cases pending) [
        | inl e ↦ (
          λ cookie setup k. unfold reject in ground (arith, h, e, k),
          λ later le.
              unfold reject in
              ground (
                arith,
                h,
                e,
                (consume-peek v t.taken_at later pending_mfa a.pending_token s.tokens le).1,
              ),
        )
        | inr (payload, e) ↦ elim (Option-cases (w.uuid payload)) [
          | inl f ↦ ground (arith, h, e, f)
          | inr (i, f) ↦
              let stepped : second_step u d v w t fresh a (Auth.user_by_id i s.db) taken
                  ≡ some (r, s') =
                ground (arith, h, e, f) in
              let rows = step_rows a (Auth.user_by_id i s.db) a.pending_token taken s' r stepped in
              (
                λ cookie setup k.
                    completed a s taken s' payload i cookie setup (Auth.user_by_id i s.db) refl refl
                      e f (ground (arith, stepped, k)),
                λ later le.
                    consume_same v later pending_mfa a.pending_token taken.tokens s'.tokens rows
                    ∙ (consume-peek v t.taken_at later pending_mfa a.pending_token s.tokens le).1,
              )
        ]
      ]
