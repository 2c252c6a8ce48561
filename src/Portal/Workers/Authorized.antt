-- ===== src/Portal/Workers/Authorized.antt =====
-- packages/portal/portal/repository/workers.py: who is authorized after any issues, revocations and
-- heartbeats.
use docs_pe.Common.{
  ℕ, ◌≡◌, refl, ap, ◌∙◌, Bool, true, false, ◌&&◌, Option, none, some, List, [], ◌∷◌, Text,
  if◌then◌else◌, arith, Bool-cases, Option-cases, inl, inr, text_eq, text_eq_iff, ◌⊎◌,
}
use docs_pe.Common.Table.{first, update}
use docs_pe.Common.Unicode.{Unicode}
use docs_pe.Portal.Workers.{
  Worker, WorkerIdentity, Refusal, Answer, ok, err, valid_worker_id, is_of, is_live, reissued,
  is_hostname, issue, revoke, authorize, record_heartbeat,
}

-- A transaction on the workers.
pub data Call : Type 0 where
  issues : ℕ → Text → Text → Text → Call
  revokes : ℕ → Text → Call
  beats : ℕ → Text → Option ℕ → Option ℕ → Option ℕ → Call

-- The hash that a name has among the workers that are not revoked.
abbrev hash_in : Option Worker → Option Text
hash_in none = none
hash_in (some w) = some w.credential_hash

abbrev live_hash : Text → List Worker → Option Text
live_hash name ws = hash_in (first (is_live name) ws)

reissued_live :
    (name h hostname : Text) (ws : List Worker) (w : Worker)
    → first (is_of name) ws ≡ some w
    → live_hash name (update (is_of name) (reissued h hostname) ws) ≡ some h
reissued_live name h hostname [] w e = ground (arith, e)
reissued_live name h hostname (r ∷ rs) w e = ground (arith, e, reissued_live name h hostname rs w)

reissued_other :
    (n name h hostname : Text) (ws : List Worker)
    → text_eq n name ≡ false
    → live_hash name (update (is_of n) (reissued h hostname) ws) ≡ live_hash name ws
reissued_other n name h hostname [] e = refl
reissued_other n name h hostname (r ∷ rs) e = ground (
  arith,
  e,
  reissued_other n name h hostname rs e,
  text_eq_iff r.worker_id n,
  text_eq_iff r.worker_id name,
  text_eq_iff n name,
)

revoked_live :
    (now : ℕ) (n name : Text) (ws : List Worker)
    → live_hash name (update (is_live n) (λ w. record w { revoked_at = some now }) ws)
      ≡ (if text_eq n name then none else live_hash name ws)
revoked_live now n name [] = ground arith
revoked_live now n name (r ∷ rs) = ground (
  arith,
  revoked_live now n name rs,
  text_eq_iff r.worker_id n,
  text_eq_iff r.worker_id name,
  text_eq_iff n name,
)

beaten_live :
    (now : ℕ) (n name : Text) (a b c : Option ℕ) (ws : List Worker)
    → live_hash name (record_heartbeat now n a b c ws) ≡ live_hash name ws
unfolding record_heartbeat
beaten_live now n name a b c [] = refl
beaten_live now n name a b c (r ∷ rs) = ground (arith, beaten_live now n name a b c rs)

Answer-cases : {A : Type 0} (r : Answer A) → ((e : Refusal) × (r ≡ err e)) ⊎ ((a : A) × (r ≡ ok a))
Answer-cases (ok a) = inr (a, refl)
Answer-cases (err e) = inl (e, refl)

module _ (u : Unicode) (token_hash : Text → Text) where
  abbrev pub call : Call → List Worker → List Worker
  call (issues id n credential hostname) ws = (issue u token_hash id n credential hostname ws).1
  call (revokes now n) ws = (revoke now n ws).1
  call (beats now n a b c) ws = record_heartbeat now n a b c ws

  abbrev pub calls : List Call → List Worker → List Worker
  calls [] ws = ws
  calls (c ∷ cs) ws = calls cs (call c ws)

  -- What a call makes of the hash that a name is authorized by, told without a table: an issue that is
  -- accepted sets the hash of the name without its surrounding spaces, and a revocation takes it.
  abbrev pub entitled_after : Text → Call → Option Text → Option Text
  entitled_after name (issues id n credential hostname) old = elim (valid_worker_id u n) [
    | err e ↦ old
    | ok m ↦ if is_hostname hostname && text_eq m name then some (token_hash credential) else old
  ]
  entitled_after name (revokes now n) old = if text_eq n name then none else old
  entitled_after name (beats now n a b c) old = old

  abbrev pub entitled : Text → List Call → Option Text → Option Text
  entitled name [] old = old
  entitled name (c ∷ cs) old = entitled name cs (entitled_after name c old)

  abbrev pub is_hash_of : Text → Option Text → Bool
  is_hash_of credential none = false
  is_hash_of credential (some h) = text_eq h (token_hash credential)

  issued_live :
      (id : ℕ) (n name credential hostname : Text) (ws : List Worker)
      → live_hash name (issue u token_hash id n credential hostname ws).1
        ≡ entitled_after name (issues id n credential hostname) (live_hash name ws)
  unfolding issue
  issued_live id n name credential hostname ws = elim (Answer-cases (valid_worker_id u n)) [
    | inl (e, bad) ↦ rw (bad, issue, entitled_after) refl
    | inr (m, good) ↦ elim (Bool-cases (is_hostname hostname)) [
      | inr h ↦ rw (good, issue, entitled_after) (rw h refl)
      | inl h ↦ elim (Option-cases (first (is_of m) ws)) [
        | inl none_yet ↦ rw (good, issue, entitled_after) (rw h (rw none_yet (ground arith)))
        | inr (w, there) ↦ elim (Bool-cases (text_eq m name)) [
          | inl same ↦
              let e : m ≡ name = (text_eq_iff m name).0 same in
              rw (good, issue, entitled_after)
                (rw h (
                  rw there (
                    rw e (
                      ground (
                        arith,
                        reissued_live name (token_hash credential) hostname ws w,
                        ap (λ k. first (is_of k) ws) e,
                        there,
                        text_eq_iff name name,
                      )))))
          | inr other ↦
              rw (good, issue, entitled_after)
                (rw h (
                  rw there
                    (rw other (reissued_other m name (token_hash credential) hostname ws other))))
        ]
      ]
    ]
  ]

  call_live :
      (name : Text) (c : Call) (ws : List Worker)
      → live_hash name (call c ws) ≡ entitled_after name c (live_hash name ws)
  unfolding revoke
  call_live name (issues id n credential hostname) ws = issued_live id n name credential hostname ws
  call_live name (revokes now n) ws = revoked_live now n name ws
  call_live name (beats now n a b c) ws = beaten_live now n name a b c ws

  calls_live :
      (name : Text) (cs : List Call) (ws : List Worker)
      → live_hash name (calls cs ws) ≡ entitled name cs (live_hash name ws)
  calls_live name [] ws = refl
  calls_live name (c ∷ cs) ws =
      calls_live name cs (call c ws) ∙ ap (λ o. entitled name cs o) (call_live name c ws)

  abbrev pub is_ok : Answer WorkerIdentity → Bool
  is_ok (ok r) = true
  is_ok (err e) = false

  authorized_live :
      (name credential : Text) (ws : List Worker)
      → is_ok (authorize token_hash name credential ws) ≡ is_hash_of credential (live_hash name ws)
  unfolding authorize
  authorized_live name credential [] = refl
  authorized_live name credential (r ∷ rs) = ground (arith, authorized_live name credential rs)

  -- After any issues, revocations and heartbeats, a worker is authorized by a credential exactly where
  -- the last accepted issue for its name had that credential, by its hash, and no revocation of the
  -- name came since; so a new credential replaces the one before and a revoked worker stays out until
  -- it is issued again.
  pub authorize-calls :
      (name credential : Text) (cs : List Call)
      → is_ok (authorize token_hash name credential (calls cs []))
        ≡ is_hash_of credential (entitled name cs none)
  authorize-calls name credential cs =
      authorized_live name credential (calls cs [])
      ∙ ap (is_hash_of credential) (calls_live name cs [])
