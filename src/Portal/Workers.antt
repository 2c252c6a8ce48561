-- ===== src/Portal/Workers.antt =====
-- packages/portal/portal/repository/workers.py: the identities of the workers, in portal_workers, and
-- the login roles of the database. Each function is one transaction; `now()` and the id that `uuid4`
-- draws are arguments, and so is the hash of a credential. Of a host name no more is asked than that it
-- is not blank; the measures of a heartbeat, of which nothing is computed, stand as numbers.
pub mod Authorized
use docs_pe.Common.{
  ℕ, ◌-◌, Bool, true, false, not, ◌&&◌, ◌||◌, Option, none, some, List, ◌∷◌, ◌++◌, Text, text, map,
  leb, if◌then◌else◌, any, all, text_eq, is_some, ◌==◌, length,
}
use docs_pe.Common.Table.{select, first, update}
use docs_pe.Common.Dict.{lookup, put}
use docs_pe.Common.Eq.{text_eq_key}
use docs_pe.Common.Unicode.{Unicode, strip}

-- HEARTBEAT_STALE_AFTER, in seconds
abbrev pub heartbeat_stale_after : ℕ
heartbeat_stale_after = 45

-- A row of portal_workers.
pub record Worker : Type 0 where
  pub id : ℕ
  pub worker_id : Text
  pub credential_hash : Text
  pub tailscale_hostname : Text
  pub revoked_at : Option ℕ
  pub last_seen_at : Option ℕ
  pub cpu_percent : Option ℕ
  pub memory_mb : Option ℕ
  pub current_job_id : Option ℕ

pub record WorkerIdentity : Type 0 where
  pub id : ℕ
  pub worker_id : Text
  pub tailscale_hostname : Text

pub record WorkerStatus : Type 0 where
  pub worker_id : Text
  pub online : Bool
  pub last_seen_at : Option ℕ

-- A login role of the database.
pub record Role : Type 0 where
  pub can_login : Bool
  pub password : Option Text
  pub connection_limit : Option ℕ
  pub is_worker : Bool

pub data Refusal : Type 0 where
  worker_id_invalid : Refusal
  worker_not_authorized : Refusal
  check_violation : Refusal

pub data Answer {ℓ} (A : Type ℓ) : Type ℓ where
  ok : A → Answer A
  err : Refusal → Answer A

-- [A-Za-z0-9_-]
abbrev pub is_worker_sign : ℕ → Bool
is_worker_sign c =
    (leb 65 c && leb c 90)
    || ((leb 97 c && leb c 122) || ((leb 48 c && leb c 57) || (c == 95 || c == 45)))

-- `WORKER_ID.fullmatch`
abbrev pub is_worker_id : Text → Bool
is_worker_id t = leb 1 (length t) && (leb (length t) 64 && all is_worker_sign t)

-- `valid_worker_id`
unfoldable pub valid_worker_id : Unicode → Text → Answer Text
unfolding strip
valid_worker_id u worker_id =
    if is_worker_id (strip u worker_id) then ok (strip u worker_id) else err worker_id_invalid

-- `worker_role_name`
unfoldable pub worker_role_name : Unicode → Text → Answer Text
unfolding valid_worker_id
worker_role_name u worker_id = elim (valid_worker_id u worker_id) [
  | err e ↦ err e
  | ok candidate ↦
      if leb (length (text "portal_worker_" ++ candidate)) 63
      then ok (text "portal_worker_" ++ candidate)
      else err worker_id_invalid
]

abbrev pub is_of : Text → Worker → Bool
is_of worker_id w = text_eq w.worker_id worker_id

-- WHERE worker_id = $1 AND revoked_at IS NULL
abbrev pub is_live : Text → Worker → Bool
is_live worker_id w = is_of worker_id w && not (is_some w.revoked_at)

-- ON CONFLICT (worker_id) DO UPDATE
abbrev pub reissued : Text → Text → Worker → Worker
reissued credential_hash hostname w = record w {
  credential_hash = credential_hash;
  tailscale_hostname = hostname;
  revoked_at = none;
}

abbrev pub new_worker : ℕ → Text → Text → Text → Worker
new_worker id worker_id credential_hash hostname = record {
  id = id;
  worker_id = worker_id;
  credential_hash = credential_hash;
  tailscale_hostname = hostname;
  revoked_at = none;
  last_seen_at = none;
  cpu_percent = none;
  memory_mb = none;
  current_job_id = none;
}

abbrev pub is_hostname : Text → Bool
is_hostname hostname = any (λ c. not (c == 32)) hostname

-- `issue`
unfoldable pub issue :
    Unicode → (Text → Text) → ℕ → Text → Text → Text → List Worker → Answer ℕ × List Worker
unfolding valid_worker_id
issue u token_hash new_id worker_id credential hostname ws = elim (valid_worker_id u worker_id) [
  | err e ↦ (err e, ws)
  | ok name ↦
      if is_hostname hostname
      then elim (first (is_of name) ws) [
        | none ↦ (ok new_id, new_worker new_id name (token_hash credential) hostname ∷ ws)
        | some w ↦ (ok w.id, update (is_of name) (reissued (token_hash credential) hostname) ws)
      ]
      else (err check_violation, ws)
]

-- `revoke`
unfoldable pub revoke : ℕ → Text → List Worker → Bool × List Worker
revoke now worker_id ws = (
  any (is_live worker_id) ws,
  update (is_live worker_id) (λ w. record w { revoked_at = some now }) ws,
)

-- `authorize`
unfoldable pub authorize : (Text → Text) → Text → Text → List Worker → Answer WorkerIdentity
authorize token_hash worker_id credential ws = elim (first (is_live worker_id) ws) [
  | none ↦ err worker_not_authorized
  | some w ↦
      if text_eq w.credential_hash (token_hash credential)
      then ok
          (record { id = w.id; worker_id = w.worker_id; tailscale_hostname = w.tailscale_hostname })
      else err worker_not_authorized
]

-- `record_heartbeat`
unfoldable pub record_heartbeat :
    ℕ → Text → Option ℕ → Option ℕ → Option ℕ → List Worker → List Worker
record_heartbeat now worker_id cpu_percent memory_mb current_job_id ws =
    update (is_of worker_id)
      (λ w. record w {
        last_seen_at = some now;
        cpu_percent = cpu_percent;
        memory_mb = memory_mb;
        current_job_id = current_job_id;
      })
      ws

-- Whether a worker last seen at a time counts as online.
abbrev pub is_online : ℕ → Option ℕ → Bool
is_online now none = false
is_online now (some seen) = leb (now - heartbeat_stale_after) seen

-- `all_workers_with_status`, without its order and the measures
unfoldable pub all_workers_with_status : ℕ → List Worker → List WorkerStatus
all_workers_with_status now ws =
    map
      (λ w. record {
        worker_id = w.worker_id;
        online = is_online now w.last_seen_at;
        last_seen_at = w.last_seen_at;
      })
      (select (λ w. not (is_some w.revoked_at)) ws)

-- `provision_login_role`
unfoldable pub provision_login_role :
    Unicode → Text → Text → List (Text × Role) → Answer (Unit {0}) × List (Text × Role)
unfolding worker_role_name
provision_login_role u worker_id password roles = elim (worker_role_name u worker_id) [
  | err e ↦ (err e, roles)
  | ok role ↦ (
    ok tt,
    put role
        (record {
          can_login = true;
          password = some password;
          connection_limit = some 12;
          is_worker = true;
        })
        roles,
  )
]

-- `revoke_login_role`
unfoldable pub revoke_login_role :
    Unicode → Text → List (Text × Role) → Answer (Unit {0}) × List (Text × Role)
unfolding worker_role_name
revoke_login_role u worker_id roles = elim (worker_role_name u worker_id) [
  | err e ↦ (err e, roles)
  | ok role ↦ elim (lookup role roles) [
    | none ↦ (ok tt, roles)
    | some r ↦ (ok tt, put role (record r { can_login = false }) roles)
  ]
]
