-- ===== src/Core/Session.antt =====
-- packages/core/core/pipeline/session.py: the proxied session of a lane. What the proxy provider,
-- the HTTP client and the site do is told by the replies; `handed_out` and `released` list the
-- proxies that `provider.new_session` gave and that `provider.release` got, the newest first.
use docs_pe.Common.{
  ℕ, ◌+◌, ◌⊎◌, inl, inr, max, Bool, true, false, Option, none, some, List, [], ◌∷◌, Text, leb, ltb,
  if◌then◌else◌,
}
use docs_pe.Core.Policy.{ErrorClass}

-- An exception with its text.
pub record Exc : Type 0 where
  pub error_class : ErrorClass
  pub detail : Text

pub record WorkerConfig : Type 0 where
  pub session_budget : ℕ
  pub ban_cooldown_s : ℕ

pub record WorkerSession : Type 0 where
  pub proxy : Text
  pub session_id : Text
  pub egress_ip : Text

pub record WorkerState : Type 0 where
  pub session : Option WorkerSession
  pub cooldown_until : ℕ
  pub uses : ℕ
  pub last_proxy_id : Text
  pub handed_out : List Text
  pub released : List Text

abbrev pub new_state : WorkerState
new_state = record {
  session = none;
  cooldown_until = 0;
  uses = 0;
  last_proxy_id = [];
  handed_out = [];
  released = [];
}

-- What comes of closing a session: `client.aclose` and then `provider.release` may raise.
pub data Closing : Type 0 where
  closed close_raised release_raised : Closing

-- What comes of opening one: `new_session` raises, or `build_client` does with a proxy in hand, or
-- `ready` or the egress lookup does with the client there too, or the session is ready.
pub data Opening : Type 0 where
  new_session_raised : Exc → Opening
  client_raised : Text → Exc → Opening
  ready_raised : Text → Exc → Opening
  opened : WorkerSession → Opening

-- `aclose`, then `release`
abbrev pub release : Closing → Text → WorkerState → WorkerState
release close_raised proxy s = s
release _ proxy s = record s { released = proxy ∷ s.released }

-- `_open_session` with the assignments of `ensure_session` after it. The client is built before the
-- `try`, so that its exception leaves the proxy with no release.
unfoldable pub open_session : Closing → Opening → WorkerState → (Exc ⊎ WorkerSession) × WorkerState
open_session closing (new_session_raised e) s = (inl e, s)
open_session closing (client_raised proxy e) s =
    (inl e, record s { handed_out = proxy ∷ s.handed_out })
open_session closing (ready_raised proxy e) s =
    (inl e, release closing proxy (record s { handed_out = proxy ∷ s.handed_out }))
open_session closing (opened w) s =
    (inr w, record s { session = some w; uses = 0; handed_out = w.proxy ∷ s.handed_out })

abbrev pub ensure_from :
    Closing → Opening → WorkerState → Option WorkerSession → (Exc ⊎ WorkerSession) × WorkerState
ensure_from closing o s (some w) = (inr w, s)
ensure_from closing o s none = open_session closing o s

unfoldable pub ensure_session :
    Closing → Opening → WorkerState → (Exc ⊎ WorkerSession) × WorkerState
ensure_session closing o s = ensure_from closing o s s.session

abbrev pub close_from : Closing → WorkerState → Option WorkerSession → WorkerState
close_from closing s none = s
close_from closing s (some w) = release closing w.proxy (record s { session = none })

unfoldable pub close_session : Closing → WorkerState → WorkerState
close_session closing s = close_from closing s s.session

abbrev pub used_from : WorkerConfig → Closing → WorkerState → Option WorkerSession → WorkerState
used_from cfg closing s none = s
used_from cfg closing s (some w) =
    if leb cfg.session_budget (s.uses + 1)
    then close_session closing (record s { uses = s.uses + 1 })
    else record s { uses = s.uses + 1 }

-- `after_success`, whose exceptions are suppressed
unfoldable pub after_success : WorkerConfig → Closing → WorkerState → WorkerState
after_success cfg closing s = used_from cfg closing s s.session

abbrev pub noted : Option WorkerSession → WorkerState → WorkerState
noted none s = s
noted (some w) s = record s { last_proxy_id = w.proxy }

-- A session that was there was closed without an exception.
abbrev pub has_closed : Closing → Option WorkerSession → Bool
has_closed closing none = true
has_closed closed (some w) = true
has_closed _ (some w) = false

abbrev pub cooled : ℕ → ℕ → WorkerState → WorkerState
cooled now cooldown_s s =
    if ltb 0 cooldown_s
    then record s { cooldown_until = max s.cooldown_until (now + cooldown_s) }
    else s

-- `rotate_session`, whose exceptions are suppressed: the cooldown is set only after a close that
-- did not raise.
unfoldable pub rotate_session : ℕ → Closing → ℕ → WorkerState → WorkerState
rotate_session now closing cooldown_s s =
    let s' = close_session closing (noted s.session s) in
    if has_closed closing s.session then cooled now cooldown_s s' else s'

abbrev pub ids_of : Text → Option WorkerSession → Text × Text
ids_of last_proxy_id none = ([], last_proxy_id)
ids_of last_proxy_id (some w) = (w.session_id, w.proxy)

unfoldable pub session_ids : WorkerState → Text × Text
session_ids s = ids_of s.last_proxy_id s.session
