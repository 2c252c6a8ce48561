-- ===== src/Portal/Tests.antt =====
-- packages/portal: the theorems on sessions at concrete inputs.
mod Stores
mod Queues
mod Plans
mod People
mod Doors
mod Logins
mod Vaults
mod Fleet
use docs_pe.Common.{
  ◌<◌, ◌≤◌, ℕ, ◌+◌, ◌≡◌, refl, Bool, true, false, ◌&&◌, Option, none, some, [], ◌∷◌, ◌++◌, Text,
  text, text_eq, length, arith, leb, ◌==◌, if◌then◌else◌, zero, suc, ◌-◌, take, drop, ap,
}
use docs_pe.Common.Dict.{lookup}
use docs_pe.Common.Unicode.{Unicode}
use docs_pe.Core.Breaker
use docs_pe.Portal.Ephemeral.{live_entry, EphemeralStore, Decimal}
use docs_pe.Portal.Ephemeral
use docs_pe.Portal.Sessions.{
  issue, token_key, Services, SessionRecord, PortalUser, Readings, load, session_key, consume, peek,
}
use docs_pe.Portal.Sessions.Created.{IsCreatedAt, loads, use_sessions}
use docs_pe.Portal.Sessions.Lifetime.{loaded, lifetime_limit}
use docs_pe.Portal.Sessions.Tokens.{consume_once}

-- Numbers in one sign, from the digit 0 on.
abbrev parse_sign : Text → Option ℕ
parse_sign [] = none
parse_sign (c ∷ []) = some (c - 48)
parse_sign (c ∷ d ∷ cs) = none

parse_render_sign : (n : ℕ) → parse_sign ((n + 48) ∷ []) ≡ some n
parse_render_sign n = let e : n + 48 - 48 ≡ n = omega arith in rw e refl

abbrev signs : Decimal
signs = record {
  parse = parse_sign;
  render = λ n. (n + 48) ∷ [];
  parse-render = parse_render_sign;
  render_one = refl;
}

abbrev ascii_digit : ℕ → Bool
ascii_digit c = leb 48 c && leb c 57

ascii_law : (c : ℕ) → ascii_digit c ≡ true → (c == 32) ≡ false
ascii_law c h = ground arith

abbrev ascii : Unicode
ascii = record {
  is_space = λ c. c == 32;
  is_digit = ascii_digit;
  lower = λ t. t;
  zero_digit = refl;
  digit_not_space = ascii_law;
}

-- A session record as a text: its times, and the two texts with the length of the first.
abbrev code_time : Option ℕ → ℕ
code_time none = 0
code_time (some t) = t + 1

abbrev time_of : ℕ → Option ℕ
time_of zero = none
time_of (suc n) = some n

time_of-code_time : (o : Option ℕ) → time_of (code_time o) ≡ o
time_of-code_time none = refl
time_of-code_time (some t) = let e : t + 1 ≡ suc t = omega arith in rw e refl

abbrev dumps : SessionRecord → Text
dumps r =
    r.created_at ∷ code_time r.mfa_verified_at ∷ length r.user_id ∷ (r.user_id ++ r.csrf_token)

abbrev loads_text : Text → Option SessionRecord
loads_text (c ∷ m ∷ n ∷ rest) = some (record {
  user_id = take n rest;
  csrf_token = drop n rest;
  created_at = c;
  mfa_verified_at = time_of m;
})
loads_text _ = none

take-append : (xs ys : Text) → take (length xs) (xs ++ ys) ≡ xs
take-append [] ys = refl
take-append (x ∷ xs) ys = ap (λ zs. x ∷ zs) (take-append xs ys)

drop-append : (xs ys : Text) → drop (length xs) (xs ++ ys) ≡ ys
drop-append [] ys = refl
drop-append (x ∷ xs) ys = drop-append xs ys

loads-dumps : (r : SessionRecord) → loads_text (dumps r) ≡ some r
loads-dumps r =
    rw
      (
        take-append r.user_id r.csrf_token,
        drop-append r.user_id r.csrf_token,
        time_of-code_time r.mfa_verified_at,
      )
      refl

abbrev ana : PortalUser
ana = record { id = text "ana"; is_active = true }

abbrev services : Services
services = record {
  token_hash = λ t. t;
  dumps = dumps;
  loads = loads_text;
  loads-dumps = loads-dumps;
  user_by_id = λ id. if text_eq id (text "ana") then some ana else none;
}

abbrev ana_session : SessionRecord
ana_session = record {
  user_id = text "ana";
  csrf_token = text "c";
  created_at = 1000;
  mfa_verified_at = none;
}

abbrev sessions : EphemeralStore
sessions =
    (session_key services (text "t"), record { value = dumps ana_session; expires_at = 43201000 })
    ∷ []

sessions-IsCreatedAt : IsCreatedAt services (session_key services (text "t")) 1000 sessions
unfolding lookup text_eq
sessions-IsCreatedAt e r p q = ground arith

abbrev late : Readings
late = record { read_at = 604801001; utc = 604801001; refresh_at = 604801001 }

abbrev early : Readings
early = record { read_at = 2000; utc = 2000; refresh_at = 2000 }

lifetime_limit_example :
    loaded services
      (load services late (text "t") (use_sessions services (loads early (text "t") ∷ []) sessions))
    ≡ none
lifetime_limit_example =
    lifetime_limit services (loads early (text "t") ∷ []) late (text "t") 1000 sessions
      sessions-IsCreatedAt (omega arith)

no_token : live_entry 10 (token_key services (text "mfa") (text "t")) sessions ≡ none
unfolding live_entry lookup text_eq
no_token = refl

consume_once_example :
    let issued = issue services 10 (text "mfa") (text "t") (text "ana") 30 sessions in
    (15 < 10 + 30
      → (peek services 15 (text "mfa") (text "t") issued ≡ some (text "ana"))
        × ((consume services 15 (text "mfa") (text "t") issued).0 ≡ some (text "ana")))
    × (10 + 30 ≤ 15 → (consume services 15 (text "mfa") (text "t") issued).0 ≡ none)
    × ((consume services 20
          (text "mfa")
          (text "t")
          (consume services 15 (text "mfa") (text "t") issued).1).0
        ≡ none)
    × (peek services 20
          (text "mfa")
          (text "t")
          (consume services 15 (text "mfa") (text "t") issued).1
        ≡ none)
consume_once_example =
    consume_once services 10 15 20 30 (text "mfa") (text "t") (text "ana") sessions refl no_token
      (omega arith)
