-- ===== src/Core/Tests.antt =====
-- packages/core: the theorems of this folder at concrete inputs.
mod Sites
mod Proxies
use docs_pe.Common.{
  ℕ, ◌+◌, ◌≡◌, refl, Bool, true, false, ◌&&◌, some, [], ◌∷◌, text, all, length, arith, inl, inr,
  leb, ◌==◌, if◌then◌else◌,
}
use docs_pe.Common.Unicode.{Unicode, strip, lstrip}
use docs_pe.Core.Doc.{Doc, DocKind, parse_doc, normalized, zfill}
use docs_pe.Core.Doc.Normal.{digits_of, parse_doc_normal}
use docs_pe.Core.Breaker.{
  Clock, CircuitBreaker, BreakerState, Outcome, default_tuning, new_breaker, replay,
  monotonic_deadline,
}
use docs_pe.Core.Breaker.State.{IsCoherent, IsUsable, IsSaved}
use docs_pe.Core.Policy.{ban_signal}
use docs_pe.Core.Session.{new_state, closed, opened}
use docs_pe.Core.Fetch.{Reply, Lane, fetch_one}
use docs_pe.Core.Fetch.Attempts.{IsComplete, fetch_one-IsComplete}
use docs_pe.Core.Fetch.Shared.{history, fetch_one-IsShared}

-- Python's classes, on the ASCII digits and the space.
abbrev ascii_digit : ℕ → Bool
ascii_digit c = leb 48 c && leb c 57

ascii_unicode_law : (c : ℕ) → ascii_digit c ≡ true → (c == 32) ≡ false
ascii_unicode_law c h = ground arith

abbrev ascii : Unicode
ascii = record {
  is_space = λ c. c == 32;
  is_digit = ascii_digit;
  lower = λ t. t;
  zero_digit = refl;
  digit_not_space = ascii_unicode_law;
}

abbrev dni : Doc
dni = record { value = text "01234567"; kind = DocKind.dni }

dni_read : parse_doc ascii (text " 1234567 ") ≡ some dni
unfolding parse_doc strip lstrip normalized zfill
dni_read = refl

parse_doc_normal_example :
    (all ascii_digit dni.value ≡ true)
    × (length dni.value ≡ digits_of ascii dni.kind)
    × (parse_doc ascii dni.value ≡ some dni)
parse_doc_normal_example = parse_doc_normal ascii (text " 1234567 ") dni dni_read

abbrev clock : ℕ → Clock
clock t = record { monotonic = t; utc = t + 1000 }

abbrev saved : BreakerState
saved = record {
  source = text "osiptel";
  provider = text "geonode";
  consecutive_failures = 9;
  level = 1;
  open_until = some 1500;
}

default-IsUsable : IsUsable default_tuning
default-IsUsable = record { threshold = omega arith; base = omega arith; cap = omega arith }

saved-IsSaved : (s : BreakerState) → some saved ≡ some s → IsSaved default_tuning s
saved-IsSaved s e = ground arith

abbrev restored : CircuitBreaker
unfolding new_breaker monotonic_deadline
restored = new_breaker (clock 100) (text "geonode") (text "osiptel") default_tuning (some saved)

-- A breaker at work: nine failures so far.
abbrev worn : CircuitBreaker
worn = record {
  provider = text "geonode";
  source = text "osiptel";
  tuning = default_tuning;
  consecutive = 8;
  level = 1;
  open_until = 500;
  open_until_at = some 1500;
}

worn-IsCoherent : IsCoherent worn
worn-IsCoherent = record {
  usable = default-IsUsable;
  below = omega arith;
  shut_level = λ h. ground arith;
  shut_at = λ h. ground arith;
  shut_deadline = λ h. ground arith;
}

abbrev lane : Lane
lane = record {
  site = text "osiptel";
  allows_empty = true;
  provider = text "geonode";
  cfg = record { session_budget = 1; ban_cooldown_s = 30 };
}

-- The first attempt meets a ban, the others a page without rows.
abbrev replies : ℕ → Reply
replies n = record {
  opening = opened (record { proxy = text "p"; session_id = text "s"; egress_ip = [] });
  lookup =
      if n == 1 then inl (record { error_class = ban_signal; detail = text "403" }) else inr [];
  closing = closed;
  elapsed_ms = 20;
  now = clock (600 + n);
  later = clock (601 + n);
  others_before = [];
  others_closing = (clock (600 + n), Outcome.failure) ∷ [];
}

fetch_one-IsComplete_example : IsComplete lane dni (fetch_one lane dni replies new_state worn).0
fetch_one-IsComplete_example = fetch_one-IsComplete lane dni replies new_state worn (λ n. tt)

fetch_one-IsShared_example :
    (fetch_one lane dni replies new_state worn).1.breaker
    ≡ replay (history replies (fetch_one lane dni replies new_state worn).1.attempts) worn
fetch_one-IsShared_example = fetch_one-IsShared lane dni replies new_state worn
