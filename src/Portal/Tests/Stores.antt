-- ===== src/Portal/Tests/Stores.antt =====
-- packages/portal: the theorems on the breakers' table, the expiring store, the throttle and the
-- slots at concrete inputs.
use docs_pe.Common.Eq.{text_eq_key}
use docs_pe.Common.{
  ◌==◌, ◌&&◌, true, false, ℕ, ◌+◌, ◌≡◌, refl, false, not, ◌&&◌, none, some, List, [], ◌∷◌, Text,
  text, text_eq, arith, inl, leb, ltb,
}
use docs_pe.Common.Dict.{lookup}
use docs_pe.Core.Breaker.{CircuitBreaker, Outcome, default_tuning}
use docs_pe.Core.Breaker
use docs_pe.Core.Breaker.State.{IsCoherent}
use docs_pe.Portal.Breakers.{health_of}
use docs_pe.Portal.Breakers.Refines.{Report, view, replay_table, reports_of, health_of-replay_table}
use docs_pe.Portal.Ephemeral.{EphemeralStore, live_entry}
use docs_pe.Portal.Slots.{is_free, Lease, Slot, claim}
use docs_pe.Portal.Slots.Leases.{
  HasUniqueSlots, lease_of, lease_of-claim, granted, Call, claims, releases, calls, calls_foreign,
}
use docs_pe.Portal.Throttle.{
  mutation_key, account_key, source_key, is_spent, allows, login_window, login_attempt_limit,
}
use docs_pe.Portal.Throttle.Cap.{verdicts, admits, admits_window}
use docs_pe.Portal.Throttle.Lock.{Failure, allows-record_failures, record_failures}
use docs_pe.Portal.Tests.{signs, ascii}

abbrev no_entries : EphemeralStore
no_entries = []

abbrev one : EphemeralStore
one = (text "k", record { value = text "v"; expires_at = 100 }) ∷ []

no_value : live_entry 200 (text "k") one ≡ none
unfolding live_entry lookup text_eq
no_value = refl

no_request : live_entry 7 (mutation_key (text "ana") (text "jobs")) [] ≡ none
unfolding live_entry lookup
no_request = refl

admits_window_example :
    (s' : EphemeralStore) × (admits signs (7 ∷ 8 ∷ []) (text "ana") (text "jobs") []
      ≡ some (verdicts 1 (7 ∷ 8 ∷ []), s'))
admits_window_example =
    admits_window signs 7 (8 ∷ []) (text "ana") (text "jobs") [] no_request (omega arith, tt)

abbrev failed_login : ℕ → Failure
failed_login t = record { first = t; second = t + 1; source = text "10.0.0.1" }

no_failure : live_entry 5 (account_key ascii (text "ana")) [] ≡ none
unfolding live_entry lookup
no_failure = refl

no_counter : (source : Text) → lookup (source_key source) no_entries ≡ none
unfolding lookup
no_counter source = refl

allows-record_failures_example :
    (s' : EphemeralStore) × (record_failures ascii signs
        (text "ana")
        (failed_login 5 ∷ failed_login 6 ∷ failed_login 7 ∷ failed_login 8 ∷ failed_login 9 ∷ [])
        []
      ≡ some s')
    × ((now later : ℕ) (source : Text)
        → is_spent ascii signs later (source_key source) s' ≡ some false
        → allows ascii signs now later (text "ana") source s'
          ≡ some (not (ltb now (5 + login_window) && leb login_attempt_limit 5)))
allows-record_failures_example =
    allows-record_failures ascii signs (text "ana") (failed_login 5)
      (failed_login 6 ∷ failed_login 7 ∷ failed_login 8 ∷ failed_login 9 ∷ []) [] no_failure
      (λ source. inl (no_counter source))
      (omega arith, (omega arith, (omega arith, (omega arith, tt))))

abbrev ana_lease : Lease
ana_lease = record { worker_id = text "w1"; lane_index = 0; lease_expires_at = 100 }

abbrev slots : List Slot
slots =
    record { provider = text "g"; slot_id = 0; lease = some ana_lease }
    ∷ record { provider = text "g"; slot_id = 1; lease = none }
    ∷ []

slots_unique : HasUniqueSlots slots
unfolding text_eq
slots_unique = (refl, (refl, tt))

second_free : (claim 90 (text "g") (text "w2") 3 slots).0 ≡ some 1
unfolding claim text_eq
second_free = refl

first_other : text_eq (text "w1") (text "w2") ≡ false
unfolding text_eq
first_other = refl

lease_of-claim_example :
    (is_free 90 (lease_of (text "g") 1 slots) ≡ true)
    × (lease_of (text "g") 1 (claim 90 (text "g") (text "w2") 3 slots).1
        ≡ some (granted 90 (text "w2") 3))
    × ((q : Text) (j : ℕ)
        → (text_eq (text "g") q && 1 == j) ≡ false
        → lease_of q j (claim 90 (text "g") (text "w2") 3 slots).1 ≡ lease_of q j slots)
lease_of-claim_example = lease_of-claim 90 (text "g") (text "w2") 3 1 slots slots_unique second_free

first_held : lease_of (text "g") 0 slots ≡ some ana_lease
unfolding lease_of text_eq
first_held = refl

abbrev foreign_calls : List Call
foreign_calls = claims 100 (text "g") (text "w2") 3 ∷ releases (text "g") 0 (text "w2") ∷ []

calls_foreign_example : lease_of (text "g") 0 (calls foreign_calls slots) ≡ some ana_lease
calls_foreign_example =
    calls_foreign (text "g") 0 ana_lease foreign_calls slots (omega arith, (first_other, tt))
      first_held

abbrev fresh_breaker : CircuitBreaker
fresh_breaker = record {
  provider = text "g";
  source = text "osiptel";
  tuning = default_tuning;
  consecutive = 0;
  level = 0;
  open_until = 0;
  open_until_at = none;
}

fresh-IsCoherent : IsCoherent fresh_breaker
fresh-IsCoherent = record {
  usable = record { threshold = omega arith; base = omega arith; cap = omega arith };
  below = omega arith;
  shut_level = λ h. refl;
  shut_at = λ h. refl;
  shut_deadline = λ h. refl;
}

abbrev report : Text → ℕ → Report
report provider t = record {
  source = text "osiptel";
  provider = provider;
  clock = record { monotonic = t; utc = t + 1000 };
  outcome = Outcome.failure;
}

no_breaker_row : health_of (text "osiptel") (text "g") [] ≡ view fresh_breaker
unfolding health_of
no_breaker_row = refl

health_of-replay_table_example :
    health_of
      (text "osiptel")
      (text "g")
      (replay_table (report (text "g") 1 ∷ report (text "d") 2 ∷ []) [])
    ≡ view (
        Breaker.replay
          (reports_of (text "osiptel") (text "g") (report (text "g") 1 ∷ report (text "d") 2 ∷ []))
          fresh_breaker)
health_of-replay_table_example =
    health_of-replay_table (report (text "g") 1 ∷ report (text "d") 2 ∷ []) (text "osiptel")
      (text "g") fresh_breaker [] fresh-IsCoherent refl no_breaker_row
