-- ===== src/Portal/Slots.antt =====
-- packages/portal/portal/repository/slots.py: the table portal_proxy_slots, one row for each slot of
-- a provider, in the order of the slots. Each statement reads one `now()`; concurrent claims lock
-- different rows, so they act as one after another.
pub mod Leases
use docs_pe.Common.{
  ℕ, ◌+◌, Bool, true, false, ◌&&◌, Option, none, some, List, [], ◌∷◌, Text, text_eq, ltb, ◌==◌, any,
  if◌then◌else◌,
}
use docs_pe.Common.Table.{update}

-- `LEASE_TTL`, in milliseconds.
abbrev pub lease_ttl : ℕ
lease_ttl = 60000

-- The columns that a lease sets together, all of them or none.
pub record Lease : Type 0 where
  pub worker_id : Text
  pub lane_index : ℕ
  pub lease_expires_at : ℕ

pub record Slot : Type 0 where
  pub provider : Text
  pub slot_id : ℕ
  pub lease : Option Lease

-- `worker_id IS NULL OR lease_expires_at < now()`
abbrev pub is_free : ℕ → Option Lease → Bool
is_free now none = true
is_free now (some l) = ltb l.lease_expires_at now

abbrev pub is_candidate : ℕ → Text → Slot → Bool
is_candidate now provider s = text_eq s.provider provider && is_free now s.lease

-- `_CLAIM`: the first free slot of the provider is leased.
unfoldable pub claim : ℕ → Text → Text → ℕ → List Slot → Option ℕ × List Slot
claim now provider worker_id lane_index [] = (none, [])
claim now provider worker_id lane_index (s ∷ ss) =
    let rest = claim now provider worker_id lane_index ss in
    if is_candidate now provider s
    then (
      some s.slot_id,
      record s {
        lease = some (record {
          worker_id = worker_id;
          lane_index = lane_index;
          lease_expires_at = now + lease_ttl;
        });
      }
          ∷ ss,
    )
    else (rest.0, s ∷ rest.1)

abbrev pub is_held_by : Text → Option Lease → Bool
is_held_by worker_id none = false
is_held_by worker_id (some l) = text_eq l.worker_id worker_id

abbrev pub is_slot : Text → ℕ → Slot → Bool
is_slot provider slot_id s = text_eq s.provider provider && s.slot_id == slot_id

-- `_RELEASE`
unfoldable pub release : Text → ℕ → Text → List Slot → List Slot
release provider slot_id worker_id =
    update (λ s. is_slot provider slot_id s && is_held_by worker_id s.lease)
      (λ s. record s { lease = none })

abbrev extended : ℕ → Option Lease → Option Lease
extended now none = none
extended now (some l) = some (record l { lease_expires_at = now + lease_ttl })

-- `_RENEW`, over the pairs of provider and slot that the worker reports
unfoldable pub renew : ℕ → Text → List (Text × ℕ) → List Slot → List Slot
renew now worker_id held =
    update (λ s. is_held_by worker_id s.lease && any (λ (p, i). is_slot p i s) held)
      (λ s. record s { lease = extended now s.lease })
