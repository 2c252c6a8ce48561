-- ===== src/Portal/Slots/Leases.antt =====
-- packages/portal/portal/repository/slots.py: a slot has one holder until its lease runs out.
use docs_pe.Common.{
  ℕ, ◌+◌, ◌≡◌, ◌≤◌, refl, true, false, ◌&&◌, Option, none, some, List, [], ◌∷◌, Text, text_eq, ◌==◌,
  any, if◌then◌else◌, arith, text_eq_iff, text_eq_refl, All, Bool-cases, inl, inr,
}
use docs_pe.Portal.Slots.{
  Lease, Slot, lease_ttl, is_free, is_candidate, claim, is_slot, release, renew,
}

-- The lease on a slot.
unfoldable pub lease_of : Text → ℕ → List Slot → Option Lease
lease_of p i [] = none
lease_of p i (s ∷ ss) = let rest = lease_of p i ss in if is_slot p i s then s.lease else rest

-- The primary key (provider, slot_id).
abbrev pub HasUniqueSlots : List Slot → Type 0
HasUniqueSlots [] = Unit
HasUniqueSlots (s ∷ ss) = (any (is_slot s.provider s.slot_id) ss ≡ false) × HasUniqueSlots ss

abbrev pub granted : ℕ → Text → ℕ → Lease
granted now worker lane = record {
  worker_id = worker;
  lane_index = lane;
  lease_expires_at = now + lease_ttl;
}

claim-mem :
    (now : ℕ) (p w : Text) (lane i : ℕ) (ss : List Slot)
    → (claim now p w lane ss).0 ≡ some i
    → any (is_slot p i) ss ≡ true
unfolding claim
claim-mem now p w lane i [] h = cc
claim-mem now p w lane i (s ∷ ss) h = ground (arith, claim-mem now p w lane i ss)

module _ (now : ℕ) (p w : Text) (lane i : ℕ) where
  -- A claim hands out a slot that nobody held, or whose lease had run out, and leases it to the
  -- worker alone; every other slot keeps its lease.
  pub lease_of-claim :
      (ss : List Slot)
      → HasUniqueSlots ss
      → (claim now p w lane ss).0 ≡ some i
      → (is_free now (lease_of p i ss) ≡ true)
        × (lease_of p i (claim now p w lane ss).1 ≡ some (granted now w lane))
        × ((q : Text) (j : ℕ)
            → (text_eq p q && i == j) ≡ false
            → lease_of q j (claim now p w lane ss).1 ≡ lease_of q j ss)
  unfolding claim lease_of
  lease_of-claim [] u h = cc
  lease_of-claim (s ∷ ss) u h = elim (Bool-cases (is_candidate now p s)) [
    | inl hit ↦ (
      ground (arith, text_eq_iff s.provider p, text_eq_refl p),
      ground (arith, text_eq_iff s.provider p, text_eq_refl p),
      λ q j other.
          ground (arith, text_eq_iff s.provider p, text_eq_iff p q, text_eq_iff s.provider q),
    )
    | inr miss ↦
        let e : (claim now p w lane ss).0 ≡ some i = ground arith in
        let ih = lease_of-claim ss u.1 e in
        let apart : is_slot p i s ≡ false =
          ground (arith, claim-mem now p w lane i ss e, u.0, text_eq_iff s.provider p) in
        (
          ground (arith, apart, ih),
          ground (arith, apart, ih),
          λ q j other. ground (arith, miss, ih.2 q j other),
        )
  ]

  -- A claim that finds none leaves every lease alone, and each slot of the provider is held.
  pub claim-none :
      (ss : List Slot)
      → (claim now p w lane ss).0 ≡ none
      → ((claim now p w lane ss).1 ≡ ss) × (any (is_candidate now p) ss ≡ false)
  unfolding claim
  claim-none [] h = (refl, refl)
  claim-none (s ∷ ss) h = ground (arith, claim-none ss)

pub data Call : Type 0 where
  claims : ℕ → Text → Text → ℕ → Call
  releases : Text → ℕ → Text → Call
  renews : ℕ → Text → List (Text × ℕ) → Call

unfoldable pub call : Call → List Slot → List Slot
call (claims now p w lane) ss = (claim now p w lane ss).1
call (releases p i w) ss = release p i w ss
call (renews now w held) ss = renew now w held ss

unfoldable pub calls : List Call → List Slot → List Slot
calls [] ss = ss
calls (c ∷ cs) ss = calls cs (call c ss)

-- A call by another worker than `w`; a claim, at a time when the lease is not over.
abbrev pub IsForeign : Lease → Call → Type 0
IsForeign l (claims now p w lane) = now ≤ l.lease_expires_at
IsForeign l (releases p i w) = text_eq l.worker_id w ≡ false
IsForeign l (renews now w held) = text_eq l.worker_id w ≡ false

module _ (p : Text) (i : ℕ) (l : Lease) where
  call_foreign :
      (c : Call) (ss : List Slot)
      → IsForeign l c
      → lease_of p i ss ≡ some l
      → lease_of p i (call c ss) ≡ some l
  unfolding call claim release renew lease_of
  call_foreign (claims now q w lane) [] f h = h
  call_foreign (claims now q w lane) (s ∷ ss) f h =
      ground (arith, call_foreign (claims now q w lane) ss f)
  call_foreign (releases q j w) [] f h = h
  call_foreign (releases q j w) (s ∷ ss) f h = ground (arith, call_foreign (releases q j w) ss f)
  call_foreign (renews now w held) [] f h = h
  call_foreign (renews now w held) (s ∷ ss) f h =
      ground (arith, call_foreign (renews now w held) ss f)

  -- Until its lease is over, a slot stays with its holder, whatever other workers call.
  pub calls_foreign :
      (cs : List Call) (ss : List Slot)
      → All (IsForeign l) cs
      → lease_of p i ss ≡ some l
      → lease_of p i (calls cs ss) ≡ some l
  unfolding calls
  calls_foreign [] ss a h = h
  calls_foreign (c ∷ cs) ss a h = calls_foreign cs (call c ss) a.1 (call_foreign c ss a.0 h)
