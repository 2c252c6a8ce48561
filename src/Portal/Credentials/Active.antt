-- ===== src/Portal/Credentials/Active.antt =====
-- packages/portal/portal/repository/credentials.py: a validation that succeeds leaves one active
-- version.
use docs_pe.Common.{
  ap, ◌∙◌, Bool-cases, inl, inr, ℕ, ◌+◌, ◌≤◌, ◌≡◌, refl, true, false, Option, some, List, [], ◌∷◌,
  Text, if◌then◌else◌, ◌==◌, leb, arith,
}
use docs_pe.Common.Table.{first, count, update}
use docs_pe.Portal.Credentials.{
  active, Version, Vault, ok, is_current, has_id, is_validating, retire_version, finished,
  versions_after, finish_as, finish_credential_validation, is_detail,
}

-- The versions of one credential that are active.
abbrev pub active_versions : ℕ → List Version → ℕ
active_versions credential_id rs = count (is_current credential_id) rs

-- No two versions have one id.
unfoldable pub IsKeyed : List Version → Type 0
IsKeyed rs = (i : ℕ) → count (has_id i) rs ≤ 1

retired_none :
    (c : ℕ) (rs : List Version) → (active_versions c (update (is_current c) retire_version rs) ≡ 0)
retired_none c [] = refl
retired_none c (r ∷ rs) = ground (arith, retired_none c rs)

retired_others :
    (c k : ℕ) (rs : List Version)
    → (k == c) ≡ false
    → active_versions k (update (is_current c) retire_version rs) ≡ active_versions k rs
retired_others c k [] h = refl
retired_others c k (r ∷ rs) h = ground (arith, retired_others c k rs h)

-- What the update by the id does to the active versions of a credential.
no_such :
    (now i c : ℕ) (detail : Option Text) (rs : List Version)
    → count (has_id i) rs ≡ 0
    → active_versions c (update (has_id i) (finished now true detail) rs) ≡ active_versions c rs
no_such now i c detail [] h = refl
no_such now i c detail (r ∷ rs) h = ground (arith, h, no_such now i c detail rs)

ids_kept :
    (i c : ℕ) (rs : List Version)
    → count (has_id i) (update (is_current c) retire_version rs) ≡ count (has_id i) rs
ids_kept i c [] = refl
ids_kept i c (r ∷ rs) = ground (arith, ids_kept i c rs)

first_kept :
    (i c : ℕ) (rs : List Version) (row : Version)
    → first (has_id i) rs ≡ some row
    → is_validating row.lifecycle ≡ true
    → first (has_id i) (update (is_current c) retire_version rs) ≡ some row
first_kept i c [] row h e = ground (arith, h)
first_kept i c (r ∷ rs) row h e = ground (arith, h, e, first_kept i c rs row)

-- The finished version is the one more that is active, in its credential.
one_more :
    (now i c : ℕ) (detail : Option Text) (rs : List Version) (row : Version)
    → first (has_id i) rs ≡ some row
    → is_validating row.lifecycle ≡ true
    → count (has_id i) rs ≤ 1
    → active_versions c (update (has_id i) (finished now true detail) rs)
      ≡ active_versions c rs + (if row.credential_id == c then 1 else 0)
one_more now i c detail [] row h e w = ground (arith, h)
one_more now i c detail (r ∷ rs) row h e w =
    ground (arith, h, e, w, one_more now i c detail rs row, no_such now i c detail rs)

id_of_first :
    (i : ℕ) (rs : List Version) (row : Version) → first (has_id i) rs ≡ some row → row.id ≡ i
id_of_first i [] row h = ground (arith, h)
id_of_first i (r ∷ rs) row h = ground (arith, h, id_of_first i rs row)

-- The active versions of each credential after a success.
pub active_after :
    (now i c : ℕ) (detail : Option Text) (rs : List Version) (row : Version)
    → first (has_id i) rs ≡ some row
    → is_validating row.lifecycle ≡ true
    → count (has_id i) rs ≤ 1
    → active_versions c (versions_after now true detail row rs)
      ≡ (if row.credential_id == c then 1 else active_versions c rs)
active_after now i c detail rs row h e w =
    let k = row.credential_id in
    let rest = update (is_current k) retire_version rs in
    let same_id = id_of_first i rs row h in
    rw same_id (
      ground (
        arith,
        one_more now i c detail rest row (first_kept i k rs row h e) e
            (omega (arith, ids_kept i k rs, w)),
        retired_none k rs,
        retired_others k c rs,
      ))

first_finished :
    (now i : ℕ) (detail : Option Text) (rs : List Version) (row : Version)
    → first (has_id i) rs ≡ some row
    → first (has_id i) (update (has_id i) (finished now true detail) rs)
      ≡ some (finished now true detail row)
first_finished now i detail [] row h = ground (arith, h)
first_finished now i detail (r ∷ rs) row h = elim (Bool-cases (has_id i r)) [
  | inl e ↦ let same : r ≡ row = ground (arith, h, e) in rw (e, same) (ground (arith, e, same))
  | inr e ↦ ground (arith, h, e, first_finished now i detail rs row)
]

-- The version of the id after a success.
first_after :
    (now i : ℕ) (detail : Option Text) (rs : List Version) (row : Version)
    → first (has_id i) rs ≡ some row
    → is_validating row.lifecycle ≡ true
    → first (has_id i) (versions_after now true detail row rs) ≡ some (finished now true detail row)
first_after now i detail rs row h e =
    let rest = update (is_current row.credential_id) retire_version rs in
    ap (λ k. first (has_id i) (update (has_id k) (finished now true detail) rest))
      (id_of_first i rs row h)
    ∙ first_finished now i detail rest row (first_kept i row.credential_id rs row h e)

-- Where no two versions have one id, a version that is being validated and is finished as active, with
-- a detail that its event can hold, stands in the table as active, and no other version of its
-- credential is; the unique index never stops it, and each other credential keeps as many active
-- versions as it had.
pub finish_activates :
    (now i actor_id : ℕ) (detail : Text) (v : Vault) (row : Version)
    → IsKeyed v.versions
    → first (has_id i) v.versions ≡ some row
    → is_validating row.lifecycle ≡ true
    → is_detail detail ≡ true
    → ((finish_credential_validation now i active (some detail) actor_id v).0
        ≡ ok (finished now true (some detail) row))
      × (first
            (has_id i)
            (finish_credential_validation now i active (some detail) actor_id v).1.versions
          ≡ some (finished now true (some detail) row))
      × ((c : ℕ)
          → active_versions c
              (finish_credential_validation now i active (some detail) actor_id v).1.versions
            ≡ (if row.credential_id == c then 1 else active_versions c v.versions))
unfolding finish_credential_validation finish_as IsKeyed
finish_activates now i actor_id detail v row keyed h e d =
    let k = row.credential_id in
    let after = λ (c : ℕ). active_after now i c (some detail) v.versions row h e (keyed i) in
    let stands : first (has_id i) (versions_after now true (some detail) row v.versions)
        ≡ some (finished now true (some detail) row) =
      first_after now i (some detail) v.versions row h e in
    let fits : leb (active_versions k (versions_after now true (some detail) row v.versions)) 1
        ≡ true =
      ground (arith, after k) in
    rw (h, finish_as) (rw e (rw fits (rw d (refl, stands, after))))
