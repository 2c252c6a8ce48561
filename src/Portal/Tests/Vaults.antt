-- ===== src/Portal/Tests/Vaults.antt =====
-- packages/portal: the theorems on proxy credentials at concrete inputs.
use docs_pe.Common.{
  ℕ, ◌≡◌, refl, true, false, none, some, [], ◌∷◌, text, ◌==◌, if◌then◌else◌, arith,
}
use docs_pe.Common.Table.{first}
use docs_pe.Portal.Credentials.{
  has_id, validating, active, failed, Version, Vault, ok, finished, finish_credential_validation,
}
use docs_pe.Portal.Credentials.Active.{active_versions, IsKeyed, finish_activates}
use docs_pe.Portal.Credentials.Numbered.{IsSound, Change, start, finish, changes, changes-IsSound}

abbrev first_version : Version
first_version = record {
  id = 10;
  credential_id = 1;
  team_id = 7;
  version = 1;
  provider = text "geonode";
  lifecycle = active;
  is_active = true;
  validated_at = some 3;
  failure_detail = none;
}

abbrev second_version : Version
second_version = record {
  id = 11;
  credential_id = 1;
  team_id = 7;
  version = 2;
  provider = text "geonode";
  lifecycle = validating;
  is_active = false;
  validated_at = none;
  failure_detail = none;
}

-- A connection in use, and its next version under validation.
abbrev vault : Vault
vault = record {
  teams = 7 ∷ [];
  credentials =
      record { id = 1; team_id = 7; label = text "lima"; created_by = 2; retired_at = none } ∷ [];
  versions = second_version ∷ first_version ∷ [];
  events = [];
}

vault-IsKeyed : IsKeyed vault.versions
unfolding IsKeyed
vault-IsKeyed i = ground arith

vault-IsSound : IsSound vault
vault-IsSound = record {
  keyed = λ i. ground arith;
  numbered = λ c n. ground arith;
  one_active = λ c. ground arith;
}

finish_activates_example :
    ((finish_credential_validation 5 11 active (some (text "ok")) 2 vault).0
      ≡ ok (finished 5 true (some (text "ok")) second_version))
    × (first
          (has_id 11)
          (finish_credential_validation 5 11 active (some (text "ok")) 2 vault).1.versions
        ≡ some (finished 5 true (some (text "ok")) second_version))
    × ((c : ℕ)
        → active_versions c
            (finish_credential_validation 5 11 active (some (text "ok")) 2 vault).1.versions
          ≡ (if 1 == c then 1 else active_versions c vault.versions))
finish_activates_example =
    finish_activates 5 11 2 (text "ok") vault second_version vault-IsKeyed refl refl refl

abbrev later : Change × Change × Change
later = (
  finish 5 11 active (some (text "ok")) 2,
  start 1 12 7 (text "lima") (text "geonode") 2,
  finish 6 12 failed (some (text "sin respuesta")) 2,
)

changes-IsSound_example : IsSound (changes (later.0 ∷ later.1 ∷ later.2 ∷ []) vault)
changes-IsSound_example = changes-IsSound (later.0 ∷ later.1 ∷ later.2 ∷ []) vault vault-IsSound
