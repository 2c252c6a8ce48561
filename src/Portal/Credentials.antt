-- ===== src/Portal/Credentials.antt =====
-- packages/portal/portal/repository/credentials.py: the proxy credentials of the teams, whose
-- versions are validated one after another. Each function is one transaction; `now()` and the ids
-- that `uuid4` draws are arguments. The secret of a version is not read here and has no field; the
-- accounts that columns refer to are taken to be there, as is the credential of a version.
pub mod Active
pub mod Numbered
use docs_pe.Common.{
  ℕ, ◌+◌, Bool, true, false, not, ◌&&◌, ◌||◌, Option, none, some, List, [], ◌∷◌, ◌++◌, Text, text,
  map, max, leb, if◌then◌else◌, any, text_eq, is_some, ◌==◌, length,
}
use docs_pe.Common.Table.{select, first, count, update}

pub data CredentialState : Type 0 where
  draft : CredentialState
  validating : CredentialState
  active : CredentialState
  failed : CredentialState
  retired : CredentialState

abbrev pub is_active_state : CredentialState → Bool
is_active_state active = true
is_active_state s = false

abbrev pub is_validating : CredentialState → Bool
is_validating validating = true
is_validating s = false

-- A row of portal_team_proxy_credentials.
pub record Credential : Type 0 where
  pub id : ℕ
  pub team_id : ℕ
  pub label : Text
  pub created_by : ℕ
  pub retired_at : Option ℕ

-- A row of portal_team_proxy_credential_versions.
pub record Version : Type 0 where
  pub id : ℕ
  pub credential_id : ℕ
  pub team_id : ℕ
  pub version : ℕ
  pub provider : Text
  pub lifecycle : CredentialState
  pub is_active : Bool
  pub validated_at : Option ℕ
  pub failure_detail : Option Text

pub record Event : Type 0 where
  pub version_id : ℕ
  pub from_lifecycle : CredentialState
  pub to_lifecycle : CredentialState
  pub detail : Text
  pub actor_id : ℕ

-- The tables, with the ids of the teams that there are.
pub record Vault : Type 0 where
  pub teams : List ℕ
  pub credentials : List Credential
  pub versions : List Version
  pub events : List Event

pub data Refusal : Type 0 where
  credential_wrong_team : Refusal
  label_taken : Refusal
  team_missing : Refusal
  credential_state_invalid : Refusal
  credential_not_pending : Refusal
  unique_violation : Refusal
  check_violation : Refusal

pub data Answer {ℓ} (A : Type ℓ) : Type ℓ where
  ok : A → Answer A
  err : Refusal → Answer A

-- CHECK (length(trim(label)) > 0)
abbrev pub is_label : Text → Bool
is_label label = any (λ c. not (c == 32)) label

-- CHECK (provider IN ('geonode', 'dataimpulse'))
abbrev pub is_supported : Text → Bool
is_supported provider = text_eq provider (text "geonode") || text_eq provider (text "dataimpulse")

-- CHECK (length(detail) <= 240)
abbrev pub is_detail : Text → Bool
is_detail detail = leb (length detail) 240

abbrev pub is_labelled : ℕ → Text → Credential → Bool
is_labelled team_id label c = c.team_id == team_id && text_eq c.label label

abbrev pub is_of_team : ℕ → ℕ → Credential → Bool
is_of_team credential_id team_id c = c.id == credential_id && c.team_id == team_id

-- `credentials_for_team`, without its order
unfoldable pub credentials_for_team : ℕ → Vault → List Version
credentials_for_team team_id v =
    select
      (λ r.
        r.team_id == team_id
        && any (λ c. is_of_team r.credential_id team_id c && not (is_some c.retired_at))
            v.credentials)
      v.versions

-- `retire_credential`
unfoldable pub retire_credential : ℕ → ℕ → ℕ → Vault → Answer (Unit {0}) × Vault
retire_credential now credential_id team_id v =
    let chosen =
      λ (c : Credential). is_of_team credential_id team_id c && not (is_some c.retired_at) in
    if any chosen v.credentials
    then (
      ok tt,
      record v {
        credentials = update chosen (λ c. record c { retired_at = some now }) v.credentials;
      },
    )
    else (err credential_wrong_team, v)

-- `rename_credential`
unfoldable pub rename_credential : ℕ → ℕ → Text → Vault → Answer (Unit {0}) × Vault
rename_credential credential_id team_id new_label v =
    if any (is_of_team credential_id team_id) v.credentials
    then (if not (is_label new_label)
        then (err check_violation, v)
        else if any (λ c. is_labelled team_id new_label c && not (c.id == credential_id))
            v.credentials
        then (err label_taken, v)
        else (
          ok tt,
          record v {
            credentials =
                update (is_of_team credential_id team_id) (λ c. record c { label = new_label })
                  v.credentials;
          },
        ))
    else (err credential_wrong_team, v)

-- COALESCE(max(version), 0)
unfoldable pub last_version : ℕ → List Version → ℕ
last_version credential_id [] = 0
last_version credential_id (r ∷ rs) =
    let rest = last_version credential_id rs in
    if r.credential_id == credential_id then max r.version rest else rest

-- The id of the connection of a label, and the credentials once it is there and not retired.
unfoldable pub restored : ℕ → ℕ → Text → ℕ → List Credential → ℕ × List Credential
restored new_id team_id label created_by cs = elim (first (is_labelled team_id label) cs) [
  | none ↦ (
    new_id,
    record {
      id = new_id;
      team_id = team_id;
      label = label;
      created_by = created_by;
      retired_at = none;
    }
        ∷ cs,
  )
  | some c ↦ (c.id, update (λ k. k.id == c.id) (λ k. record k { retired_at = none }) cs)
]

abbrev pub has_id : ℕ → Version → Bool
has_id version_id r = r.id == version_id

-- `start_credential_validation`
unfoldable pub start_credential_validation :
    ℕ → ℕ → ℕ → Text → Text → ℕ → Vault → Answer Version × Vault
unfolding last_version restored
start_credential_validation new_id version_id team_id label provider created_by v =
    if not (any (λ t. t == team_id) v.teams)
    then (err team_missing, v)
    else if not (is_label label && is_supported provider)
    then (err check_violation, v)
    else if any (has_id version_id) v.versions
    then (err unique_violation, v)
    else let (credential_id, credentials) =
        restored new_id team_id label created_by v.credentials in
      let started : Version = record {
        id = version_id;
        credential_id = credential_id;
        team_id = team_id;
        version = last_version credential_id v.versions + 1;
        provider = provider;
        lifecycle = validating;
        is_active = false;
        validated_at = none;
        failure_detail = none;
      } in
      (
        ok started,
        record v {
          credentials = credentials;
          versions = started ∷ v.versions;
          events =
              record {
                version_id = version_id;
                from_lifecycle = draft;
                to_lifecycle = validating;
                detail = text "validación iniciada";
                actor_id = created_by;
              }
              ∷ v.events;
        },
      )

abbrev pub is_current : ℕ → Version → Bool
is_current credential_id r = r.credential_id == credential_id && is_active_state r.lifecycle

abbrev pub retire_version : Version → Version
retire_version r = record r { lifecycle = retired; is_active = false }

-- What a validation that ends writes into its version.
abbrev pub finished : ℕ → Bool → Option Text → Version → Version
finished now passed detail r = record r {
  lifecycle = if passed then active else failed;
  is_active = passed;
  validated_at = if passed then some now else r.validated_at;
  failure_detail = if passed then none else detail;
}

abbrev pub ended : ℕ → CredentialState → CredentialState → Text → ℕ → Event
ended version_id from_lifecycle to_lifecycle detail actor_id = record {
  version_id = version_id;
  from_lifecycle = from_lifecycle;
  to_lifecycle = to_lifecycle;
  detail = detail;
  actor_id = actor_id;
}

abbrev pub replaced : ℕ → ℕ → List Version → List Event
replaced credential_id actor_id rs =
    map (λ r. ended r.id active retired (text "reemplazada por una nueva versión") actor_id)
      (select (is_current credential_id) rs)

-- The versions after a validation: a success retires the version that was active before.
abbrev pub versions_after : ℕ → Bool → Option Text → Version → List Version → List Version
versions_after now passed detail row rs =
    update (has_id row.id) (finished now passed detail)
      (if passed then update (is_current row.credential_id) retire_version rs else rs)

-- `finish_credential_validation` to ACTIVE (`passed`) or FAILED. The check on the count is the unique
-- index on the active version of a credential; the one on the detail is the table of events.
unfoldable pub finish_as : Bool → ℕ → ℕ → Option Text → ℕ → Vault → Answer Version × Vault
finish_as passed now version_id detail actor_id v = elim (first (has_id version_id) v.versions) [
  | none ↦ (err credential_not_pending, v)
  | some row ↦
      if is_validating row.lifecycle
      then (if leb
            (count (is_current row.credential_id) (versions_after now passed detail row v.versions))
            1
          then elim detail [
            | none ↦ (err check_violation, v)
            | some told ↦
                if is_detail told
                then (
                  ok (finished now passed (some told) row),
                  record v {
                    versions = versions_after now passed (some told) row v.versions;
                    events =
                        ended row.id validating (if passed then active else failed) told actor_id
                        ∷ ((if passed then replaced row.credential_id actor_id v.versions else [])
                            ++ v.events);
                  },
                )
                else (err check_violation, v)
          ]
          else (err unique_violation, v))
      else (err credential_not_pending, v)
]

-- `finish_credential_validation`
unfoldable pub finish_credential_validation :
    ℕ → ℕ → CredentialState → Option Text → ℕ → Vault → Answer Version × Vault
unfolding finish_as
finish_credential_validation now version_id active detail actor_id v =
    finish_as true now version_id detail actor_id v
finish_credential_validation now version_id failed detail actor_id v =
    finish_as false now version_id detail actor_id v
finish_credential_validation now version_id state detail actor_id v =
    (err credential_state_invalid, v)
