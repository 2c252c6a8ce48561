-- ===== src/Portal/Queue/Constraints.antt =====
-- packages/portal/portal/migrations/001_portal.sql: the constraints that the statements of
-- packages/portal/portal/repository/jobs.py can break on the tables of the queue. `portal_sites` holds
-- the three codes of that migration. A draw of `uuid4` is taken to be new.
use docs_pe.Common.{ℕ, Bool, true, false, not, ◌&&◌, List, [], ◌∷◌, Text, text, text_eq, any, ◌==◌}
use docs_pe.Portal.Queue.{Entry}

-- What the statements read of the tables that refer to teams, users, proxy credentials and objects:
-- which ids are there, and which credential version and which object belong to a team.
pub record References : Type 0 where
  pub is_team : ℕ → Bool
  pub is_user : ℕ → Bool
  pub is_credential_of : ℕ → ℕ → Bool
  pub is_object_of : ℕ → ℕ → Bool

-- The rows of portal_sites.
abbrev pub site_codes : List Text
site_codes = text "osiptel" ∷ text "sunat" ∷ text "sunat_reps" ∷ []

abbrev pub is_one_of : List Text → Text → Bool
is_one_of choices t = any (text_eq t) choices

abbrev pub is_known_source : Text → Bool
is_known_source t = is_one_of site_codes t

-- CHECK (length(trim(t)) > 0)
abbrev pub is_filled : Text → Bool
is_filled t = any (λ c. not (c == 32)) t

-- CHECK (t IN ('ok', 'not_found', 'failed'))
abbrev pub is_outcome : Text → Bool
is_outcome t = is_one_of (text "ok" ∷ text "not_found" ∷ text "failed" ∷ []) t

abbrev pub is_provider : Text → Bool
is_provider t = is_one_of (text "geonode" ∷ text "dataimpulse" ∷ []) t

abbrev pub equal : Bool → Bool → Bool
equal true b = b
equal false b = not b

-- UNIQUE (ordinal, source), within one job
abbrev pub is_new_pair : ℕ → Text → List (ℕ × Text) → Bool
is_new_pair ordinal source seen = not (any (λ p. p.0 == ordinal && text_eq p.1 source) seen)

abbrev pub differ : List (ℕ × Text) → Bool
differ [] = true
differ ((ordinal, source) ∷ pairs) = is_new_pair ordinal source pairs && differ pairs

abbrev pub is_entry_id : List Entry → ℕ → Bool
is_entry_id entries id = any (λ e. e.id == id) entries
