-- ===== src/Portal/Provisioning/Slugs.antt =====
-- packages/portal/portal/application/provisioning.py: the address of a team, given or made from its
-- name.
pub mod Free
use docs_pe.Common.{
  ℕ, zero, suc, ◌+◌, Bool, true, false, ◌&&◌, Option, none, some, List, [], ◌∷◌, ◌++◌, Text, text,
  ltb, if◌then◌else◌, length, take, is_empty, is_some, ◌==◌,
}
use docs_pe.Common.Unicode.{Unicode, strip}
use docs_pe.Portal.Ephemeral.{Decimal}
use docs_pe.Portal.Accounts.{slug_invalid, provisioning, Team, ◌>>◌, return, require}
use docs_pe.Portal.Accounts.Teams.{is_lower_alnum, is_slug, find_team, has_slug}
use docs_pe.Portal.Provisioning.{S}

-- `_SLUGIFY.sub("-", …)`: each run of other code points becomes one dash. The flag tells that such a
-- run is under way.
unfoldable pub dashed : Bool → Text → Text
dashed in_run [] = []
dashed in_run (c ∷ cs) =
    let inside = dashed true cs in
    let outside = dashed false cs in
    if is_lower_alnum c then c ∷ outside else if in_run then inside else b'-' ∷ inside

-- `str.strip("-")`
unfoldable pub lstrip_dash : Text → Text
lstrip_dash [] = []
lstrip_dash (c ∷ cs) = let rest = lstrip_dash cs in if c == b'-' then rest else c ∷ cs

unfoldable pub rstrip_dash : Text → Text
rstrip_dash [] = []
rstrip_dash (c ∷ cs) =
    let rest = rstrip_dash cs in if c == b'-' && is_empty rest then [] else c ∷ rest

abbrev pub padded : Text → Text
padded base =
    if ltb (length base) 2
    then (if is_empty base then text "equipo" else take 58 (base ++ text "-equipo"))
    else base

module _ (u : Unicode) where
  -- `_slug`
  unfoldable pub clean_slug : Text → S Text
  clean_slug value =
      let slug = u.lower (strip u value) in
      require (is_slug slug) (provisioning slug_invalid) >> return slug

  -- `_slugify`
  unfoldable pub slugify : Text → Text
  unfolding dashed lstrip_dash rstrip_dash
  slugify name =
      padded (take 58 (rstrip_dash (lstrip_dash (dashed false (u.lower (strip u name))))))

-- f"{base}-{suffix}"
abbrev pub with_suffix : Decimal → Text → ℕ → Text
with_suffix d base suffix = base ++ (text "-" ++ d.render suffix)

abbrev pub is_taken : Text → List (ℕ × Team) → Bool
is_taken slug teams = is_some (find_team (has_slug slug) teams)

-- The loop of `_unique_slug` from a candidate on; `none` is fuel that ran out.
unfoldable pub unique_from : Decimal → ℕ → Text → Text → ℕ → List (ℕ × Team) → Option Text
unfolding find_team
unique_from d zero base candidate suffix teams = none
unique_from d (suc fuel) base candidate suffix teams =
    let rest = unique_from d fuel base (with_suffix d base suffix) (suffix + 1) teams in
    if is_taken candidate teams then rest else some candidate

-- `_unique_slug`, with fuel for every team and two tries more
unfoldable pub unique_slug : Unicode → Decimal → Text → List (ℕ × Team) → Option Text
unfolding unique_from slugify
unique_slug u d name teams =
    unique_from d (length teams + 2) (slugify u name) (slugify u name) 2 teams
