-- ===== src/Portal/Tests/Fleet.antt =====
-- packages/portal: the theorem on worker identities at concrete inputs.
use docs_pe.Common.{◌≡◌, refl, none, some, List, [], ◌∷◌, Text, text, text_eq}
use docs_pe.Common.Unicode.{strip}
use docs_pe.Portal.Workers.{authorize, valid_worker_id, worker_role_name, ok}
use docs_pe.Portal.Workers.Authorized.{
  Call, issues, revokes, beats, calls, entitled, is_hash_of, is_ok, authorize-calls,
}
use docs_pe.Portal.Tests.{ascii}

abbrev same : Text → Text
same t = t

-- A worker that is revoked and enrolled again.
abbrev history : List Call
history =
    issues 1 (text " w-1") (text "old") (text "node")
    ∷ revokes 20 (text "w-1")
    ∷ issues 2 (text "w-1") (text "new") (text "node")
    ∷ beats 30 (text "w-1") none none (some 4)
    ∷ []

entitled_new : entitled ascii same (text "w-1") history none ≡ some (text "new")
unfolding valid_worker_id text_eq strip
entitled_new = refl

role_of_worker : worker_role_name ascii (text " w-1") ≡ ok (text "portal_worker_w-1")
unfolding worker_role_name strip
role_of_worker = refl

authorize-calls_example :
    is_ok ascii same (authorize same (text "w-1") (text "new") (calls ascii same history []))
    ≡ is_hash_of ascii same (text "new") (entitled ascii same (text "w-1") history none)
authorize-calls_example = authorize-calls ascii same (text "w-1") (text "new") history
