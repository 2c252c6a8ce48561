-- ===== src/Portal/Accounts/Transactions.antt =====
-- The transactions of packages/portal/portal/repository/auth.py and
-- packages/portal/portal/repository/teams.py that write, as values: any interleaving of requests is
-- a list of them.
use docs_pe.Common.{ℕ, Bool, Option, List, [], ◌∷◌, Text}
use docs_pe.Common.Unicode.{Unicode}
use docs_pe.Portal.Accounts.{ProtectedSecret, WebAuthnCredential, TeamRole, TeamInvite, Database}
use docs_pe.Portal.Accounts.Auth.{
  create_user, create_account, enable_totp, disable_totp, add_webauthn_credential,
  remove_webauthn_credential, touch_webauthn_credential, promote_now, set_pending_site_admin,
  consume_recovery_code, deactivate, reactivate, demote, set_password, delete_if_unused,
}
use docs_pe.Portal.Accounts.Teams.{
  set_global_search, create_first_team, create_team, add_member, remove_member, create_invite,
  delete_invite, mark_invite_accepted,
}

pub data Transaction : Type 0 where
  creates_user : ℕ → Text → Text → Bool → Transaction
  creates_account : ℕ → Text → Text → Transaction
  enables_totp : ℕ → ProtectedSecret → Option (List Text) → Bool → Transaction
  disables_totp : ℕ → Transaction
  adds_passkey : WebAuthnCredential → Option (List Text) → Bool → Transaction
  removes_passkey : ℕ → ℕ → Transaction
  touches_passkey : ℕ → ℕ → Transaction
  promotes : ℕ → Transaction
  sets_pending : ℕ → Bool → Transaction
  spends_code : ℕ → ℕ → Text → Transaction
  deactivates : ℕ → ℕ → ℕ → Transaction
  reactivates : ℕ → Transaction
  demotes : ℕ → Transaction
  sets_password : ℕ → Text → Transaction
  deletes : ℕ → Transaction
  sets_global_search : ℕ → Bool → Transaction
  creates_first_team : ℕ → Text → Text → ℕ → Transaction
  creates_team : ℕ → Text → Text → ℕ → ℕ → Transaction
  adds_member : ℕ → ℕ → TeamRole → Transaction
  removes_member : ℕ → ℕ → Transaction
  creates_invite : TeamInvite → Transaction
  deletes_invite : ℕ → ℕ → Transaction
  accepts_invite : ℕ → ℕ → Transaction

module _ (u : Unicode) where
  -- The tables after one transaction, whether it commits or fails.
  unfoldable pub run : Transaction → Database → Database
  run (creates_user i email hash admin) db = (create_user u i email hash admin db).1
  run (creates_account i email hash) db = (create_account u i email hash db).1
  run (enables_totp i secret hashes promote) db = (enable_totp i secret hashes promote db).1
  run (disables_totp i) db = (disable_totp i db).1
  run (adds_passkey c hashes promote) db = (add_webauthn_credential c hashes promote db).1
  run (removes_passkey i c) db = (remove_webauthn_credential i c db).1
  run (touches_passkey c n) db = (touch_webauthn_credential c n db).1
  run (promotes i) db = (promote_now i db).1
  run (sets_pending i pending) db = (set_pending_site_admin i pending db).1
  run (spends_code now i hash) db = (consume_recovery_code now i hash db).1
  run (deactivates now i actor) db = (deactivate now i actor db).1
  run (reactivates i) db = (reactivate i db).1
  run (demotes i) db = (demote i db).1
  run (sets_password i hash) db = (set_password i hash db).1
  run (deletes i) db = (delete_if_unused i db).1
  run (sets_global_search t enabled) db = set_global_search t enabled db
  run (creates_first_team t slug name i) db = (create_first_team t slug name i db).1
  run (creates_team t slug name by leader) db = (create_team t slug name by leader db).1
  run (adds_member t i role) db = (add_member t i role db).1
  run (removes_member t i) db = (remove_member t i db).1
  run (creates_invite v) db = (create_invite v db).1
  run (deletes_invite t v) db = delete_invite t v db
  run (accepts_invite now v) db = mark_invite_accepted now v db

  unfoldable pub run_all : List Transaction → Database → Database
  unfolding run
  run_all [] db = db
  run_all (t ∷ ts) db = run_all ts (run t db)
