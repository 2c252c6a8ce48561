-- ===== src/Portal/Accounts/Leaders.antt =====
-- packages/portal/portal/repository/teams.py: every team keeps a leader, and a membership its team
-- and its account.
pub mod Runs
pub mod Last
use docs_pe.Common.{
  ℕ, Bool, true, false, ◌≡◌, refl, none, some, List, [], ◌∷◌, arith, any, all, Bool-cases, inl, inr,
  ◌==◌, if◌then◌else◌, is_some, ◌<◌,
}
use docs_pe.Common.Dict.{lookup, put, remove, lookup-put, lookup-remove}
use docs_pe.Common.Eq.{nat_eq_key, pair_eq_key}
use docs_pe.Portal.Accounts.{TeamRole, team_leader, Database, leaders, require_team_leader}
use docs_pe.Portal.Accounts.Auth
use docs_pe.Portal.Accounts.Teams

abbrev pub Memberships : Type 0
Memberships = List ((ℕ × ℕ) × TeamRole)

pub leaders-put :
    (t k i : ℕ) (role : TeamRole) (m : Memberships)
    → (k == t) ≡ false
    → leaders t (put (k, i) role m) ≡ leaders t m
unfolding leaders put
leaders-put t k i role [] d = ground arith
leaders-put t k i role (((s, j), r) ∷ m) d = ground (arith, leaders-put t k i role m)

pub leaders-put_leader : (t i : ℕ) (m : Memberships) → 0 < leaders t (put (t, i) team_leader m)
unfolding leaders put
leaders-put_leader t i [] = ground arith
leaders-put_leader t i (((s, j), r) ∷ m) = ground (arith, leaders-put_leader t i m)

pub leaders-remove :
    (t k i : ℕ) (m : Memberships) → (k == t) ≡ false → leaders t (remove (k, i) m) ≡ leaders t m
unfolding leaders remove
leaders-remove t k i [] d = refl
leaders-remove t k i (((s, j), r) ∷ m) d = ground (arith, leaders-remove t k i m)

pub leaders-without_user :
    (t i : ℕ) (m : Memberships)
    → any (λ s. s == t) (Auth.teams_of i m) ≡ false
    → leaders t (Auth.without_user i m) ≡ leaders t m
unfolding leaders Auth.without_user Auth.teams_of
leaders-without_user t i [] h = refl
leaders-without_user t i (((s, j), r) ∷ m) h = ground (arith, leaders-without_user t i m)

pub lookup-without_user :
    (t j i : ℕ) (m : Memberships)
    → lookup (t, j) (Auth.without_user i m) ≡ (if j == i then none else lookup (t, j) m)
unfolding lookup Auth.without_user
lookup-without_user t j i [] = ground arith
lookup-without_user t j i (((s, k), r) ∷ m) = ground (arith, lookup-without_user t j i m)

-- A check of every team in a list is a check of each.
pub all-any :
    (p : ℕ → Bool) (t : ℕ) (ts : List ℕ)
    → all p ts ≡ true
    → any (λ s. s == t) ts ≡ true
    → p t ≡ true
all-any p t [] h m = ground arith
all-any p t (s ∷ ts) h m = elim (Bool-cases (s == t)) [
  | inl e ↦ let same_team : s ≡ t = ground arith in rw (← same_team) (ground arith)
  | inr e ↦ all-any p t ts (ground arith) (ground arith)
]

-- What holds of one team: a leader, and members that are there.
pub record IsLed (t : ℕ) (db : Database) : Type 0 where
  pub led : require_team_leader t db ≡ true
  pub team_there :
      (i : ℕ) (role : TeamRole)
      → lookup (t, i) db.memberships ≡ some role
      → is_some (lookup t db.teams) ≡ true
  pub account_there :
      (i : ℕ) (role : TeamRole)
      → lookup (t, i) db.memberships ≡ some role
      → is_some (lookup i db.users) ≡ true

abbrev pub AreLed : Database → Type 0
AreLed db = (t : ℕ) → IsLed t db

-- The memberships stay, and no team or account goes.
pub others-IsLed :
    (t : ℕ) (db db' : Database)
    → db'.memberships ≡ db.memberships
    → is_some (lookup t db'.teams) ≡ is_some (lookup t db.teams)
    → ((i : ℕ) → is_some (lookup i db.users) ≡ true → is_some (lookup i db'.users) ≡ true)
    → AreLed db
    → IsLed t db'
unfolding require_team_leader
others-IsLed t db db' m s w g = record {
  led = ground (arith, m, s, (g t).led);
  team_there = λ i role h. ground (arith, h, m, s, (g t).team_there i role);
  account_there = λ i role h. ground (arith, h, m, w i, (g t).account_there i role);
}

-- A membership is written, or a team with it.
pub put-IsLed :
    (t k i : ℕ) (role : TeamRole) (db db' : Database)
    → db'.memberships ≡ put (k, i) role db.memberships
    → ((k == t) ≡ false → lookup t db'.teams ≡ lookup t db.teams)
    → db'.users ≡ db.users
    → is_some (lookup k db'.teams) ≡ true
    → is_some (lookup i db.users) ≡ true
    → require_team_leader k db' ≡ true
    → AreLed db
    → IsLed t db'
unfolding require_team_leader
put-IsLed t k i role db db' m s w there account own g = record {
  led = ground (arith, m, s, own, (g t).led, leaders-put t k i role db.memberships);
  team_there = λ j r h.
      ground
        (arith, h, m, s, there, lookup-put (k, i) (t, j) role db.memberships, (g t).team_there j r);
  account_there = λ j r h. ground (
    arith,
    h,
    m,
    w,
    account,
    lookup-put (k, i) (t, j) role db.memberships,
    (g t).account_there j r,
  );
}

pub remove-IsLed :
    (t k i : ℕ) (db : Database)
    → require_team_leader k (record db { memberships = remove (k, i) db.memberships }) ≡ true
    → AreLed db
    → IsLed t (record db { memberships = remove (k, i) db.memberships })
unfolding require_team_leader
remove-IsLed t k i db own g = record {
  led = ground (arith, own, (g t).led, leaders-remove t k i db.memberships);
  team_there =
      λ j r h. ground (arith, h, lookup-remove (k, i) (t, j) db.memberships, (g t).team_there j r);
  account_there = λ j r h.
      ground (arith, h, lookup-remove (k, i) (t, j) db.memberships, (g t).account_there j r);
}

-- An account goes with its memberships, once the teams that it was in still have a leader.
pub without-IsLed :
    (t i : ℕ) (db : Database)
    → all (λ s. require_team_leader s (Auth.without_account i db)) (Auth.teams_of i db.memberships)
      ≡ true
    → AreLed db
    → IsLed t (Auth.without_account i db)
unfolding require_team_leader
without-IsLed t i db checked g = record {
  led = elim (Bool-cases (any (λ s. s == t) (Auth.teams_of i db.memberships))) [
    | inl was ↦
        all-any (λ s. require_team_leader s (Auth.without_account i db)) t
          (Auth.teams_of i db.memberships) checked was
    | inr not_in ↦ ground (arith, (g t).led, leaders-without_user t i db.memberships not_in)
  ];
  team_there =
      λ j r h. ground (arith, h, lookup-without_user t j i db.memberships, (g t).team_there j r);
  account_there = λ j r h. ground (
    arith,
    h,
    lookup-without_user t j i db.memberships,
    lookup-remove i j db.users,
    (g t).account_there j r,
  );
}
