-- ===== src/Portal/Queue/Final.antt =====
-- packages/portal/portal/repository/jobs.py: a job that has ended stays as it ended.
use docs_pe.Common.{
  ℕ, zero, suc, ◌≡◌, refl, true, some, List, [], ◌∷◌, arith, ◌==◌, Bool-cases, inl, inr, ◌∙◌, All,
}
use docs_pe.Common.Table.{update, first}
use docs_pe.Portal.Queue.{Job, Item, is_terminal, is_queued}
use docs_pe.Portal.Queue.Finish.{promote_fifo, drained_job, is_running_job}
use docs_pe.Portal.Queue.Admit.{has_id}

-- Every row under the id is this one.
abbrev pub IsOnly : ℕ → Job → List Job → Type 0
IsOnly id j = All (λ r. (r.id == id) ≡ true → r ≡ j)

-- An ended job, as the table has it.
pub record IsEnded (id : ℕ) (j : Job) (js : List Job) : Type 0 where
  pub terminal : is_terminal j.state ≡ true
  pub present : first (has_id id) js ≡ some j
  pub only : IsOnly id j js

-- A table that keeps its rows in place, and each ended row as it is.
abbrev pub KeepsEnded : List Job → List Job → Type 0
KeepsEnded [] [] = Unit {0}
KeepsEnded [] (r ∷ rs) = ⊥
KeepsEnded (r ∷ rs) [] = ⊥
KeepsEnded (r ∷ rs) (r' ∷ rs') =
    (r'.id ≡ r.id) × (is_terminal r.state ≡ true → r' ≡ r) × KeepsEnded rs rs'

KeepsEnded-refl : (js : List Job) → KeepsEnded js js
KeepsEnded-refl [] = tt
KeepsEnded-refl (r ∷ js) = (refl, λ t. refl, KeepsEnded-refl js)

pub promote_fifo-KeepsEnded : (n : ℕ) (js : List Job) → KeepsEnded js (promote_fifo n js).0
unfolding promote_fifo
promote_fifo-KeepsEnded zero js = KeepsEnded-refl js
promote_fifo-KeepsEnded (suc n) [] = tt
promote_fifo-KeepsEnded (suc n) (r ∷ js) = elim (Bool-cases (is_queued r.state)) [
  | inl e ↦ rw e (refl, λ t. absurd (ground arith), promote_fifo-KeepsEnded n js)
  | inr e ↦ rw e (refl, λ t. refl, promote_fifo-KeepsEnded (suc n) js)
]

pub finish-KeepsEnded :
    (id : ℕ) (items : List Item) (js : List Job)
    → KeepsEnded js (update (is_running_job id) (drained_job id items) js)
finish-KeepsEnded id items [] = tt
finish-KeepsEnded id items (r ∷ js) = elim (Bool-cases (is_running_job id r)) [
  | inl e ↦ rw e (refl, λ t. absurd (ground arith), finish-KeepsEnded id items js)
  | inr e ↦ rw e (refl, λ t. refl, finish-KeepsEnded id items js)
]

IsOnly-kept :
    (id : ℕ) (j : Job) (js ks : List Job)
    → is_terminal j.state ≡ true
    → KeepsEnded js ks
    → IsOnly id j js
    → IsOnly id j ks
IsOnly-kept id j [] [] t k o = tt
IsOnly-kept id j [] (r ∷ ks) t k o = absurd k
IsOnly-kept id j (r ∷ js) [] t k o = absurd k
IsOnly-kept id j (r ∷ js) (r' ∷ ks) t k o = (
  λ e. let same : r ≡ j = o.0 (ground (arith, k.0)) in k.1 (rw same t) ∙ same,
  IsOnly-kept id j js ks t k.2 o.1,
)

first_kept :
    (id : ℕ) (j : Job) (js ks : List Job)
    → is_terminal j.state ≡ true
    → KeepsEnded js ks
    → first (has_id id) js ≡ some j
    → first (has_id id) ks ≡ some j
first_kept id j [] [] t k e = e
first_kept id j [] (r ∷ ks) t k e = absurd k
first_kept id j (r ∷ js) [] t k e = absurd k
first_kept id j (r ∷ js) (r' ∷ ks) t k e = elim (Bool-cases (has_id id r)) [
  | inl hit ↦
      let same : r ≡ j = ground arith in
      let kept : r' ≡ j = k.1 (rw same t) ∙ same in ground (arith, k.0, kept)
  | inr miss ↦ ground (arith, k.0, first_kept id j js ks t k.2)
]

pub IsEnded-kept :
    {id : ℕ} {j : Job} (js ks : List Job) → KeepsEnded js ks → IsEnded id j js → IsEnded id j ks
IsEnded-kept {id} {j} js ks k h = record {
  terminal = h.terminal;
  present = first_kept id j js ks h.terminal k h.present;
  only = IsOnly-kept id j js ks h.terminal k h.only;
}
