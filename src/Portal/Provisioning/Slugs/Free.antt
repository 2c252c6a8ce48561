-- ===== src/Portal/Provisioning/Slugs/Free.antt =====
-- packages/portal/portal/application/provisioning.py: `_unique_slug` ends, with a slug that is free.
use docs_pe.Common.{
  ℕ, zero, suc, ◌+◌, ◌<◌, ◌≤◌, ◌≡◌, refl, ap, sym, ◌∙◌, true, false, some, List, [], ◌∷◌, ◌++◌,
  Text, text, if◌then◌else◌, length, arith, text_eq, text_eq_iff, Bool-cases, inl, inr, subst,
}
use docs_pe.Common.Unicode.{Unicode}
use docs_pe.Portal.Ephemeral.{Decimal}
use docs_pe.Portal.Accounts.{Team}
use docs_pe.Portal.Accounts.Teams.{find_team, has_slug}
use docs_pe.Portal.Provisioning.Slugs.{slugify, with_suffix, is_taken, unique_from, unique_slug}

-- The teams whose slug is not the text.
without_slug : Text → List (ℕ × Team) → List (ℕ × Team)
without_slug slug [] = []
without_slug slug ((i, t) ∷ ts) =
    let rest = without_slug slug ts in if has_slug slug t then rest else (i, t) ∷ rest

length-without_slug :
    (slug : Text) (ts : List (ℕ × Team))
    → (length (without_slug slug ts) < length ts + 1)
      × (is_taken slug ts ≡ true → length (without_slug slug ts) < length ts)
unfolding without_slug find_team
length-without_slug slug [] = ground arith
length-without_slug slug ((i, t) ∷ ts) = ground (arith, length-without_slug slug ts)

taken-without_slug :
    (slug other : Text) (ts : List (ℕ × Team))
    → text_eq slug other ≡ false
    → is_taken other (without_slug slug ts) ≡ is_taken other ts
unfolding without_slug find_team
taken-without_slug slug other [] d = ground arith
taken-without_slug slug other ((i, t) ∷ ts) d = ground (
  arith,
  taken-without_slug slug other ts,
  text_eq_iff t.slug slug,
  text_eq_iff t.slug other,
  text_eq_iff slug other,
)

append_cancel : (a b c : Text) → a ++ b ≡ a ++ c → b ≡ c
append_cancel [] b c h = h
append_cancel (x ∷ a) b c h = append_cancel a b c (cc)

module _ (d : Decimal) where
  suffix_differs :
      (base : Text) (m n : ℕ)
      → m < n
      → text_eq (with_suffix d base m) (with_suffix d base n) ≡ false
  suffix_differs base m n lt =
      elim (Bool-cases (text_eq (with_suffix d base m) (with_suffix d base n))) [
        | inr e ↦ e
        | inl e ↦
            let joined = (text_eq_iff (with_suffix d base m) (with_suffix d base n)).0 e in
            let rendered =
              append_cancel (text "-") (d.render m) (d.render n)
                (append_cancel base (text "-" ++ d.render m) (text "-" ++ d.render n) joined) in
            let parsed : some m ≡ some n =
              sym (d.parse-render m) ∙ ap d.parse rendered ∙ d.parse-render n in
            ground (arith, parsed)
      ]

  -- With more fuel than teams that could still be in the way, a free candidate is met.
  finds_free :
      (fuel : ℕ) (base : Text) (suffix : ℕ) (ahead teams : List (ℕ × Team))
      → length ahead < fuel
      → ((j : ℕ)
          → suffix ≤ j
          → is_taken (with_suffix d base j) ahead ≡ is_taken (with_suffix d base j) teams)
      → (slug : Text) × (unique_from d fuel base (with_suffix d base suffix) (suffix + 1) teams
          ≡ some slug)
        × (is_taken slug teams ≡ false)
  unfolding unique_from
  finds_free zero base suffix ahead teams lt same = absurd (omega arith)
  finds_free (suc fuel) base suffix ahead teams lt same =
      let slug = with_suffix d base suffix in
      elim (Bool-cases (is_taken slug teams)) [
        | inr free ↦ (slug, rw free refl, free)
        | inl taken ↦
            let shorter = (length-without_slug slug ahead).1 (same suffix (omega arith) ∙ taken) in
            let (found, e, free) =
              finds_free fuel base (suffix + 1) (without_slug slug ahead) teams (omega arith)
                (λ j le.
                  taken-without_slug slug (with_suffix d base j) ahead
                    (suffix_differs base suffix j (omega arith))
                  ∙ same j (omega arith)) in
            (found, rw taken e, free)
      ]

fuel_suc : (n : ℕ) → suc (n + 1) ≡ n + 2
fuel_suc n = omega arith

fresh_start :
    (d : Decimal) (n : ℕ) (base : Text) (teams : List (ℕ × Team))
    → is_taken base teams ≡ false
    → unique_from d (n + 2) base base 2 teams ≡ some base
unfolding unique_from
fresh_start d n base teams free =
    subst (λ k. unique_from d k base base 2 teams ≡ some base) (fuel_suc n) (rw free refl)

second_start :
    (d : Decimal) (n : ℕ) (base : Text) (teams : List (ℕ × Team))
    → is_taken base teams ≡ true
    → unique_from d (n + 2) base base 2 teams
      ≡ unique_from d (n + 1) base (with_suffix d base 2) (2 + 1) teams
unfolding unique_from
second_start d n base teams taken =
    subst
      (λ k.
        unique_from d k base base 2 teams
        ≡ unique_from d (n + 1) base (with_suffix d base 2) (2 + 1) teams)
      (fuel_suc n) (rw taken refl)

-- Whatever teams there are, the search for an address ends, with one that no team has; the name's own
-- is taken if it is free.
pub unique_slug_free :
    (u : Unicode) (d : Decimal) (name : Text) (teams : List (ℕ × Team))
    → (slug : Text) × (unique_slug u d name teams ≡ some slug)
      × (is_taken slug teams ≡ false)
      × (is_taken (slugify u name) teams ≡ false → slug ≡ slugify u name)
unfolding unique_slug unique_from
unique_slug_free u d name teams =
    let base = slugify u name in
    elim (Bool-cases (is_taken base teams)) [
      | inr free ↦ (base, fresh_start d (length teams) base teams free, free, λ _. refl)
      | inl taken ↦
          let (slug, e, free) =
            finds_free d (length teams + 1) base 2 teams teams (omega arith) (λ j le. refl) in
          (slug, second_start d (length teams) base teams taken ∙ e, free, λ no_team. ground arith)
    ]
