-- ===== src/Portal/Credentials/Numbered.antt =====
-- packages/portal/portal/repository/credentials.py: what any transactions on the credentials keep.
use docs_pe.Common.{
  ℕ, ◌+◌, ◌≤◌, ◌<◌, ◌≡◌, refl, ap, ◌∙◌, Bool, true, false, ◌&&◌, Option, none, some, List, [], ◌∷◌,
  Text, ◌==◌, leb, arith, Bool-cases, Option-cases, inl, inr, any,
}
use docs_pe.Common.Table.{first, count, update}
use docs_pe.Portal.Credentials.{
  CredentialState, draft, validating, active, failed, retired, Version, Vault, is_current, has_id,
  is_validating, is_active_state, retire_version, finished, versions_after, finish_as,
  finish_credential_validation, is_detail, last_version, start_credential_validation,
  rename_credential, retire_credential, is_label, is_supported,
}
use docs_pe.Portal.Credentials.Active.{active_after}

abbrev pub is_numbered : ℕ → ℕ → Version → Bool
is_numbered credential_id n r = r.credential_id == credential_id && r.version == n

-- Ids are unique, and so are the numbers of the versions of one credential.
pub record IsSound (v : Vault) : Type 0 where
  pub keyed : (i : ℕ) → count (has_id i) v.versions ≤ 1
  pub numbered : (c n : ℕ) → count (is_numbered c n) v.versions ≤ 1
  pub one_active : (c : ℕ) → count (is_current c) v.versions ≤ 1

above_last : (c n : ℕ) (rs : List Version) → last_version c rs < n → count (is_numbered c n) rs ≡ 0
unfolding last_version
above_last c n [] h = refl
above_last c n (r ∷ rs) h = ground (arith, h, above_last c n rs)

not_any : (i : ℕ) (rs : List Version) → any (has_id i) rs ≡ false → count (has_id i) rs ≡ 0
not_any i [] h = refl
not_any i (r ∷ rs) h = ground (arith, h, not_any i rs)

-- An update that leaves a test's answer alone leaves its count alone.
count-update :
    (p q : Version → Bool) (f : Version → Version)
    → ((r : Version) → p (f r) ≡ p r)
    → (rs : List Version) → count p (update q f rs) ≡ count p rs
count-update p q f same [] = refl
count-update p q f same (r ∷ rs) = ground (arith, same r, count-update p q f same rs)

count-versions_after :
    (p : Version → Bool) (now : ℕ) (passed : Bool) (detail : Option Text) (row : Version)
    → ((r : Version) → p (retire_version r) ≡ p r)
    → ((r : Version) → p (finished now passed detail r) ≡ p r)
    → (rs : List Version) → count p (versions_after now passed detail row rs) ≡ count p rs
count-versions_after p now true detail row a b rs =
    count-update p (has_id row.id) (finished now true detail) b
      (update (is_current row.credential_id) retire_version rs)
    ∙ count-update p (is_current row.credential_id) retire_version a rs
count-versions_after p now false detail row a b rs =
    count-update p (has_id row.id) (finished now false detail) b rs

current_other :
    (now c : ℕ) (detail : Option Text) (row : Version) (rs : List Version)
    → count (is_current c) (update (has_id row.id) (finished now false detail) rs)
      ≤ count (is_current c) rs
current_other now c detail row [] = omega arith
current_other now c detail row (r ∷ rs) = ground (arith, current_other now c detail row rs)

-- A transaction.
pub data Change : Type 0 where
  retire : ℕ → ℕ → ℕ → Change
  rename : ℕ → ℕ → Text → Change
  start : ℕ → ℕ → ℕ → Text → Text → ℕ → Change
  finish : ℕ → ℕ → CredentialState → Option Text → ℕ → Change

abbrev pub change : Change → Vault → Vault
change (retire now c t) v = (retire_credential now c t v).1
change (rename c t label) v = (rename_credential c t label v).1
change (start new_id i t label provider a) v =
    (start_credential_validation new_id i t label provider a v).1
change (finish now i s detail a) v = (finish_credential_validation now i s detail a v).1

abbrev pub changes : List Change → Vault → Vault
changes [] v = v
changes (c ∷ cs) v = changes cs (change c v)

versions_after-IsSound :
    (now i : ℕ) (passed : Bool) (detail : Option Text) (v : Vault) (row : Version)
    → IsSound v
    → first (has_id i) v.versions ≡ some row
    → is_validating row.lifecycle ≡ true
    → (w : Vault) → w.versions ≡ versions_after now passed detail row v.versions
    → IsSound w
versions_after-IsSound now i passed detail v row s h e w same = record {
  keyed = λ k. omega (
    arith,
    ap (λ rs. count (has_id k) rs) same,
    count-versions_after (has_id k) now passed detail row (λ r. refl) (λ r. refl) v.versions,
    s.keyed k,
  );
  numbered = λ c n. omega (
    arith,
    ap (λ rs. count (is_numbered c n) rs) same,
    count-versions_after (is_numbered c n) now passed detail row (λ r. refl) (λ r. refl) v.versions,
    s.numbered c n,
  );
  one_active = λ c. elim (Bool-cases passed) [
    | inl y ↦ ground (
      arith,
      y,
      ap (λ rs. count (is_current c) rs) same,
      active_after now i c detail v.versions row h e (s.keyed i),
      s.one_active c,
    )
    | inr n ↦ ground (
      arith,
      n,
      ap (λ rs. count (is_current c) rs) same,
      current_other now c detail row v.versions,
      s.one_active c,
    )
  ];
}

finish_as-IsSound :
    (passed : Bool) (now i : ℕ) (detail : Option Text) (actor_id : ℕ) (v : Vault)
    → IsSound v
    → IsSound (finish_as passed now i detail actor_id v).1
unfolding finish_as
finish_as-IsSound passed now i none actor_id v s =
    elim (Option-cases (first (has_id i) v.versions)) [
      | inl h ↦ rw (h, finish_as) s
      | inr (row, h) ↦ elim (Bool-cases (is_validating row.lifecycle)) [
        | inl e ↦
            elim (Bool-cases (
              leb
                (count (is_current row.credential_id)
                  (versions_after now passed none row v.versions))
                1)) [
                  | inl f ↦ rw (h, finish_as) (rw e (rw f s))
                  | inr f ↦ rw (h, finish_as) (rw e (rw f s))
                ]
        | inr e ↦ rw (h, finish_as) (rw e s)
      ]
    ]
finish_as-IsSound passed now i (some told) actor_id v s =
    elim (Option-cases (first (has_id i) v.versions)) [
      | inl h ↦ rw (h, finish_as) s
      | inr (row, h) ↦ elim (Bool-cases (is_validating row.lifecycle)) [
        | inl e ↦
            elim (Bool-cases (
              leb
                (count (is_current row.credential_id)
                  (versions_after now passed (some told) row v.versions))
                1)) [
                  | inl f ↦ elim (Bool-cases (is_detail told)) [
                    | inl d ↦
                        rw (h, finish_as)
                          (rw e (
                            rw f (
                              rw d (
                                versions_after-IsSound now i passed (some told) v row s h e _
                                  refl))))
                    | inr d ↦ rw (h, finish_as) (rw e (rw f (rw d s)))
                  ]
                  | inr f ↦ rw (h, finish_as) (rw e (rw f s))
                ]
        | inr e ↦ rw (h, finish_as) (rw e s)
      ]
    ]

started-IsSound :
    (r : Version) (v w : Vault)
    → IsSound v
    → any (has_id r.id) v.versions ≡ false
    → r.version ≡ last_version r.credential_id v.versions + 1
    → is_active_state r.lifecycle ≡ false
    → w.versions ≡ r ∷ v.versions
    → IsSound w
started-IsSound r v w s free next still same = record {
  keyed = λ k.
      ground (arith, ap (λ rs. count (has_id k) rs) same, not_any r.id v.versions free, s.keyed k);
  numbered = λ c n. ground (
    arith,
    ap (λ rs. count (is_numbered c n) rs) same,
    above_last c n v.versions,
    next,
    s.numbered c n,
  );
  one_active = λ c. ground (arith, ap (λ rs. count (is_current c) rs) same, still, s.one_active c);
}

same_versions-IsSound : (v w : Vault) → IsSound v → w.versions ≡ v.versions → IsSound w
same_versions-IsSound v w s same = record {
  keyed = λ k. omega (arith, ap (λ rs. count (has_id k) rs) same, s.keyed k);
  numbered = λ c n. omega (arith, ap (λ rs. count (is_numbered c n) rs) same, s.numbered c n);
  one_active = λ c. omega (arith, ap (λ rs. count (is_current c) rs) same, s.one_active c);
}

retire_versions : (now c t : ℕ) (v : Vault) → (retire_credential now c t v).1.versions ≡ v.versions
unfolding retire_credential
retire_versions now c t v = ground arith

rename_versions :
    (c t : ℕ) (label : Text) (v : Vault) → (rename_credential c t label v).1.versions ≡ v.versions
unfolding rename_credential
rename_versions c t label v = ground arith

start-IsSound :
    (new_id i t : ℕ) (label provider : Text) (a : ℕ) (v : Vault)
    → IsSound v
    → IsSound (start_credential_validation new_id i t label provider a v).1
unfolding start_credential_validation
start-IsSound new_id i t label provider a v s = elim (Bool-cases (any (λ k. k == t) v.teams)) [
  | inr h ↦ rw (h, start_credential_validation) s
  | inl h ↦ elim (Bool-cases (is_label label && is_supported provider)) [
    | inr e ↦ rw (h, start_credential_validation) (rw e s)
    | inl e ↦ elim (Bool-cases (any (has_id i) v.versions)) [
      | inl f ↦ rw (h, start_credential_validation) (rw e (rw f s))
      | inr f ↦
          rw (h, start_credential_validation)
            (rw e (rw f (started-IsSound _ v _ s f refl refl refl)))
    ]
  ]
]

change-IsSound : (c : Change) (v : Vault) → IsSound v → IsSound (change c v)
unfolding finish_credential_validation
change-IsSound (retire now c t) v s =
    same_versions-IsSound v (change (retire now c t) v) s (retire_versions now c t v)
change-IsSound (rename c t label) v s =
    same_versions-IsSound v (change (rename c t label) v) s (rename_versions c t label v)
change-IsSound (start new_id i t label provider a) v s =
    start-IsSound new_id i t label provider a v s
change-IsSound (finish now i active detail a) v s = finish_as-IsSound true now i detail a v s
change-IsSound (finish now i failed detail a) v s = finish_as-IsSound false now i detail a v s
change-IsSound (finish now i draft detail a) v s = s
change-IsSound (finish now i validating detail a) v s = s
change-IsSound (finish now i retired detail a) v s = s

-- Whatever transactions run, in whatever order and with or without errors: version ids stay unique,
-- no credential gets two versions of one number, and none has two active versions.
pub changes-IsSound : (cs : List Change) (v : Vault) → IsSound v → IsSound (changes cs v)
changes-IsSound [] v s = s
changes-IsSound (c ∷ cs) v s = changes-IsSound cs (change c v) (change-IsSound c v s)
