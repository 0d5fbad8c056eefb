-- ===== src/Repo/Sort/Filter.antt =====
-- Sorting and then taking some of the targets is taking them and then sorting.
use scaffolding.Base.{
  ◌≡◌, refl, ap, ◌∙◌, Bool, true, false, List, [], ◌∷◌, if◌then◌else◌, arith, All, Bool-cases, inl,
  inr,
}
use scaffolding.Base.Order.{less, less_asym, less_split}
use scaffolding.Repo.{TargetWithMetadata}
use scaffolding.Repo.Sort.{insert_target, sort_targets}

abbrev Target : Type 0
Target = TargetWithMetadata

-- No target of the list is before `t`.
abbrev NotBefore : Target → List Target → Type 0
NotBefore t l = All (λ u. less u.name t.name ≡ false) l

abbrev Ascending : List Target → Type 0
Ascending [] = Unit
Ascending (t ∷ l) = NotBefore t l × Ascending l

NotBefore-trans :
    (t u : Target) (l : List Target) → less u.name t.name ≡ false → NotBefore u l → NotBefore t l
NotBefore-trans t u [] h a = tt
NotBefore-trans t u (v ∷ l) h a =
    (ground (arith, less_split v.name t.name u.name), NotBefore-trans t u l h a.1)

NotBefore-insert_target :
    (t u : Target) (l : List Target)
    → less u.name t.name ≡ false
    → NotBefore t l
    → NotBefore t (insert_target u l)
unfolding insert_target
NotBefore-insert_target t u [] h a = (h, tt)
NotBefore-insert_target t u (v ∷ l) h a = elim (Bool-cases (less v.name u.name)) [
  | inl e ↦ rw e (a.0, NotBefore-insert_target t u l h a.1)
  | inr e ↦ rw e (h, a)
]

Ascending-insert_target :
    (u : Target) (l : List Target) → Ascending l → Ascending (insert_target u l)
unfolding insert_target
Ascending-insert_target u [] a = (tt, tt)
Ascending-insert_target u (v ∷ l) a = elim (Bool-cases (less v.name u.name)) [
  | inl e ↦ rw e (
    NotBefore-insert_target v u l (less_asym v.name u.name e) a.0,
    Ascending-insert_target u l a.1,
  )
  | inr e ↦ rw e ((e, NotBefore-trans u v l e a.0), a)
]

Ascending-sort_targets : (l : List Target) → Ascending (sort_targets l)
unfolding sort_targets
Ascending-sort_targets [] = tt
Ascending-sort_targets (t ∷ l) =
    Ascending-insert_target t (sort_targets l) (Ascending-sort_targets l)

-- The targets of the list that pass the test.
abbrev pub select : (TargetWithMetadata → Bool) → List TargetWithMetadata → List TargetWithMetadata
select p [] = []
select p (t ∷ l) = if p t then t ∷ select p l else select p l

module _ (p : Target → Bool) where
  insert_target-NotBefore :
      (t : Target) (l : List Target) → NotBefore t l → insert_target t (select p l) ≡ t ∷ select p l
  unfolding insert_target
  insert_target-NotBefore t [] a = refl
  insert_target-NotBefore t (u ∷ l) a = ground (arith, insert_target-NotBefore t l a.1)

  select-insert_target_yes :
      (t : Target) (l : List Target)
      → Ascending l
      → p t ≡ true
      → select p (insert_target t l) ≡ insert_target t (select p l)
  unfolding insert_target
  select-insert_target_yes t [] a y = rw y refl
  select-insert_target_yes t (u ∷ l) a y = ground (
    arith,
    select-insert_target_yes t l a.1 y,
    insert_target-NotBefore t l,
    NotBefore-trans t u l,
  )

  select-insert_target_not :
      (t : Target) (l : List Target) → p t ≡ false → select p (insert_target t l) ≡ select p l
  unfolding insert_target
  select-insert_target_not t [] n = rw n refl
  select-insert_target_not t (u ∷ l) n = ground (arith, select-insert_target_not t l n)

  pub select-sort_targets :
      (l : List TargetWithMetadata) → select p (sort_targets l) ≡ sort_targets (select p l)
  unfolding sort_targets
  select-sort_targets [] = refl
  select-sort_targets (t ∷ l) = elim (Bool-cases (p t)) [
    | inl y ↦ rw y (
        select-insert_target_yes t (sort_targets l) (Ascending-sort_targets l) y
        ∙ ap (insert_target t) (select-sort_targets l))
    | inr n ↦ rw n (select-insert_target_not t (sort_targets l) n ∙ select-sort_targets l)
  ]
