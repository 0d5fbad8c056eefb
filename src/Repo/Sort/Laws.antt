-- ===== src/Repo/Sort/Laws.antt =====
-- Sorting forgets the order of the map and keeps every target.
use scaffolding.Base.{◌≡◌, ◌≢◌, refl, ap, ◌∙◌, false, List, [], ◌∷◌, arith}
use scaffolding.Base.Order.{less, less_asym, less_total, less_split}
use scaffolding.Repo.{TargetWithMetadata}
use scaffolding.Repo.Sort.{insert_target, sort_targets}

abbrev Target : Type 0
Target = TargetWithMetadata

-- One list of targets is another in another order, and targets that change places have
-- different names.
pub data Reorder : List TargetWithMetadata → List TargetWithMetadata → Type 0 where
  same : (l : List TargetWithMetadata) → Reorder l l
  skip :
      (t : TargetWithMetadata) {l m : List TargetWithMetadata}
      → Reorder l m
      → Reorder (t ∷ l) (t ∷ m)
  swap :
      (t u : TargetWithMetadata) (l : List TargetWithMetadata)
      → t.name ≢ u.name
      → Reorder (t ∷ u ∷ l) (u ∷ t ∷ l)
  trans : {l m n : List TargetWithMetadata} → Reorder l m → Reorder m n → Reorder l n

insert_target_comm :
    (t u : Target) (l : List Target)
    → t.name ≢ u.name
    → insert_target t (insert_target u l) ≡ insert_target u (insert_target t l)
unfolding insert_target
insert_target_comm t u [] n = ground (arith, less_asym t.name u.name, less_total t.name u.name)
insert_target_comm t u (v ∷ l) n = ground (
  arith,
  less_asym t.name u.name,
  less_total t.name u.name,
  less_split v.name t.name u.name,
  less_split v.name u.name t.name,
  insert_target_comm t u l,
)

-- The sorted list does not depend on the order of the given one.
pub sort_targets-Reorder :
    {l m : List TargetWithMetadata} → Reorder l m → sort_targets l ≡ sort_targets m
unfolding sort_targets
sort_targets-Reorder (same l) = refl
sort_targets-Reorder (skip t r) = ap (insert_target t) (sort_targets-Reorder r)
sort_targets-Reorder (swap t u l n) = insert_target_comm t u (sort_targets l) n
sort_targets-Reorder (trans r s) = sort_targets-Reorder r ∙ sort_targets-Reorder s

-- In the order of the names.
abbrev pub IsSorted : List TargetWithMetadata → Type 0
IsSorted [] = Unit
IsSorted (t ∷ []) = Unit
IsSorted (t ∷ u ∷ l) = (less u.name t.name ≡ false) × IsSorted (u ∷ l)

-- A sorted list is left alone.
pub sort_targets-IsSorted_eq : (l : List TargetWithMetadata) → IsSorted l → sort_targets l ≡ l
unfolding sort_targets
sort_targets-IsSorted_eq [] s = refl
sort_targets-IsSorted_eq (t ∷ []) s = refl
sort_targets-IsSorted_eq (t ∷ u ∷ l) s =
    ap (insert_target t) (sort_targets-IsSorted_eq (u ∷ l) s.1)
    ∙ (unfold insert_target in rw (s.0) refl)
