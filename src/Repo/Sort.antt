-- ===== src/Repo/Sort.antt =====
-- `sort.Slice` of the targets by their names. Names are the keys of a map, so they differ, and
-- then every sorting algorithm has the same result.
pub mod Laws
pub mod Filter
use scaffolding.Base.{List, [], ◌∷◌, if◌then◌else◌}
use scaffolding.Base.Order.{less}
use scaffolding.Repo.{TargetWithMetadata}

unfoldable pub insert_target :
    TargetWithMetadata → List TargetWithMetadata → List TargetWithMetadata
insert_target t [] = t ∷ []
insert_target t (u ∷ us) = if less u.name t.name then u ∷ insert_target t us else t ∷ u ∷ us

unfoldable pub sort_targets : List TargetWithMetadata → List TargetWithMetadata
unfolding insert_target less
sort_targets [] = []
sort_targets (t ∷ ts) = insert_target t (sort_targets ts)
