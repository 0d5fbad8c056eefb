-- ===== src/Repo/Usage.antt =====
-- `getTargetUsage`: what a target is for, by its file name.
pub mod Laws
pub mod Split
use scaffolding.Base.{Bytes, List, [], ◌∷◌, contains, to_lower, lower, if◌then◌else◌}
use scaffolding.Repo.{fulcio_target, rekor_target, ctfe_target, tsa_target, unknown_target}

abbrev pub known_targets : List Bytes
known_targets = fulcio_target ∷ rekor_target ∷ ctfe_target ∷ tsa_target ∷ []

-- The loop over the known types.
unfoldable pub first_usage : Bytes → List Bytes → Bytes
first_usage name [] = unknown_target
first_usage name (known ∷ rest) =
    if contains (to_lower name) (to_lower known) then known else first_usage name rest

unfoldable pub get_target_usage : Bytes → Bytes
unfolding first_usage contains lower
get_target_usage name = first_usage name known_targets
