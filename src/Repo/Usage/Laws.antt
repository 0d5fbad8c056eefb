-- ===== src/Repo/Usage/Laws.antt =====
-- Which names get which usage.
use scaffolding.Base.{ℕ, ◌≡◌, refl, ◌⊎◌, Bytes, List, [], ◌∷◌, ◌++◌, arith, to_lower, lower}
use scaffolding.Repo.{unknown_target}
use scaffolding.Repo.Usage.{known_targets, first_usage, get_target_usage}

lower_idem : (c : ℕ) → lower (lower c) ≡ lower c
unfolding lower
lower_idem c = ground arith

to_lower_idem : (s : Bytes) → to_lower (to_lower s) ≡ to_lower s
to_lower_idem [] = refl
to_lower_idem (c ∷ s) = ground (arith, lower_idem c, to_lower_idem s)

first_usage-to_lower :
    (name : Bytes) (known : List Bytes) → first_usage (to_lower name) known ≡ first_usage name known
unfolding first_usage
first_usage-to_lower name [] = refl
first_usage-to_lower name (k ∷ rest) = rw to_lower_idem (rw (first_usage-to_lower name rest) refl)

-- The case of letters in the name does not matter.
pub get_target_usage-to_lower :
    (name : Bytes) → get_target_usage (to_lower name) ≡ get_target_usage name
unfolding get_target_usage
get_target_usage-to_lower name = first_usage-to_lower name known_targets

-- The lower-case name holds the lower-case text of `known`.
abbrev pub Mentions : Bytes → Bytes → Type 0
Mentions name known = (a b : Bytes) × (to_lower name ≡ a ++ (to_lower known ++ b))

-- `u` is the first of the known types that the name mentions.
abbrev pub IsFirst : Bytes → List Bytes → Bytes → Type 0
IsFirst name [] u = u ≡ unknown_target
IsFirst name (known ∷ rest) u =
    ((u ≡ known) × Mentions name known) ⊎ ((¬ Mentions name known) × IsFirst name rest u)
