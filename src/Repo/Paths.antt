-- ===== src/Repo/Paths.antt =====
-- What the repository builder uses of `path` and `path/filepath`, for the separator `/`, and
-- `validRelPath`.
pub mod Clean
pub mod Below
pub mod Joined
pub mod Names
use scaffolding.Base.{
  Bytes, Bool, true, false, not, ◌||◌, List, [], ◌∷◌, ◌++◌, codes, ◌==◌, eqb, has_prefix, contains,
  if◌then◌else◌,
}

-- The text between the separators; there is always one part.
unfoldable pub split_path : Bytes → Bytes × List Bytes
split_path [] = ([], [])
split_path (c ∷ s) =
    let (part, parts) = split_path s in if eqb c b'/' then ([], part ∷ parts) else (c ∷ part, parts)

unfoldable pub parts : Bytes → List Bytes
unfolding split_path
parts s = (split_path s).0 ∷ (split_path s).1

abbrev pub dot : Bytes
dot = b'.' ∷ []

abbrev pub dots : Bytes
dots = b'.' ∷ b'.' ∷ []

-- The parts of a path that have been kept, the last one first, with one more part: an empty part and
-- `.` are dropped, and `..` takes the last part away if there is one. A path from the root drops
-- other `..`.
unfoldable pub step_up : Bool → List Bytes → List Bytes
step_up rooted [] = if rooted then [] else dots ∷ []
step_up rooted (last ∷ kept) = if last == dots then dots ∷ last ∷ kept else kept

unfoldable pub clean_step : Bool → List Bytes → Bytes → List Bytes
unfolding step_up
clean_step rooted kept [] = kept
clean_step rooted kept (c ∷ part) =
    if (c ∷ part) == dot
    then kept
    else if (c ∷ part) == dots
    then step_up rooted kept
    else (c ∷ part) ∷ kept

unfoldable pub clean_parts : Bool → List Bytes → List Bytes → List Bytes
unfolding clean_step
clean_parts rooted kept [] = kept
clean_parts rooted kept (part ∷ rest) = clean_parts rooted (clean_step rooted kept part) rest

-- The parts, the last one first, as a text.
unfoldable pub join_parts : List Bytes → Bytes → Bytes
join_parts [] text = text
join_parts (part ∷ []) text = part ++ text
join_parts (part ∷ kept) text = join_parts kept (b'/' ∷ (part ++ text))

unfoldable pub show_path : Bool → List Bytes → Bytes
unfolding join_parts
show_path true kept = b'/' ∷ join_parts kept []
show_path false [] = dot
show_path false kept = join_parts kept []

unfoldable pub is_rooted : Bytes → Bool
is_rooted [] = false
is_rooted (c ∷ s) = eqb c b'/'

-- `filepath.Clean`
unfoldable pub clean : Bytes → Bytes
unfolding parts clean_parts show_path is_rooted
clean s = show_path (is_rooted s) (clean_parts (is_rooted s) [] (parts s))

-- `filepath.Join` of two texts
unfoldable pub join : Bytes → Bytes → Bytes
unfolding clean
join [] [] = []
join [] b = clean b
join (c ∷ a) b = clean ((c ∷ a) ++ (b'/' ∷ b))

-- The text up to its last separator.
unfoldable pub up_to_slash : Bytes → Bytes
up_to_slash [] = []
up_to_slash (c ∷ s) =
    let rest = up_to_slash s in
    elim rest [ [] ↦ if eqb c b'/' then c ∷ [] else [] | d ∷ t ↦ c ∷ d ∷ t ]

-- `filepath.Dir`
unfoldable pub dir : Bytes → Bytes
unfolding up_to_slash
dir s = clean (up_to_slash s)

-- `validRelPath`
unfoldable pub valid_rel_path : Bytes → Bool
valid_rel_path [] = false
valid_rel_path (c ∷ p) =
    if contains (c ∷ p) (codes "\\")
      || has_prefix (c ∷ p) (codes "/")
      || contains (c ∷ p) (codes "../")
    then false
    else true
