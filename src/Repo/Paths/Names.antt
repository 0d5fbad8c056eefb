-- ===== src/Repo/Paths/Names.antt =====
-- Paths whose parts are names of files, which `validRelPath` lets through.
use mathlib.Core.List.{reverse, reverse-append}
use scaffolding.Base.{
  ℕ, ◌≡◌, ◌≢◌, refl, sym, ap, subst, inl, inr, Bytes, true, false, [], ◌∷◌, ◌++◌, codes, Bool-cases,
  eqb, has_prefix, has_suffix, contains, arith, All, All-map,
}
use scaffolding.Base.Substring.{has_prefix-append, has_prefix-split}
use scaffolding.Repo.Paths.{split_path, parts, dots, valid_rel_path}
use scaffolding.Repo.Paths.Clean.{IsPlain}
use scaffolding.Repo.Paths.Below.{contains_rest}

-- The name of an entry of a directory as `validRelPath` takes it: not empty, not `.` and not `..`, with
-- no separator and no backslash in it, and not ending in `..`.
abbrev pub IsName : Bytes → Type 0
IsName p =
    IsPlain p
    × (contains p (codes "/") ≡ false)
    × (contains p (codes "\\") ≡ false)
    × (has_suffix p dots ≡ false)

has_suffix-append : (t p : Bytes) → has_suffix (t ++ p) p ≡ true
unfolding has_suffix
has_suffix-append t p =
    subst (λ s. has_prefix s (reverse p) ≡ true) (sym (reverse-append t p))
      (has_prefix-append (reverse p) (reverse t))

abbrev EndsNot : Bytes → Type 0
EndsNot p = (t : Bytes) → p ≢ t ++ dots

has_suffix-EndsNot : (p : Bytes) → has_suffix p dots ≡ false → EndsNot p
has_suffix-EndsNot p h t e = cc (h, ap (λ s. has_suffix s dots) e, has_suffix-append t dots)

rest-EndsNot : (c : ℕ) (p : Bytes) → EndsNot (c ∷ p) → EndsNot p
rest-EndsNot c p h t e = h (c ∷ t) (ap (λ s. c ∷ s) e)

-- The parts of a text without its first byte.
parts-rest :
    (P : Bytes → Type 0)
    → ((c : ℕ) (p : Bytes) → P (c ∷ p) → P p)
    → (c : ℕ) (s : Bytes) → All P (parts (c ∷ s))
    → All P (parts s)
unfolding parts split_path
parts-rest P rest c s h = elim (Bool-cases (eqb c b'/')) [
  | inl e ↦ (rw e at h).1
  | inr e ↦ let h' = rw e at h in (rest c (split_path s).0 h'.0, h'.1)
]

-- A text whose parts do not end in `..` holds no `../`.
contains_dots : (s : Bytes) → All EndsNot (parts s) → contains s (codes "../") ≡ false
unfolding parts split_path contains has_prefix
contains_dots [] h = refl
contains_dots (c ∷ s) h = elim (Bool-cases (has_prefix (c ∷ s) (codes "../"))) [
  | inl e ↦
      let (t, w) = has_prefix-split (c ∷ s) (codes "../") e in
      absurd ((subst (λ x. All EndsNot (parts x)) w h).0 [] refl)
  | inr e ↦ ground (arith, e, contains_dots s (parts-rest EndsNot rest-EndsNot c s h))
]

abbrev NoBackslash : Bytes → Type 0
NoBackslash p = contains p (codes "\\") ≡ false

first-NoBackslash : (c : ℕ) (s : Bytes) → All NoBackslash (parts (c ∷ s)) → eqb c b'\\' ≡ false
unfolding parts split_path contains has_prefix
first-NoBackslash c s h = elim (Bool-cases (eqb c b'/')) [
  | inl e ↦ ground arith
  | inr e ↦ let h' = (rw e at h).0 in ground arith
]

contains_backslash : (s : Bytes) → All NoBackslash (parts s) → NoBackslash s
unfolding contains has_prefix
contains_backslash [] h = refl
contains_backslash (c ∷ s) h =
    let first = first-NoBackslash c s h in
    let rest =
      contains_backslash s (parts-rest NoBackslash (λ c p. contains_rest c p (codes "\\")) c s h) in
    ground arith

first_part_ne : (c : ℕ) (s : Bytes) → (split_path (c ∷ s)).0 ≢ [] → eqb c b'/' ≡ false
unfolding split_path
first_part_ne c s n = elim (Bool-cases (eqb c b'/')) [
  | inl e ↦ absurd ((rw e at n) refl)
  | inr e ↦ e
]

-- `validRelPath` takes a path whose parts are names.
pub valid_rel_path_names : (s : Bytes) → All IsName (parts s) → valid_rel_path s ≡ true
unfolding valid_rel_path parts has_prefix
valid_rel_path_names [] h = absurd (h.0.0.0 refl)
valid_rel_path_names (c ∷ s) h =
    let dots_out =
      contains_dots (c ∷ s)
        (All-map IsName EndsNot (parts (c ∷ s)) (λ p n. has_suffix-EndsNot p n.3) h) in
    let backslash_out =
      contains_backslash (c ∷ s) (All-map IsName NoBackslash (parts (c ∷ s)) (λ p n. n.2) h) in
    let first = first_part_ne c s h.0.0.0 in rw (dots_out, backslash_out, first) refl
