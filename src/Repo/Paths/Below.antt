-- ===== src/Repo/Paths/Below.antt =====
-- A cleaned path below a directory: what `filepath.Join` makes of a name that `validRelPath` lets
-- through and that begins like the directory.
use scaffolding.Base.{
  ne-==, ℕ, ◌≡◌, ◌≢◌, refl, sym, ap, subst, ◌∙◌, inl, inr, Bytes, true, false, List, [], ◌∷◌, ◌++◌,
  codes, ◌==◌, ==-ne, Bool-cases, eqb, has_prefix, contains, arith, All, All-init, All-last, init,
  last, init-last, length,
}
use scaffolding.Base.Substring.{contains-append}
use scaffolding.Repo.Paths.{
  split_path, parts, dot, dots, step_up, clean_step, clean_parts, show_path, is_rooted, clean, join,
  valid_rel_path,
}
use scaffolding.Repo.Paths.Clean.{
  parts-append, clean_parts-append, IsPlain, IsPart, NoSlash, parts-NoSlash, clean_parts-IsPlain,
  clean_parts_below, show_path_shorter, length-has_prefix,
}

split_text :
    (s q : Bytes) (qs : List Bytes)
    → (split_path s).1 ≡ q ∷ qs
    → (t : Bytes) × (s ≡ (split_path s).0 ++ (b'/' ∷ t))
unfolding split_path
split_text [] q qs h = absurd (cc)
split_text (c ∷ s) q qs h = elim (Bool-cases (eqb c b'/')) [
  | inl e ↦ (s, ground arith)
  | inr e ↦ let (t, w) = split_text s q qs (rw e at h) in (t, rw e (ap (λ u. c ∷ u) w))
]

pub contains_rest : (c : ℕ) (s p : Bytes) → contains (c ∷ s) p ≡ false → contains s p ≡ false
unfolding contains
contains_rest c s p h = ground arith

-- The first part is not `..` if a separator follows.
first_part :
    (c : ℕ) (s q : Bytes) (qs : List Bytes)
    → (split_path s).1 ≡ q ∷ qs
    → contains (c ∷ s) (codes "../") ≡ false
    → c ∷ (split_path s).0 ≢ dots
first_part c s q qs e h d =
    let (t, w) = split_text s q qs e in cc (h, w, d, contains-append [] (codes "../") t)

longer_part :
    (c : ℕ) (s : Bytes) (ps : List Bytes)
    → (split_path s).1 ≡ ps
    → contains (c ∷ s) (codes "../") ≡ false
    → All (λ p. p ≢ dots) (init ((split_path s).0 ∷ ps))
    → All (λ p. p ≢ dots) (init ((c ∷ (split_path s).0) ∷ ps))
longer_part c s [] e h a = tt
longer_part c s (q ∷ qs) e h a = (first_part c s q qs e h, a.1)

-- A text without `../` has no part `..` but the last.
init-parts : (s : Bytes) → contains s (codes "../") ≡ false → All (λ p. p ≢ dots) (init (parts s))
unfolding parts split_path
init-parts [] h = tt
init-parts (c ∷ s) h = elim (Bool-cases (eqb c b'/')) [
  | inl e ↦ rw e ((λ q. cc), init-parts s (contains_rest c s (codes "../") h))
  | inr e ↦
      rw e
        (longer_part c s (split_path s).1 refl h (init-parts s (contains_rest c s (codes "../") h)))
]

-- What the last part of a name does: it stays below the directory or names the directory above.
data LastStep (base kept : List Bytes) : Type 0 where
  stays : (es : List Bytes) → All IsPart es → kept ≡ es ++ base → LastStep base kept
  leaves : (b : Bytes) → base ≡ b ∷ kept → LastStep base kept

step_up-LastStep :
    (base es : List Bytes)
    → All IsPlain base
    → All IsPart es
    → LastStep base (step_up true (es ++ base))
unfolding step_up
step_up-LastStep [] [] hb he = stays [] tt refl
step_up-LastStep (b ∷ base) [] hb he = rw (ne-== b dots hb.0.2) (leaves b refl)
step_up-LastStep base (e ∷ es) hb he = rw (ne-== e dots he.0.0.2) (stays es he.1 refl)

clean_step-LastStep :
    (base es : List Bytes) (l : Bytes)
    → All IsPlain base
    → All IsPart es
    → NoSlash l
    → LastStep base (clean_step true (es ++ base) l)
unfolding clean_step
clean_step-LastStep base es [] hb he w = stays es he refl
clean_step-LastStep base es (c ∷ p) hb he w = elim (Bool-cases ((c ∷ p) == dot)) [
  | inl e ↦ rw e (stays es he refl)
  | inr e ↦ elim (Bool-cases ((c ∷ p) == dots)) [
    | inl e' ↦ rw (e, e') (step_up-LastStep base es hb he)
    | inr e' ↦
        rw (e, e')
          (stays ((c ∷ p) ∷ es) ((((λ q. cc), ==-ne (c ∷ p) dot e, ==-ne (c ∷ p) dots e'), w), he)
            refl)
  ]
]

-- The parts of a name without `../`.
name-LastStep :
    (base : List Bytes) (name : Bytes)
    → All IsPlain base
    → contains name (codes "../") ≡ false
    → LastStep base (clean_parts true base (parts name))
unfolding parts clean_parts
name-LastStep base name hb h =
    let x = (split_path name).0 in
    let xs = (split_path name).1 in
    let (es, he, e) =
      clean_parts_below base [] (init (x ∷ xs)) tt (init-parts name h)
        (All-init NoSlash (x ∷ xs) (parts-NoSlash name)) in
    subst (LastStep base)
      (sym (
        ap (clean_parts true base) (sym (init-last x xs))
        ∙ clean_parts-append true base (init (x ∷ xs)) (last x xs ∷ [])
        ∙ ap (λ k. clean_step true k (last x xs)) e))
      (clean_step-LastStep base es (last x xs) hb he (All-last NoSlash x xs (parts-NoSlash name)))

-- A path that is the directory or stands below it, by the parts of the two cleaned paths: the parts
-- that come after the directory are names, with no separator in them, and none is `.` or `..`.
pub record IsBelow (directory target : Bytes) : Type 0 where
  pub base : List Bytes
  pub es : List Bytes
  pub directory_clean : clean directory ≡ show_path true base
  pub target_clean : target ≡ show_path true (es ++ base)
  pub plain : All IsPart es

valid_rel_path-contains :
    (name : Bytes) → valid_rel_path name ≡ true → contains name (codes "../") ≡ false
unfolding valid_rel_path
valid_rel_path-contains [] h = absurd (cc)
valid_rel_path-contains (c ∷ p) h = ground arith

pub clean-parts :
    (d : Bytes) → clean (b'/' ∷ d) ≡ show_path true (clean_parts true [] (parts (b'/' ∷ d)))
unfolding clean is_rooted
clean-parts d = refl

pub join-parts :
    (d name : Bytes)
    → join (b'/' ∷ d) name
      ≡ show_path true (clean_parts true (clean_parts true [] (parts (b'/' ∷ d))) (parts name))
unfolding join
join-parts d name =
    clean-parts (d ++ (b'/' ∷ name))
    ∙ ap (λ ps. show_path true (clean_parts true [] ps)) (parts-append (b'/' ∷ d) name)
    ∙ ap (show_path true) (clean_parts-append true [] (parts (b'/' ∷ d)) (parts name))

-- The directory above does not begin like the directory.
above_shorter :
    (base kept : List Bytes) (b : Bytes)
    → All IsPlain base
    → base ≡ b ∷ kept
    → has_prefix (show_path true kept) (show_path true base) ≢ true
above_shorter base kept b a e h = omega (
  arith,
  length-has_prefix (show_path true kept) (show_path true base) h,
  ap (λ l. length (show_path true l)) e,
  show_path_shorter b kept (subst (All IsPlain) e a).0.0,
)

-- A name that `validRelPath` lets through, joined to a directory that is given from the root, is
-- below the directory if it begins with the directory's cleaned name.
pub join-IsBelow :
    (d name : Bytes)
    → valid_rel_path name ≡ true
    → has_prefix (join (b'/' ∷ d) name) (clean (b'/' ∷ d)) ≡ true
    → IsBelow (b'/' ∷ d) (join (b'/' ∷ d) name)
join-IsBelow d name v h = elim (name-LastStep base name plain (valid_rel_path-contains name v)) [
  | stays es he e ↦ record {
    base = base;
    es = es;
    directory_clean = clean-parts d;
    target_clean = join-parts d name ∙ ap (show_path true) e;
    plain = he;
  }
  | leaves b e ↦ absurd (
      above_shorter base _ b plain e (
        subst (λ t. has_prefix t (show_path true base) ≡ true) (join-parts d name)
          (subst (λ c. has_prefix (join (b'/' ∷ d) name) c ≡ true) (clean-parts d) h)))
]
  where
    base : List Bytes
    base = clean_parts true [] (parts (b'/' ∷ d))

    plain : All IsPlain base
    plain = clean_parts-IsPlain [] (parts (b'/' ∷ d)) tt
