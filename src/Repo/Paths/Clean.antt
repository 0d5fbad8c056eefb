-- ===== src/Repo/Paths/Clean.antt =====
-- What `Clean` keeps of a path's parts, and how long the text is.
use scaffolding.Base.{
  false, ne-==, ℕ, ◌+◌, ◌<◌, ◌≤◌, ◌≡◌, ◌≢◌, refl, ap, inl, inr, Bytes, Bool, true, List, [], ◌∷◌,
  ◌++◌, ◌==◌, ==-ne, Bool-cases, eqb, has_prefix, contains, codes, arith, All, length,
  length-append,
}
use scaffolding.Base.Substring.{has_prefix-split}
use scaffolding.Repo.Paths.{
  split_path, parts, dot, dots, step_up, clean_step, clean_parts, join_parts, show_path,
}

pub parts-append : (a b : Bytes) → parts (a ++ (b'/' ∷ b)) ≡ parts a ++ parts b
unfolding parts split_path
parts-append [] b = refl
parts-append (c ∷ a) b = elim (Bool-cases (eqb c b'/')) [
  | inl e ↦ rw e (ap (λ l. [] ∷ l) (parts-append a b))
  | inr e ↦
      rw e (ap (λ (l : List Bytes). elim l [ [] ↦ [] | p ∷ ps ↦ (c ∷ p) ∷ ps ]) (parts-append a b))
]

pub clean_parts-append :
    (r : Bool) (kept ps qs : List Bytes)
    → clean_parts r kept (ps ++ qs) ≡ clean_parts r (clean_parts r kept ps) qs
unfolding clean_parts
clean_parts-append r kept [] qs = refl
clean_parts-append r kept (p ∷ ps) qs = clean_parts-append r (clean_step r kept p) ps qs

-- A part that `Clean` keeps.
abbrev pub IsPlain : Bytes → Type 0
IsPlain p = (p ≢ []) × (p ≢ dot) × (p ≢ dots)

step_up-IsPlain : (kept : List Bytes) → All IsPlain kept → All IsPlain (step_up true kept)
unfolding step_up
step_up-IsPlain [] h = tt
step_up-IsPlain (p ∷ kept) h = rw (ne-== p dots h.0.2) h.1

clean_step-IsPlain :
    (kept : List Bytes) (c : ℕ) (p : Bytes)
    → All IsPlain kept
    → All IsPlain (clean_step true kept (c ∷ p))
unfolding clean_step
clean_step-IsPlain kept c p h = elim (Bool-cases ((c ∷ p) == dot)) [
  | inl e ↦ rw e h
  | inr e ↦ rw e (elim (Bool-cases ((c ∷ p) == dots)) [
    | inl e' ↦ rw e' (step_up-IsPlain kept h)
    | inr e' ↦ rw e' ((λ q. cc, ==-ne (c ∷ p) dot e, ==-ne (c ∷ p) dots e'), h)
  ])
]

pub clean_parts-IsPlain :
    (kept ps : List Bytes) → All IsPlain kept → All IsPlain (clean_parts true kept ps)
unfolding clean_parts clean_step
clean_parts-IsPlain kept [] h = h
clean_parts-IsPlain kept ([] ∷ ps) h = clean_parts-IsPlain kept ps h
clean_parts-IsPlain kept ((c ∷ p) ∷ ps) h =
    clean_parts-IsPlain (clean_step true kept (c ∷ p)) ps (clean_step-IsPlain kept c p h)

abbrev pub NoSlash : Bytes → Type 0
NoSlash p = contains p (codes "/") ≡ false

-- A part that `Clean` keeps, which is one name: no separator is in it.
abbrev pub IsPart : Bytes → Type 0
IsPart p = IsPlain p × NoSlash p

first-NoSlash : (c : ℕ) (p : Bytes) → eqb c b'/' ≡ false → NoSlash p → NoSlash (c ∷ p)
unfolding contains has_prefix
first-NoSlash c p e h = ground arith

-- The text between two separators has none.
pub parts-NoSlash : (s : Bytes) → All NoSlash (parts s)
unfolding parts split_path contains has_prefix
parts-NoSlash [] = (refl, tt)
parts-NoSlash (c ∷ s) = elim (Bool-cases (eqb c b'/')) [
  | inl e ↦ rw e (refl, parts-NoSlash s)
  | inr e ↦ rw e (first-NoSlash c (split_path s).0 e (parts-NoSlash s).0, (parts-NoSlash s).1)
]

-- With no part `..`, the parts are added to those that are there.
pub clean_parts_below :
    (base es ps : List Bytes)
    → All IsPart es
    → All (λ p. p ≢ dots) ps
    → All NoSlash ps
    → (es' : List Bytes) × All IsPart es' × (clean_parts true (es ++ base) ps ≡ es' ++ base)
unfolding clean_parts clean_step
clean_parts_below base es [] h a w = (es, h, refl)
clean_parts_below base es ([] ∷ ps) h a w = clean_parts_below base es ps h a.1 w.1
clean_parts_below base es ((c ∷ p) ∷ ps) h a w = elim (Bool-cases ((c ∷ p) == dot)) [
  | inl e ↦ rw e (clean_parts_below base es ps h a.1 w.1)
  | inr e ↦
      rw (e, ne-== (c ∷ p) dots a.0)
        (clean_parts_below base ((c ∷ p) ∷ es) ps ((((λ q. cc), ==-ne (c ∷ p) dot e, a.0), w.0), h)
          a.1 w.1)
]

length-join_parts :
    (p : Bytes) (kept : List Bytes) (text : Bytes)
    → length (join_parts (p ∷ kept) text) ≡ length (join_parts (p ∷ kept) []) + length text
unfolding join_parts
length-join_parts p [] text = rw (length-append p text, length-append p []) (omega arith)
length-join_parts p (q ∷ kept) text = omega (
  arith,
  length-join_parts q kept (b'/' ∷ (p ++ text)),
  length-join_parts q kept (b'/' ∷ (p ++ [])),
  length-append p text,
  length-append p [],
)

-- The directory above has a shorter name.
pub show_path_shorter :
    (p : Bytes) (kept : List Bytes)
    → p ≢ []
    → length (show_path true kept) < length (show_path true (p ∷ kept))
unfolding show_path join_parts
show_path_shorter [] kept n = absurd (n refl)
show_path_shorter (c ∷ p) [] n = omega (arith, length-append p [])
show_path_shorter (c ∷ p) (q ∷ kept) n =
    omega (arith, length-join_parts q kept (b'/' ∷ ((c ∷ p) ++ [])))

pub length-has_prefix : (s p : Bytes) → has_prefix s p ≡ true → length p ≤ length s
length-has_prefix s p h =
    let (t, e) = has_prefix-split s p h in omega (arith, ap length e, length-append p t)
