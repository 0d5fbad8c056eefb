-- ===== src/Repo/Paths/Joined.antt =====
-- `filepath.Join` of a directory that is given from the root and a path of plain parts.
use mathlib.Core.List.{append_assoc, append-nil, append_cancel_left, tail-eq_of_cons-eq}
use scaffolding.Base.{
  ne-==, ◌≡◌, refl, sym, ap, ◌∙◌, subst, inl, inr, Bytes, true, List, [], ◌∷◌, ◌++◌, Bool-cases,
  eqb, has_prefix, arith, All,
}
use scaffolding.Base.Substring.{has_prefix-append}
use scaffolding.Repo.Paths.{
  split_path, parts, dot, dots, clean_step, clean_parts, join_parts, show_path, clean, join,
}
use scaffolding.Repo.Paths.Clean.{IsPlain}
use scaffolding.Repo.Paths.Below.{clean-parts, join-parts}

-- The parts with a separator before each, from the first or from the last one on.
abbrev slashed : List Bytes → Bytes
slashed [] = []
slashed (p ∷ ps) = b'/' ∷ (p ++ slashed ps)

abbrev pub shown : List Bytes → Bytes
shown [] = []
shown (p ∷ kept) = shown kept ++ (b'/' ∷ p)

-- The first list, the last part first, on the second.
abbrev onto : List Bytes → List Bytes → List Bytes
onto [] kept = kept
onto (p ∷ ps) kept = onto ps (p ∷ kept)

slashed-parts : (s : Bytes) → slashed (parts s) ≡ b'/' ∷ s
unfolding parts split_path
slashed-parts [] = refl
slashed-parts (c ∷ s) = elim (Bool-cases (eqb c b'/')) [
  | inl e ↦ rw e (let c_is : c ≡ b'/' = ground arith in cc (slashed-parts s, c_is))
  | inr e ↦ rw e (cc (slashed-parts s))
]

shown-join_parts :
    (p : Bytes) (kept : List Bytes) (t : Bytes)
    → b'/' ∷ join_parts (p ∷ kept) t ≡ shown (p ∷ kept) ++ t
unfolding join_parts
shown-join_parts p [] t = refl
shown-join_parts p (q ∷ kept) t =
    shown-join_parts q kept (b'/' ∷ (p ++ t)) ∙ sym (append_assoc (shown (q ∷ kept)) (b'/' ∷ p) t)

shown-onto : (ps kept : List Bytes) → shown (onto ps kept) ≡ shown kept ++ slashed ps
shown-onto [] kept = sym (append-nil (shown kept))
shown-onto (p ∷ ps) kept =
    shown-onto ps (p ∷ kept) ∙ append_assoc (shown kept) (b'/' ∷ p) (slashed ps)

clean_parts_plain :
    (kept ps : List Bytes) → All IsPlain ps → clean_parts true kept ps ≡ onto ps kept
unfolding clean_parts clean_step
clean_parts_plain kept [] h = refl
clean_parts_plain kept ([] ∷ ps) h = absurd (h.0.0 refl)
clean_parts_plain kept ((c ∷ p) ∷ ps) h =
    rw (ne-== (c ∷ p) dot h.0.1, ne-== (c ∷ p) dots h.0.2)
      (clean_parts_plain ((c ∷ p) ∷ kept) ps h.1)

show_path-shown : (p : Bytes) (kept : List Bytes) → show_path true (p ∷ kept) ≡ shown (p ∷ kept)
unfolding show_path
show_path-shown p kept = shown-join_parts p kept [] ∙ append-nil (shown (p ∷ kept))

show_path-onto :
    (p : Bytes) (ps kept : List Bytes)
    → show_path true (onto (p ∷ ps) kept) ≡ shown (onto (p ∷ ps) kept)
show_path-onto p [] kept = show_path-shown p kept
show_path-onto p (q ∷ ps) kept = show_path-onto q ps (p ∷ kept)

-- The directory's parts, the last one first.
abbrev pub base_of : Bytes → List Bytes
base_of d = clean_parts true [] (parts (b'/' ∷ d))

join-shown :
    (d path : Bytes)
    → All IsPlain (parts path)
    → join (b'/' ∷ d) path ≡ shown (base_of d) ++ (b'/' ∷ path)
unfolding parts
join-shown d path h =
    join-parts d path
    ∙ ap (show_path true) (clean_parts_plain (base_of d) (parts path) h)
    ∙ show_path-onto (split_path path).0 (split_path path).1 (base_of d)
    ∙ shown-onto (parts path) (base_of d)
    ∙ ap (λ t. shown (base_of d) ++ t) (slashed-parts path)

-- Plain paths that are joined to one path are the same.
pub join_inj :
    (d p q : Bytes)
    → All IsPlain (parts p)
    → All IsPlain (parts q)
    → join (b'/' ∷ d) p ≡ join (b'/' ∷ d) q
    → p ≡ q
join_inj d p q hp hq e = tail-eq_of_cons-eq (
    append_cancel_left (shown (base_of d)) (b'/' ∷ p) (b'/' ∷ q)
      (sym (join-shown d p hp) ∙ e ∙ join-shown d q hq))

shown_prefix :
    (kept : List Bytes) (t : Bytes)
    → has_prefix (shown kept ++ (b'/' ∷ t)) (show_path true kept) ≡ true
unfolding show_path has_prefix
shown_prefix [] t = refl
shown_prefix (p ∷ kept) t =
    subst (λ x. has_prefix (shown (p ∷ kept) ++ (b'/' ∷ t)) x ≡ true) (sym (show_path-shown p kept))
      (has_prefix-append (shown (p ∷ kept)) (b'/' ∷ t))

-- A plain path that is joined to a directory begins like the directory.
pub join-has_prefix :
    (d p : Bytes) → All IsPlain (parts p) → has_prefix (join (b'/' ∷ d) p) (clean (b'/' ∷ d)) ≡ true
join-has_prefix d p h =
    subst (λ x. has_prefix x (clean (b'/' ∷ d)) ≡ true) (sym (join-shown d p h))
      (subst (λ c. has_prefix (shown (base_of d) ++ (b'/' ∷ p)) c ≡ true) (sym (clean-parts d))
        (shown_prefix (base_of d) p))
