-- ===== src/Jobs/Trees/TreeId.antt =====
-- The tree id that createtree writes is the one that the log's configuration job reads.
use mathlib.Core.List.{head-eq_of_cons-eq}
use scaffolding.Base.{
  ℕ, zero, suc, ◌+◌, ◌*◌, ◌/◌, ◌%◌, ◌^◌, ◌<◌, ◌≡◌, refl, ap, ◌∙◌, Bytes, Option, some, [], ◌∷◌, ok,
  or_fatal, or_fatal-eq-ok, arith, ltb, eqb, decimal, decimal_digits, bytes_dec, false, Bool-cases,
  inl, inr,
}
use scaffolding.Base.Int.{
  ℤ, pos, negsuc, decimal_ℤ, parse_digits, parse_uint, parse_int64, parse_unsigned, parse_negative,
}
use scaffolding.Cluster.{continue-ok}
use scaffolding.Ctlog.CreateConfig.{tree_key, tree_id}
use scaffolding.Jobs.Trees.{TreeWorld, TreeFlags, Tree, create_tree, store_new_tree}
use scaffolding.Base.Dict.{Dict, insert, lookup-insert}

-- The values of an `int64`.
abbrev pub IsInt64 : ℤ → Type 0
IsInt64 (pos n) = n < 2 ^ 63
IsInt64 (negsuc n) = n < 2 ^ 63

parse_digit :
    (m d : ℕ) (s : Bytes) → d < 10 → parse_digits m ((b'0' + d) ∷ s) ≡ parse_digits (m * 10 + d) s
unfolding parse_digits
parse_digit m d s lt = ground arith

parse_digits-decimal_digits :
    (f n : ℕ) (s : Bytes) → n < f → parse_digits 0 (decimal_digits f n s) ≡ parse_digits n s
unfolding decimal_digits
parse_digits-decimal_digits zero n s lt = absurd (omega arith)
parse_digits-decimal_digits (suc f) n s lt = elim (Bool-cases (ltb n 10)) [
  | inl e ↦
      rw e (parse_digit 0 (n % 10) s (omega arith) ∙ ap (λ x. parse_digits x s) (ground arith))
  | inr e ↦ rw e (
      parse_digits-decimal_digits f (n / 10) ((b'0' + n % 10) ∷ s) (ground arith)
      ∙ parse_digit (n / 10) (n % 10) s (omega arith)
      ∙ ap (λ x. parse_digits x s) (omega arith))
]

-- A text that begins with a digit.
abbrev StartsWithDigit : Bytes → Type 0
StartsWithDigit s = (c : ℕ) × (t : Bytes) × (s ≡ c ∷ t) × (47 < c) × (c < 58)

decimal_digits-StartsWithDigit :
    (f n : ℕ) (s : Bytes) → n < f → StartsWithDigit (decimal_digits f n s)
unfolding decimal_digits
decimal_digits-StartsWithDigit zero n s lt = absurd (omega arith)
decimal_digits-StartsWithDigit (suc f) n s lt = elim (Bool-cases (ltb n 10)) [
  | inl e ↦ rw e (b'0' + n % 10, s, refl, omega arith, omega arith)
  | inr e ↦ rw e (decimal_digits-StartsWithDigit f (n / 10) ((b'0' + n % 10) ∷ s) (ground arith))
]

parse_digits-decimal : (n : ℕ) → parse_digits 0 (decimal n) ≡ some n
unfolding decimal parse_digits
parse_digits-decimal n = parse_digits-decimal_digits (suc n) n [] (omega arith)

decimal-StartsWithDigit : (n : ℕ) → StartsWithDigit (decimal n)
unfolding decimal
decimal-StartsWithDigit n = decimal_digits-StartsWithDigit (suc n) n [] (omega arith)

digits-uint : (s : Bytes) → StartsWithDigit s → parse_uint s ≡ parse_digits 0 s
unfolding parse_uint
digits-uint [] (c, t, e, l, u) = absurd (cc e)
digits-uint (d ∷ s) h = refl

parse_uint-decimal : (n : ℕ) → parse_uint (decimal n) ≡ some n
parse_uint-decimal n = digits-uint (decimal n) (decimal-StartsWithDigit n) ∙ parse_digits-decimal n

parse_int64-digits : (s : Bytes) → StartsWithDigit s → parse_int64 s ≡ parse_unsigned (parse_uint s)
unfolding parse_int64
parse_int64-digits [] (c, t, e, l, u) = absurd (cc e)
parse_int64-digits (d ∷ s) (c, t, e, l, u) =
    let q = head-eq_of_cons-eq e in
    let m : eqb d b'-' ≡ false = ground arith in
    let p : eqb d b'+' ≡ false = ground arith in rw (m, p) refl

parse_int64-minus : (s : Bytes) → parse_int64 (b'-' ∷ s) ≡ parse_negative (parse_uint s)
unfolding parse_int64
parse_int64-minus s = refl

-- What `fmt.Sprint` prints of an int64, `strconv.ParseInt` reads back.
pub parse_int64-decimal_ℤ : (z : ℤ) → IsInt64 z → parse_int64 (decimal_ℤ z) ≡ ok z
unfolding decimal_ℤ parse_unsigned parse_negative
parse_int64-decimal_ℤ (pos n) h =
    parse_int64-digits (decimal n) (decimal-StartsWithDigit n)
    ∙ rw (parse_uint-decimal n) (ground arith)
parse_int64-decimal_ℤ (negsuc n) h =
    parse_int64-minus (decimal (suc n)) ∙ rw (parse_uint-decimal (suc n)) (ground arith)

-- The job that reads a config map finds the id that was put into it.
tree_id-insert :
    (entries : Dict Bytes) (z : ℤ) (binary : Option (Dict Bytes))
    → IsInt64 z
    → tree_id
        (record { data_of = some (insert tree_key (decimal_ℤ z) entries); binary_data = binary })
      ≡ ok z
unfolding tree_id bytes_dec
tree_id-insert entries z binary h =
    rw (lookup-insert tree_key tree_key (decimal_ℤ z) entries, tree_id)
      (rw (parse_int64-decimal_ℤ z h) refl)

module _ (W : TreeWorld) (flags : TreeFlags) where
  -- If createtree succeeds with a config map that it has to fill, it has made a tree and updated the
  -- config map, to entries in which the log's configuration job finds the id of this tree.
  pub store_new_tree-tree_id :
      (entries : Dict Bytes) (σ : W.State)
      → (store_new_tree W flags entries σ).0 ≡ ok tt
      → (tree : Tree) × ((create_tree W flags σ).0 ≡ ok tree)
        × (updated : Dict Bytes) × ((store_new_tree W flags entries σ).1
            ≡ (W.update_config_map flags.namespace flags.config_map updated
                (create_tree W flags σ).1).1)
        × ((binary : Option (Dict Bytes))
            → IsInt64 tree.tree_id
            → tree_id (record { data_of = some updated; binary_data = binary }) ≡ ok tree.tree_id)
  unfolding store_new_tree
  store_new_tree-tree_id entries σ h =
      let (tree, e, g, s) =
        continue-ok (or_fatal (create_tree W flags σ).0) _ (create_tree W flags σ).1 tt h in
      (
        tree,
        or_fatal-eq-ok (create_tree W flags σ).0 e,
        insert tree_key (decimal_ℤ tree.tree_id) entries,
        s,
        λ binary i. tree_id-insert entries tree.tree_id binary i,
      )
