-- ===== src/Certs/Names.antt =====
-- The file names of one chain all differ.
use mathlib.Core.List.{
  append_cancel_left, append_cancel_right, tail-eq_of_cons-eq, head-eq_of_cons-eq,
}
use scaffolding.Base.{ℕ, ◌≡◌, ◌≢◌, Bytes, arith, codes, decimal}
use scaffolding.Base.Decimal.{decimal_inj}
use scaffolding.Certs.{leaf_name, root_name, intermediate_name}

pub leaf_name-ne-root_name : (prefix : Bytes) → leaf_name prefix ≢ root_name prefix
unfolding leaf_name root_name
leaf_name-ne-root_name prefix e =
    let p = append_cancel_left prefix (codes "_leaf.crt.pem") (codes "_root.crt.pem") e in
    let q = head-eq_of_cons-eq (tail-eq_of_cons-eq p) in absurd (omega (arith, q))

pub leaf_name-ne-intermediate_name :
    (prefix : Bytes) (i : ℕ) → leaf_name prefix ≢ intermediate_name prefix i
unfolding leaf_name intermediate_name
leaf_name-ne-intermediate_name prefix i e =
    let p = append_cancel_left prefix (codes "_leaf.crt.pem") _ e in
    let q = head-eq_of_cons-eq (tail-eq_of_cons-eq p) in absurd (omega (arith, q))

pub root_name-ne-intermediate_name :
    (prefix : Bytes) (i : ℕ) → root_name prefix ≢ intermediate_name prefix i
unfolding root_name intermediate_name
root_name-ne-intermediate_name prefix i e =
    let p = append_cancel_left prefix (codes "_root.crt.pem") _ e in
    let q = head-eq_of_cons-eq (tail-eq_of_cons-eq p) in absurd (omega (arith, q))

pub intermediate_name_inj :
    (prefix : Bytes) (i j : ℕ) → intermediate_name prefix i ≡ intermediate_name prefix j → i ≡ j
unfolding intermediate_name
intermediate_name_inj prefix i j e =
    let p = append_cancel_left prefix _ _ e in
    let q = append_cancel_left (codes "_intermediate_") _ _ p in
    decimal_inj i j (append_cancel_right (decimal i) (decimal j) (codes ".crt.pem") q)
