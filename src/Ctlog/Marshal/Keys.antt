-- ===== src/Ctlog/Marshal/Keys.antt =====
-- The entries that `marshalSecrets` writes for the certificates.
use mathlib.Core.List.{append_cancel_left}
use scaffolding.Base.{
  ℕ, suc, ◌<◌, ◌≡◌, ◌≢◌, ◌⊎◌, inl, inr, refl, ap, Bytes, true, false, some, List, [], ◌∷◌, codes,
  decimal, has_prefix, arith, In,
}
use scaffolding.Base.Decimal.{decimal_inj}
use scaffolding.Base.Substring.{has_prefix-append}
use scaffolding.Base.Dict.{Dict, lookup, insert, lookup-insert}
use scaffolding.Ctlog.Marshal.{fulcio_key, add_certs}

abbrev pub IsFulcioKey : Bytes → Type 0
IsFulcioKey k = has_prefix k (codes "fulcio-") ≡ true

pub fulcio_key-IsFulcioKey : (i : ℕ) → IsFulcioKey (fulcio_key i)
unfolding fulcio_key
fulcio_key-IsFulcioKey i = has_prefix-append (codes "fulcio-") (decimal i)

pub fulcio_key_inj : (i j : ℕ) → fulcio_key i ≡ fulcio_key j → i ≡ j
unfolding fulcio_key
fulcio_key_inj i j e =
    decimal_inj i j (append_cancel_left (codes "fulcio-") (decimal i) (decimal j) e)

-- A key that is no fulcio key keeps its value.
pub lookup-add_certs_other :
    (k : Bytes) (i : ℕ) (certs : List Bytes) (d : Dict Bytes)
    → has_prefix k (codes "fulcio-") ≡ false
    → lookup k (add_certs i certs d) ≡ lookup k d
unfolding add_certs
lookup-add_certs_other k i [] d h = refl
lookup-add_certs_other k i (cert ∷ rest) d h =
    let n : fulcio_key i ≢ k =
      λ e. cc (h, fulcio_key-IsFulcioKey i, ap (λ s. has_prefix s (codes "fulcio-")) e) in
    ground (
      arith,
      lookup-add_certs_other k (suc i) rest (insert (fulcio_key i) cert d) h,
      lookup-insert (fulcio_key i) k cert d,
      n,
    )

-- The value at a key of an earlier index is not touched.
lookup-add_certs_earlier :
    (j i : ℕ) (certs : List Bytes) (d : Dict Bytes)
    → j < i
    → lookup (fulcio_key j) (add_certs i certs d) ≡ lookup (fulcio_key j) d
unfolding add_certs
lookup-add_certs_earlier j i [] d h = refl
lookup-add_certs_earlier j i (cert ∷ rest) d h = ground (
  arith,
  lookup-add_certs_earlier j (suc i) rest (insert (fulcio_key i) cert d),
  lookup-insert (fulcio_key i) (fulcio_key j) cert d,
  fulcio_key_inj i j,
)

-- Every value that is read is an old one or a certificate, and every certificate is read under some
-- fulcio key.
pub In-add_certs :
    (k x : Bytes) (i : ℕ) (certs : List Bytes) (d : Dict Bytes)
    → lookup k (add_certs i certs d) ≡ some x
    → (lookup k d ≡ some x) ⊎ In x certs
unfolding add_certs
In-add_certs k x i [] d h = inl h
In-add_certs k x i (cert ∷ rest) d h = ground (
  arith,
  In-add_certs k x (suc i) rest (insert (fulcio_key i) cert d),
  lookup-insert (fulcio_key i) k cert d,
)

pub add_certs-In :
    (x : Bytes) (i : ℕ) (certs : List Bytes) (d : Dict Bytes)
    → In x certs
    → (j : ℕ) × (lookup (fulcio_key j) (add_certs i certs d) ≡ some x)
unfolding add_certs
add_certs-In x i [] d m = absurd m
add_certs-In x i (cert ∷ rest) d (inl e) = (
  i,
  ground (
    arith,
    lookup-add_certs_earlier i (suc i) rest (insert (fulcio_key i) cert d),
    lookup-insert (fulcio_key i) (fulcio_key i) cert d,
  ),
)
add_certs-In x i (cert ∷ rest) d (inr m) =
    add_certs-In x (suc i) rest (insert (fulcio_key i) cert d) m
