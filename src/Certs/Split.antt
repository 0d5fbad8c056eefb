-- ===== src/Certs/Split.antt =====
-- `SplitCertChain` loses nothing: every certificate gets its own file, in the order of the chain.
use scaffolding.Base.{
  ℕ, suc, ◌≤◌, ◌<◌, ◌≡◌, ◌≢◌, refl, ◌∙◌, ap, Bytes, none, List, [], ◌∷◌, ◌++◌, arith, ok, err,
  errorf, length, init, last, init-append, last-append,
}
use mathlib.Core.List.{append-nil, append_assoc}
use scaffolding.Base.Dict.{Dict, lookup, insert, insert_fresh, lookup-append_none}
use scaffolding.Certs.{
  CertCodec, leaf_name, root_name, intermediate_name, add_intermediates, split_certs,
  split_cert_chain,
}
use scaffolding.Certs.Names.{
  leaf_name-ne-root_name, leaf_name-ne-intermediate_name, root_name-ne-intermediate_name,
  intermediate_name_inj,
}

lookup-single_ne : (k j : Bytes) (v : Bytes) → j ≢ k → lookup k ((j, v) ∷ []) ≡ none
unfolding lookup
lookup-single_ne k j v h = ground arith

module _ (C : CertCodec) (pem : C.Cert → Bytes) (marshals : (c : C.Cert) → C.marshal c ≡ ok (pem c))
    (prefix : Bytes) where
  -- The intermediate files, numbered from `i`.
  abbrev pub numbered : ℕ → List C.Cert → Dict Bytes
  numbered i [] = []
  numbered i (c ∷ cs) = (intermediate_name prefix i, pem c) ∷ numbered (suc i) cs

  abbrev FreshFrom : ℕ → Dict Bytes → Type 0
  FreshFrom i d = (j : ℕ) → i ≤ j → lookup (intermediate_name prefix j) d ≡ none

  FreshFrom-insert :
      (i : ℕ) (v : Bytes) (d : Dict Bytes)
      → FreshFrom i d
      → FreshFrom (suc i) (d ++ ((intermediate_name prefix i, v) ∷ []))
  FreshFrom-insert i v d h j le =
      lookup-append_none (intermediate_name prefix j) d _ (h j (omega arith))
      ∙ lookup-single_ne (intermediate_name prefix j) (intermediate_name prefix i) v
          (λ e. absurd (omega (arith, intermediate_name_inj prefix i j e)))

  add_intermediates-numbered :
      (cs : List C.Cert) (i : ℕ) (ret : Dict Bytes)
      → FreshFrom i ret
      → add_intermediates C prefix i cs ret ≡ ok (ret ++ numbered i cs)
  unfolding add_intermediates
  add_intermediates-numbered [] i ret h = rw append-nil refl
  add_intermediates-numbered (c ∷ cs) i ret h = rw (marshals c) (
      ap (add_intermediates C prefix (suc i) cs)
        (insert_fresh (intermediate_name prefix i) (pem c) ret (h i (omega arith)))
      ∙ add_intermediates-numbered cs (suc i) _ (FreshFrom-insert i (pem c) ret h)
      ∙ ap ok (append_assoc ret _ (numbered (suc i) cs)))

  abbrev files_of : C.Cert → C.Cert → List C.Cert → Dict Bytes
  files_of leaf d certs =
      (leaf_name prefix, pem leaf)
      ∷ (root_name prefix, pem (last d certs))
      ∷ numbered 0 (init (d ∷ certs))

  FreshFrom-ends : (v w : Bytes) → FreshFrom 0 ((leaf_name prefix, v) ∷ (root_name prefix, w) ∷ [])
  unfolding lookup
  FreshFrom-ends v w j le =
      ground
        (arith, leaf_name-ne-intermediate_name prefix j, root_name-ne-intermediate_name prefix j)

  insert-ends :
      (v w : Bytes)
      → insert (root_name prefix) w (insert (leaf_name prefix) v [])
        ≡ (leaf_name prefix, v) ∷ (root_name prefix, w) ∷ []
  unfolding insert
  insert-ends v w = ground (arith, leaf_name-ne-root_name prefix)

  split_certs-files_of :
      (leaf d : C.Cert) (certs : List C.Cert)
      → split_certs C prefix (leaf ∷ d ∷ certs) ≡ ok (files_of leaf d certs)
  unfolding split_certs
  split_certs-files_of leaf d certs = rw (marshals leaf) (
      rw (marshals (last d certs)) (
        ap (add_intermediates C prefix 0 (init (d ∷ certs)))
          (insert-ends (pem leaf) (pem (last d certs)))
        ∙ add_intermediates-numbered (init (d ∷ certs)) 0 _
            (FreshFrom-ends (pem leaf) (pem (last d certs)))))

  split_certs_files :
      (leaf root : C.Cert) (inters : List C.Cert)
      → split_certs C prefix (leaf ∷ (inters ++ (root ∷ [])))
        ≡ ok ((leaf_name prefix, pem leaf) ∷ (root_name prefix, pem root) ∷ numbered 0 inters)
  split_certs_files leaf root [] = split_certs-files_of leaf root []
  split_certs_files leaf root (d ∷ cs) =
      split_certs-files_of leaf d (cs ++ (root ∷ []))
      ∙ rw (last-append d cs root, init-append (d ∷ cs) root) refl

  -- A chain of a leaf, any intermediates and a root gives one file for each certificate, under the
  -- names of the leaf, of the root and of the intermediates counted from 0, in their order.
  pub split_cert_chain_files :
      (chain : Bytes) (leaf root : C.Cert) (inters : List C.Cert)
      → C.unmarshal chain ≡ ok (leaf ∷ (inters ++ (root ∷ [])))
      → split_cert_chain C chain prefix
        ≡ ok ((leaf_name prefix, pem leaf) ∷ (root_name prefix, pem root) ∷ numbered 0 inters)
  unfolding split_cert_chain
  split_cert_chain_files chain leaf root inters h = rw h (split_certs_files leaf root inters)

-- Fewer than two certificates are refused.
pub split_cert_chain_short :
    (C : CertCodec) (chain prefix : Bytes) (certs : List C.Cert)
    → C.unmarshal chain ≡ ok certs
    → length certs < 2
    → split_cert_chain C chain prefix
      ≡ err (errorf "cert chain must contain at least root and leaf, but got only %d certs")
unfolding split_cert_chain
split_cert_chain_short C chain prefix [] h lt = rw h refl
split_cert_chain_short C chain prefix (c ∷ []) h lt = rw h refl
split_cert_chain_short C chain prefix (c ∷ d ∷ cs) h lt = absurd (omega arith)
