-- ===== src/Certs.antt =====
-- tools/tuf/pkg/certs/certs.go: a PEM chain split into files named for the certificates' parts.
pub mod Names
pub mod Split
use scaffolding.Base.{
  ℕ, suc, ◌++◌, Bytes, List, [], ◌∷◌, Result, ok, err, errorf, wrap, ◌>>=◌, codes, decimal, last,
  init,
}
use scaffolding.Base.Dict.{Dict, insert}

-- `cryptoutils.UnmarshalCertificatesFromPEM` and `cryptoutils.MarshalCertificateToPEM`, which are
-- not code of this repository.
pub record CertCodec : Type 1 where
  pub Cert : Type 0
  pub unmarshal : Bytes → Result (List Cert)
  pub marshal : Cert → Result Bytes

-- `fmt.Sprintf("%s_leaf.crt.pem", prefix)` and the other two names
unfoldable pub leaf_name : Bytes → Bytes
leaf_name prefix = prefix ++ codes "_leaf.crt.pem"

unfoldable pub root_name : Bytes → Bytes
root_name prefix = prefix ++ codes "_root.crt.pem"

unfoldable pub intermediate_name : Bytes → ℕ → Bytes
intermediate_name prefix i = prefix ++ (codes "_intermediate_" ++ (decimal i ++ codes ".crt.pem"))

module _ (C : CertCodec) where
  open C use {Cert, unmarshal, marshal}

  -- The loop over `certs[1 : len(certs)-1]`, from the index `i`.
  unfoldable pub add_intermediates : Bytes → ℕ → List Cert → Dict Bytes → Result (Dict Bytes)
  add_intermediates prefix i [] ret = ok ret
  add_intermediates prefix i (c ∷ cs) ret =
      wrap "marshaling intermediate cert %d: %w" (marshal c) >>= λ pem.
      add_intermediates prefix (suc i) cs (insert (intermediate_name prefix i) pem ret)

  -- `certs[0]`, `certs[len(certs)-1]` and `certs[1 : len(certs)-1]` are read by the patterns.
  unfoldable pub split_certs : Bytes → List Cert → Result (Dict Bytes)
  unfolding add_intermediates
  split_certs prefix (c ∷ d ∷ certs) = do
    leaf ← wrap "marshaling leaf cert: %w" (marshal c)
    root ← wrap "marshaling root cert: %w" (marshal (last d certs))
    add_intermediates prefix 0 (init (d ∷ certs))
        (insert (root_name prefix) root (insert (leaf_name prefix) leaf []))
  split_certs prefix _ =
      err (errorf "cert chain must contain at least root and leaf, but got only %d certs")

  -- `SplitCertChain`
  unfoldable pub split_cert_chain : Bytes → Bytes → Result (Dict Bytes)
  unfolding split_certs
  split_cert_chain chain prefix = do
    certs ← wrap "unmarshaling certificates: %w" (unmarshal chain)
    split_certs prefix certs
