-- ===== src/Repo/Chain.antt =====
-- Certificate chains: `concatCertChain`, `certChainToTimestampingAuthority` and
-- `certChainToCertificateAuthority`.
pub mod Parse
pub mod RoundTrip
pub mod Authorities
use scaffolding.Base.{
  ℕ, zero, suc, ◌+◌, ◌-◌, ◌&&◌, not, ◌++◌, Bytes, List, [], ◌∷◌, Option, none, some, Result, ok,
  err, panic, exit, errorf, wrap, ◌>>=◌, eqb, ltb, length, if◌then◌else◌,
}
use scaffolding.Base.Trim.{trim_space}
use scaffolding.Repo.External.{External}

-- `concatCertChain`
unfoldable pub concat_intermediates : List Bytes → Bytes → Bytes
concat_intermediates [] root = root
concat_intermediates (intermed ∷ rest) root = intermed ++ (0x0a ∷ concat_intermediates rest root)

unfoldable pub concat_cert_chain : Bytes → List Bytes → Bytes → Bytes
unfolding concat_intermediates
concat_cert_chain leaf intermediate root =
    if ltb 0 (length leaf)
    then leaf ++ (0x0a ∷ concat_intermediates intermediate root)
    else concat_intermediates intermediate root

pub record TimestampingAuthority (Cert Time : Type 0) : Type 0 where
  pub leaf : Option Cert
  pub intermediates : List Cert
  pub root : Option Cert
  pub validity_period_start : Time
  pub validity_period_end : Time

pub record CertificateAuthority (Cert Time : Type 0) : Type 0 where
  pub intermediates : List Cert
  pub root : Option Cert
  pub validity_period_start : Time
  pub validity_period_end : Time

-- The fields that the loops over the chain fill; a nil certificate is `none`.
pub record Parts (Cert : Type 0) : Type 0 where
  pub leaf : Option Cert
  pub intermediates : List Cert
  pub root : Option Cert

abbrev pub no_parts : {Cert : Type 0} → Parts Cert
no_parts = record { leaf = none; intermediates = []; root = none }

module _ (E : External) where
  open E use {Cert, Time, pem_decode, parse_certificate, is_ca, not_before, not_after}

  -- The loop `for len(rest) > 0`, which both functions have. A round of fuel is used by each block.
  unfoldable pub parse_blocks : ℕ → Bytes → List Cert → Result (List Cert)
  parse_blocks f [] chain = ok chain
  parse_blocks zero (b ∷ bs) chain = panic "out of fuel"
  parse_blocks (suc f) (b ∷ bs) chain = elim (pem_decode (b ∷ bs)).0 [
    | none ↦ err (errorf "input is left, but it is not a certificate: %+v")
    | some der ↦ elim (wrap "failed to parse certificate: %w" (parse_certificate der)) [
      | ok cert ↦ parse_blocks f (trim_space (pem_decode (b ∷ bs)).1) (chain ++ (cert ∷ []))
      | err e ↦ err e
      | panic t ↦ panic t
      | exit n ↦ exit n
    ]
  ]

  unfoldable pub parse_cert_chain : Bytes → Result (List Cert)
  unfolding parse_blocks trim_space
  parse_cert_chain pem = let rest = trim_space pem in parse_blocks (length rest) rest []

  -- The loop over `certChain` of the time stamping authority, at the index `i` of `n`.
  unfoldable pub fill_tsa : ℕ → ℕ → List Cert → Parts Cert → Parts Cert
  fill_tsa n i [] ca = ca
  fill_tsa n i (cert ∷ rest) ca = fill_tsa n (i + 1) rest (
      if eqb i 0 && not (is_ca cert)
      then record ca { leaf = some cert }
      else if ltb i (n - 1)
      then record ca { intermediates = ca.intermediates ++ (cert ∷ []) }
      else if eqb i (n - 1)
      then record ca { root = some cert }
      else ca)

  -- The same loop of the certificate authority.
  unfoldable pub fill_ca : ℕ → ℕ → List Cert → Parts Cert → Parts Cert
  fill_ca n i [] ca = ca
  fill_ca n i (cert ∷ rest) ca = fill_ca n (i + 1) rest (
      if ltb i (n - 1)
      then record ca { intermediates = ca.intermediates ++ (cert ∷ []) }
      else if eqb i (n - 1)
      then record ca { root = some cert }
      else ca)

  unfoldable pub timestamping_authority : List Cert → Result (TimestampingAuthority Cert Time)
  unfolding fill_tsa
  timestamping_authority [] = err (errorf "no certificates found in input")
  timestamping_authority (c ∷ cs) =
      let ca = fill_tsa (length (c ∷ cs)) 0 (c ∷ cs) no_parts in
      ok (record {
        leaf = ca.leaf;
        intermediates = ca.intermediates;
        root = ca.root;
        validity_period_start = not_before c;
        validity_period_end = not_after c;
      })

  unfoldable pub certificate_authority : List Cert → Result (CertificateAuthority Cert Time)
  unfolding fill_ca
  certificate_authority [] = err (errorf "no certificates found in input")
  certificate_authority (c ∷ cs) =
      let ca = fill_ca (length (c ∷ cs)) 0 (c ∷ cs) no_parts in
      ok (record {
        intermediates = ca.intermediates;
        root = ca.root;
        validity_period_start = not_before c;
        validity_period_end = not_after c;
      })

  unfoldable pub cert_chain_to_timestamping_authority :
      Bytes → Result (TimestampingAuthority Cert Time)
  unfolding parse_cert_chain timestamping_authority
  cert_chain_to_timestamping_authority pem = do
    chain ← parse_cert_chain pem
    timestamping_authority chain

  unfoldable pub cert_chain_to_certificate_authority :
      Bytes → Result (CertificateAuthority Cert Time)
  unfolding parse_cert_chain certificate_authority
  cert_chain_to_certificate_authority pem = do
    chain ← parse_cert_chain pem
    certificate_authority chain
