-- ===== src/Repo/Chain/Parse.antt =====
-- The loop that reads a PEM chain ends, and reads back what `concatCertChain` wrote.
use scaffolding.Base.{
  ℕ, zero, suc, ◌≤◌, ◌<◌, ◌≡◌, ◌≢◌, refl, sym, ◌∙◌, ◌++◌, Bytes, List, [], ◌∷◌, Option, none, some,
  Result, ok, err, panic, exit, length, arith, String,
}
use scaffolding.Base.Trim.{trim_space, length-trim_space}
use scaffolding.Repo.External.{External}
use scaffolding.Repo.Chain.{parse_blocks, parse_cert_chain}

-- What the loop relies on: a decoded block is taken off the input, and `x509.ParseCertificate`
-- returns.
pub record IsSound (E : External) : Type 0 where
  pub shrinks : (s der rest : Bytes) → E.pem_decode s ≡ (some der, rest) → length rest < length s
  pub returns : (der : Bytes) (t : String) → E.parse_certificate der ≢ panic t

-- `pem` writes certificates as PEM blocks with no white space around, which `pem.Decode` and
-- `x509.ParseCertificate` read back.
pub record IsPem (E : External) (pem : E.Cert → Bytes) : Type 0 where
  pub body : E.Cert → Bytes
  pub der : E.Cert → Bytes
  pub dashes : (c : E.Cert) → pem c ≡ b'-' ∷ (body c ++ (b'-' ∷ []))
  pub parses : (c : E.Cert) → E.parse_certificate (der c) ≡ ok c
  pub decode_last : (c : E.Cert) → E.pem_decode (pem c) ≡ (some (der c), [])
  pub decode_next :
      (c : E.Cert) (rest : Bytes) → E.pem_decode (pem c ++ (0x0a ∷ rest)) ≡ (some (der c), rest)

module _ (E : External) where
  -- One round of the loop.
  pub parse_step :
      (f b : ℕ) (bs der rest : Bytes) (chain : List E.Cert) (cert : E.Cert)
      → E.pem_decode (b ∷ bs) ≡ (some der, rest)
      → E.parse_certificate der ≡ ok cert
      → parse_blocks E (suc f) (b ∷ bs) chain
        ≡ parse_blocks E f (trim_space rest) (chain ++ (cert ∷ []))
  unfolding parse_blocks
  parse_step f b bs der rest chain cert e e' = ground arith

  parse_blocks-returns :
      (f : ℕ) (s : Bytes) (chain : List E.Cert) (t : String)
      → IsSound E
      → length s ≤ f
      → parse_blocks E f s chain ≢ panic t
  unfolding parse_blocks
  parse_blocks-returns f [] chain t S le h = cc
  parse_blocks-returns zero (b ∷ bs) chain t S le h = absurd (omega arith)
  parse_blocks-returns (suc f) (b ∷ bs) chain t S le h =
      block (E.pem_decode (b ∷ bs)).0 (E.pem_decode (b ∷ bs)).1 refl
        (λ s c. parse_blocks-returns f s c t S)
    where
      Ih : Type 0
      Ih = (s : Bytes) (c : List E.Cert) → length s ≤ f → parse_blocks E f s c ≢ panic t

      certificate :
          (der rest : Bytes) (r : Result E.Cert)
          → E.pem_decode (b ∷ bs) ≡ (some der, rest)
          → E.parse_certificate der ≡ r
          → Ih
          → ⊥
      certificate der rest (ok cert) e e' ih =
          ih (trim_space rest) (chain ++ (cert ∷ []))
            (omega (arith, length-trim_space rest, S.shrinks (b ∷ bs) der rest e))
            (sym (parse_step f b bs der rest chain cert e e') ∙ h)
      certificate der rest (err x) e e' ih = ground arith
      certificate der rest (panic x) e e' ih = S.returns der x e'
      certificate der rest (exit x) e e' ih = ground arith

      block : (o : Option Bytes) (rest : Bytes) → E.pem_decode (b ∷ bs) ≡ (o, rest) → Ih → ⊥
      block none rest e ih = ground arith
      block (some der) rest e ih = certificate der rest (E.parse_certificate der) e refl ih

  -- The chain parser always comes to an end: with the length of the trimmed text as fuel it does not
  -- run out, and it does not panic.
  pub parse_cert_chain-ne-panic :
      (pem : Bytes) (t : String) → IsSound E → parse_cert_chain E pem ≢ panic t
  unfolding parse_cert_chain
  parse_cert_chain-ne-panic pem t S =
      parse_blocks-returns (length (trim_space pem)) (trim_space pem) [] t S (omega arith)
