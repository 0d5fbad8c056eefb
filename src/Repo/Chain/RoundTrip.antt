-- ===== src/Repo/Chain/RoundTrip.antt =====
-- Chains written by `concatCertChain` are read back in their order.
use mathlib.Core.List.{append_assoc}
use scaffolding.Base.{
  ℕ, zero, suc, ◌<◌, ◌≡◌, sym, ap, ◌∙◌, ◌++◌, Bytes, List, [], ◌∷◌, map, some, ok, length,
  length-append, arith,
}
use scaffolding.Base.Trim.{trim_space, trim_space-dashes}
use scaffolding.Repo.External.{External}
use scaffolding.Repo.Chain.{concat_intermediates, concat_cert_chain, parse_blocks, parse_cert_chain}
use scaffolding.Repo.Chain.Parse.{IsPem, parse_step}

module _ (E : External) (pem : E.Cert → Bytes) (P : IsPem E pem) where
  open E use {Cert}

  -- The intermediates and the root as `concatCertChain` writes them.
  abbrev text : List Cert → Cert → Bytes
  text cs d = concat_intermediates (map pem cs) (pem d)

  text-dashes : (cs : List Cert) (d : Cert) → (s : Bytes) × (text cs d ≡ b'-' ∷ (s ++ (b'-' ∷ [])))
  unfolding concat_intermediates
  text-dashes [] d = (P.body d, P.dashes d)
  text-dashes (c ∷ cs) d =
      let (s, e) = text-dashes cs d in
      (
        (P.body c ++ (b'-' ∷ [])) ++ (0x0a ∷ b'-' ∷ s),
        rw (P.dashes c, e)
            (ap (λ t. b'-' ∷ t)
              (sym (append_assoc (P.body c ++ (b'-' ∷ [])) (0x0a ∷ b'-' ∷ s) (b'-' ∷ [])))),
      )

  trim_space-text : (cs : List Cert) (d : Cert) → trim_space (text cs d) ≡ text cs d
  trim_space-text cs d =
      let (s, e) = text-dashes cs d in ap trim_space e ∙ trim_space-dashes s ∙ sym e

  length-text : (cs : List Cert) (d : Cert) → length cs < length (text cs d)
  unfolding concat_intermediates
  length-text [] d = omega (arith, ap length (P.dashes d))
  length-text (c ∷ cs) d =
      omega (arith, length-text cs d, length-append {0} (pem c) (0x0a ∷ text cs d))

  step :
      (f : ℕ) (s t der rest : Bytes) (chain : List Cert) (cert : Cert)
      → s ≡ b'-' ∷ t
      → E.pem_decode s ≡ (some der, rest)
      → E.parse_certificate der ≡ ok cert
      → parse_blocks E (suc f) s chain ≡ parse_blocks E f (trim_space rest) (chain ++ (cert ∷ []))
  step f s t der rest chain cert e d p =
      ap (λ x. parse_blocks E (suc f) x chain) e
      ∙ parse_step E f b'-' t der rest chain cert (rw e at d) p

  parse_blocks-text :
      (cs : List Cert) (d : Cert) (f : ℕ) (chain : List Cert)
      → length cs < f
      → parse_blocks E f (text cs d) chain ≡ ok (chain ++ (cs ++ (d ∷ [])))
  unfolding concat_intermediates parse_blocks trim_space
  parse_blocks-text cs d zero chain h = absurd (omega arith)
  parse_blocks-text [] d (suc f) chain h =
      step f (pem d) _ (P.der d) [] chain d (P.dashes d) (P.decode_last d) (P.parses d)
  parse_blocks-text (c ∷ cs) d (suc f) chain h =
      step f (text (c ∷ cs) d) _ (P.der c) (text cs d) chain c (text-dashes (c ∷ cs) d).1
        (P.decode_next c (text cs d)) (P.parses c)
      ∙ ap (λ s. parse_blocks E f s (chain ++ (c ∷ []))) (trim_space-text cs d)
      ∙ parse_blocks-text cs d f (chain ++ (c ∷ [])) (omega arith)
      ∙ ap ok (append_assoc chain (c ∷ []) (cs ++ (d ∷ [])))

  parse_cert_chain-text :
      (cs : List Cert) (d : Cert) → parse_cert_chain E (text cs d) ≡ ok (cs ++ (d ∷ []))
  unfolding parse_cert_chain
  parse_cert_chain-text cs d =
      ap (λ s. parse_blocks E (length s) s []) (trim_space-text cs d)
      ∙ parse_blocks-text cs d (length (text cs d)) [] (length-text cs d)

  concat_cert_chain-text :
      (leaf : Cert) (cs : List Cert) (root : Cert)
      → concat_cert_chain (pem leaf) (map pem cs) (pem root) ≡ text (leaf ∷ cs) root
  unfolding concat_cert_chain
  concat_cert_chain-text leaf cs root = ground (arith, ap length (P.dashes leaf))

  -- A leaf, intermediates and a root, each as a PEM text, are read back in this order.
  pub parse_cert_chain-concat_cert_chain :
      (leaf : Cert) (inters : List Cert) (root : Cert)
      → parse_cert_chain E (concat_cert_chain (pem leaf) (map pem inters) (pem root))
        ≡ ok (leaf ∷ (inters ++ (root ∷ [])))
  parse_cert_chain-concat_cert_chain leaf inters root =
      ap (parse_cert_chain E) (concat_cert_chain-text leaf inters root)
      ∙ parse_cert_chain-text (leaf ∷ inters) root

  -- So is a chain with no leaf.
  pub parse_cert_chain-concat_cert_chain_nil :
      (inters : List Cert) (root : Cert)
      → parse_cert_chain E (concat_cert_chain [] (map pem inters) (pem root))
        ≡ ok (inters ++ (root ∷ []))
  unfolding concat_cert_chain
  parse_cert_chain-concat_cert_chain_nil inters root = parse_cert_chain-text inters root
