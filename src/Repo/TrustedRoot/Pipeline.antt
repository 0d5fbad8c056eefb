-- ===== src/Repo/TrustedRoot/Pipeline.antt =====
-- The whole way of a chain file through the TUF tools.
use scaffolding.Base.{
  ℕ, suc, ◌≤◌, ◌≡◌, refl, sym, ap, subst, ok-injective, ◌∙◌, Bytes, false, List, [], ◌∷◌, ◌++◌, map,
  Result, ok, some, none, init-append, last-append, length, ◌>>=◌,
}
use scaffolding.Base.Trim.{trim_space}
use scaffolding.Base.Dict.{Dict}
use scaffolding.Certs.{CertCodec, leaf_name, root_name, split_cert_chain}
use scaffolding.Certs.Split.{numbered, split_cert_chain_files}
use scaffolding.Repo.{TargetWithMetadata}
use scaffolding.Repo.External.{External}
use scaffolding.Repo.Chain.{
  TimestampingAuthority, concat_cert_chain, parse_cert_chain, cert_chain_to_timestamping_authority,
  timestamping_authority,
}
use scaffolding.Repo.Chain.Parse.{IsPem}
use scaffolding.Repo.Chain.RoundTrip.{parse_cert_chain-concat_cert_chain}
use scaffolding.Repo.Chain.Authorities.{rest_parts, timestamping_authority-tsa_parts}
use scaffolding.Repo.Sort.{sort_targets}
use scaffolding.Repo.Sort.Laws.{Reorder, sort_targets-Reorder}
use scaffolding.Repo.Sort.Filter.{select}
use scaffolding.Repo.TrustedRoot.{Collected, nothing, collect}
use scaffolding.Repo.TrustedRoot.Gather.{tsa_files, is_tsa, gather_tsa, collect-sort_targets}
use scaffolding.Repo.TrustedRoot.SplitNames.{tsa}
use scaffolding.Repo.TrustedRoot.TsaChain.{inter_targets, chain_targets, gather_tsa-chain_targets}

-- What the server makes of the files of a split chain: it trims them, and they become targets.
abbrev pub targets_of : (Bytes → Bytes) → Dict Bytes → List TargetWithMetadata
targets_of meta [] = []
targets_of meta ((name, bytes) ∷ files) =
    record { name = name; bytes = trim_space bytes; custom_metadata = meta name }
    ∷ targets_of meta files

module _ (E : External) (pem : E.Cert → Bytes) (P : IsPem E pem)
    (unmarshal : Bytes → Result (List E.Cert)) (raw : E.Cert → Bytes)
    (trimmed : (c : E.Cert) → trim_space (raw c) ≡ pem c) (meta : Bytes → Bytes) where
  open E use {Cert, Time}

  -- `cryptoutils`, which writes certificates as `raw`
  abbrev pub codec : CertCodec
  codec = record { Cert = Cert; unmarshal = unmarshal; marshal = λ c. ok (raw c) }

  abbrev files_of : Cert → List Cert → Cert → Dict Bytes
  files_of leaf inters root =
      (leaf_name tsa, raw leaf)
      ∷ (root_name tsa, raw root)
      ∷ numbered codec raw (λ c. refl) tsa 0 inters

  targets_of-numbered :
      (i : ℕ) (cs : List Cert)
      → targets_of meta (numbered codec raw (λ c. refl) tsa i cs) ≡ inter_targets pem meta i cs
  targets_of-numbered i [] = refl
  targets_of-numbered i (c ∷ cs) = rw (trimmed c, targets_of-numbered (suc i) cs) refl

  targets_of-files_of :
      (leaf : Cert) (inters : List Cert) (root : Cert)
      → targets_of meta (files_of leaf inters root) ≡ chain_targets pem meta leaf inters root
  targets_of-files_of leaf inters root =
      rw (trimmed leaf, trimmed root, targets_of-numbered 0 inters) refl

  rest_parts-append :
      (cs : List Cert) (c : Cert)
      → rest_parts E (cs ++ (c ∷ [])) ≡ record { leaf = none; intermediates = cs; root = some c }
  rest_parts-append [] c = refl
  rest_parts-append (d ∷ cs) c = rw (init-append (d ∷ cs) c, last-append d cs c) refl

  abbrev pub expected : Cert → List Cert → Cert → TimestampingAuthority Cert Time
  expected leaf inters root = record {
    leaf = some leaf;
    intermediates = inters;
    root = some root;
    validity_period_start = E.not_before leaf;
    validity_period_end = E.not_after leaf;
  }

  authority_of_chain :
      (leaf root : Cert) (inters : List Cert)
      → E.is_ca leaf ≡ false
      → timestamping_authority E (leaf ∷ (inters ++ (root ∷ []))) ≡ ok (expected leaf inters root)
  authority_of_chain leaf root inters n =
      timestamping_authority-tsa_parts E leaf (inters ++ (root ∷ []))
      ∙ rw n (rw (rest_parts-append inters root) refl)

  of_parsed :
      (text : Bytes) (chain : List Cert)
      → parse_cert_chain E text ≡ ok chain
      → cert_chain_to_timestamping_authority E text ≡ timestamping_authority E chain
  unfolding cert_chain_to_timestamping_authority
  of_parsed text chain e = ap (λ r. r >>= timestamping_authority E) e

  -- A chain file that holds a leaf that is no CA, at most ten intermediates and a root comes out of
  -- the tools as this authority, whatever other targets there are and in whatever order the maps
  -- are read.
  pub tsa_chain_pipeline :
      (leaf root : Cert) (inters : List Cert) (chain : Bytes) (files : Dict Bytes)
      → (now : Time) (ts : List TargetWithMetadata) (s : Collected Time)
      → unmarshal chain ≡ ok (leaf ∷ (inters ++ (root ∷ [])))
      → length inters ≤ 10
      → E.is_ca leaf ≡ false
      → split_cert_chain codec chain tsa ≡ ok files
      → Reorder (select is_tsa ts) (targets_of meta files)
      → collect E now (sort_targets ts) nothing ≡ ok s
      → cert_chain_to_timestamping_authority E
          (concat_cert_chain s.tsa_leaf s.tsa_intermed s.tsa_root)
        ≡ ok (expected leaf inters root)
  tsa_chain_pipeline leaf root inters chain files now ts s u n ca split r c =
      let e : files ≡ files_of leaf inters root =
        ok-injective
          (sym split ∙ split_cert_chain_files codec raw (λ c. refl) tsa chain leaf root inters u) in
      let r' : Reorder (select is_tsa ts) (chain_targets pem meta leaf inters root) =
        subst (Reorder (select is_tsa ts))
          (ap (targets_of meta) e ∙ targets_of-files_of leaf inters root) r in
      let f : tsa_files s ≡ record { leaf = pem leaf; intermed = map pem inters; root = pem root } =
        collect-sort_targets E now ts s c
        ∙ ap (λ l. gather_tsa l (tsa_files {Time = Time} nothing)) (sort_targets-Reorder r')
        ∙ gather_tsa-chain_targets pem meta leaf root inters n in
      ap (λ t. cert_chain_to_timestamping_authority E (concat_cert_chain t.leaf t.intermed t.root))
        f
      ∙ of_parsed _ _ (parse_cert_chain-concat_cert_chain E pem P leaf inters root)
      ∙ authority_of_chain leaf root inters ca
