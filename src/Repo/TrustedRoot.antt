-- ===== src/Repo/TrustedRoot.antt =====
-- `constructTrustedRoot`: trusted_root.json, from the certificates and keys among the targets.
pub mod Gather
pub mod SplitNames
pub mod TsaChain
pub mod Pipeline
use scaffolding.Base.{
  Bytes, String, List, [], ◌∷◌, ◌++◌, Result, ok, wrap, ◌>>=◌, codes, contains, ◌==◌, ltb, length,
  if◌then◌else◌,
}
use scaffolding.Base.Dict.{Dict, insert}
use scaffolding.Repo.{TargetWithMetadata, fulcio_target, rekor_target, ctfe_target, tsa_target}
use scaffolding.Repo.Usage.{get_target_usage}
use scaffolding.Repo.Sort.{sort_targets}
use scaffolding.Repo.External.{External}
use scaffolding.Repo.Keys.{TransparencyLog, pubkey_to_transparency_log_instance}
use scaffolding.Repo.Chain.{
  CertificateAuthority, TimestampingAuthority, concat_cert_chain,
  cert_chain_to_certificate_authority, cert_chain_to_timestamping_authority,
}

-- `root.NewTrustedRoot` of sigstore-go and the JSON of its result, which are not code of this
-- repository.
pub record RootLib (E : External) : Type 1 where
  pub TrustedRoot : Type 0
  pub new_trusted_root :
      List (CertificateAuthority E.Cert E.Time)
      → Dict (TransparencyLog E.Time)
      → List (TimestampingAuthority E.Cert E.Time)
      → Dict (TransparencyLog E.Time)
      → Result TrustedRoot
  pub marshal : TrustedRoot → Result Bytes

-- What the loop over the targets collects.
pub record Collected (Time : Type 0) : Type 0 where
  pub fulcio_root : Bytes
  pub fulcio_intermed : List Bytes
  pub tsa_leaf : Bytes
  pub tsa_root : Bytes
  pub tsa_intermed : List Bytes
  pub rekor_keys : Dict (TransparencyLog Time)
  pub ctlog_keys : Dict (TransparencyLog Time)

abbrev pub nothing : {Time : Type 0} → Collected Time
nothing = record {
  fulcio_root = [];
  fulcio_intermed = [];
  tsa_leaf = [];
  tsa_root = [];
  tsa_intermed = [];
  rekor_keys = [];
  ctlog_keys = [];
}

module _ {Time : Type 0} where
  -- The inner switches of the loop.
  unfoldable pub add_fulcio : TargetWithMetadata → Collected Time → Collected Time
  add_fulcio t s =
      if contains t.name (codes "intermediate")
      then record s { fulcio_intermed = s.fulcio_intermed ++ (t.bytes ∷ []) }
      else record s { fulcio_root = t.bytes }

  unfoldable pub add_tsa : TargetWithMetadata → Collected Time → Collected Time
  add_tsa t s =
      if contains t.name (codes "leaf")
      then record s { tsa_leaf = t.bytes }
      else if contains t.name (codes "intermediate")
      then record s { tsa_intermed = s.tsa_intermed ++ (t.bytes ∷ []) }
      else record s { tsa_root = t.bytes }

module _ (E : External) (now : E.Time) where
  unfoldable pub add_rekor : TargetWithMetadata → Collected E.Time → Result (Collected E.Time)
  add_rekor t s = do
    (tlinstance, id) ←
        wrap "failed to parse rekor key: %w"
          (pubkey_to_transparency_log_instance E (codes "rekor.rekor-system.svc") t.bytes now)
    ok (record s {
      rekor_keys =
          insert id (record tlinstance { base_url = codes "http://rekor.rekor-system.svc" })
            s.rekor_keys;
    })

  unfoldable pub add_ctlog : TargetWithMetadata → Collected E.Time → Result (Collected E.Time)
  add_ctlog t s = do
    (tlinstance, id) ←
        wrap "failed to parse ctlog key: %w"
          (pubkey_to_transparency_log_instance E (codes "ctlog.ctlog-system.svc") t.bytes now)
    ok (record s { ctlog_keys = insert id tlinstance s.ctlog_keys })

  -- The outer switch, on the usage.
  unfoldable pub add_target :
      Bytes → TargetWithMetadata → Collected E.Time → Result (Collected E.Time)
  unfolding add_fulcio add_tsa add_rekor add_ctlog
  add_target usage t s =
      if usage == fulcio_target
      then ok (add_fulcio t s)
      else if usage == tsa_target
      then ok (add_tsa t s)
      else if usage == rekor_target
      then add_rekor t s
      else if usage == ctfe_target
      then add_ctlog t s
      else ok s

  unfoldable pub collect : List TargetWithMetadata → Collected E.Time → Result (Collected E.Time)
  unfolding add_target get_target_usage
  collect [] s = ok s
  collect (t ∷ ts) s = add_target (get_target_usage t.name) t s >>= collect ts

  -- An authority of a chain that is not empty.
  unfoldable pub authority : {A : Type 0} → String → (Bytes → Result A) → Bytes → Result (List A)
  authority text parse pem =
      if ltb 0 (length pem) then (wrap text (parse pem) >>= λ a. ok (a ∷ [])) else ok []

  unfoldable pub trusted_root_of : RootLib E → Collected E.Time → Result TargetWithMetadata
  unfolding authority concat_cert_chain cert_chain_to_certificate_authority
      cert_chain_to_timestamping_authority
  trusted_root_of R s = do
    fulcio_authorities ←
        authority "failed to parse cert chain for Fulcio: %w"
          (cert_chain_to_certificate_authority E)
          (concat_cert_chain [] s.fulcio_intermed s.fulcio_root)
    tsa_authorities ←
        authority "failed to parse cert chain for TSA: %w" (cert_chain_to_timestamping_authority E)
          (concat_cert_chain s.tsa_leaf s.tsa_intermed s.tsa_root)
    tr ←
        wrap "failed to create TrustedRoot: %w"
          (R.new_trusted_root fulcio_authorities s.ctlog_keys tsa_authorities s.rekor_keys)
    serialized ← wrap "failed to serialize TrustedRoot to JSON: %w" (R.marshal tr)
    ok (record { name = codes "trusted_root.json"; bytes = serialized; custom_metadata = [] })

  -- `constructTrustedRoot`
  unfoldable pub construct_trusted_root :
      RootLib E → List TargetWithMetadata → Result TargetWithMetadata
  unfolding collect sort_targets trusted_root_of contains pubkey_to_transparency_log_instance insert
  construct_trusted_root R targets = collect (sort_targets targets) nothing >>= trusted_root_of R
