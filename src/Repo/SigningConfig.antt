-- ===== src/Repo/SigningConfig.antt =====
-- `constructSigningConfig`: signing_config.v0.2.json, with the addresses of the services.
use scaffolding.Base.{ℕ, Bytes, List, [], ◌∷◌, codes, Result, ok, wrap, ◌>>=◌}
use scaffolding.Repo.{TargetWithMetadata}

-- `root.Service`
pub record Service (Time : Type 0) : Type 0 where
  pub url : Bytes
  pub major_api_version : ℕ
  pub validity_period_start : Time
  pub operator : Bytes

pub data ServiceSelector : Type 0 where
  undefined all any exact : ServiceSelector

-- `root.NewSigningConfig` of sigstore-go and the JSON of its result, which are not code of this
-- repository: the services of Fulcio, of the OIDC provider, of Rekor with their selector, and of the
-- time stamping authority with theirs.
pub record SigningLib (Time : Type 0) : Type 1 where
  pub SigningConfig : Type 0
  pub new_signing_config :
      List (Service Time)
      → List (Service Time)
      → List (Service Time)
      → ServiceSelector
      → List (Service Time)
      → ServiceSelector
      → Result SigningConfig
  pub marshal : SigningConfig → Result Bytes

module _ {Time : Type 0} (L : SigningLib Time) where
  unfoldable pub construct_signing_config : Time → Result TargetWithMetadata
  construct_signing_config validity_start = do
    let service : Bytes → ℕ → List (Service Time) = λ url version.
        record {
          url = url;
          major_api_version = version;
          validity_period_start = validity_start;
          operator = codes "test";
        }
        ∷ []
    signing_config ← wrap "failed to create SigningConfig: %w" (
        L.new_signing_config (service (codes "http://fulcio.fulcio-system.svc") 1)
          (service (codes "https://kubernetes.default.svc.cluster.local") 1)
          (service (codes "http://rekor.rekor-system.svc") 2) any
          (service (codes "http://tsa.tsa-system.svc/api/v1/timestamp") 1) any)
    serialized ← wrap "failed to serialize SigningConfig to JSON: %w" (L.marshal signing_config)
    ok (record {
      name = codes "signing_config.v0.2.json";
      bytes = serialized;
      custom_metadata = [];
    })
