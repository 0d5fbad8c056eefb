-- ===== src/Repo.antt =====
-- tools/tuf/pkg/repo/repo.go: the TUF repository of a Sigstore deployment.
pub mod Usage
pub mod External
pub mod Keys
pub mod Chain
pub mod Sort
pub mod TrustedRoot
pub mod Paths
pub mod Archive
pub mod Compress
pub mod SigningConfig
pub mod Create
pub mod Options
use scaffolding.Base.{Bytes, Bool, List, [], ◌∷◌, codes}

pub record CreateRepoOptions : Type 0 where
  pub add_metadata_targets : Bool
  pub add_trusted_root : Bool
  pub add_signing_config : Bool

-- A nil `CustomMetadata` is the empty list.
pub record TargetWithMetadata : Type 0 where
  pub name : Bytes
  pub bytes : Bytes
  pub custom_metadata : Bytes

pub record CustomMetadata : Type 0 where
  pub usage : Bytes
  pub status : Bytes
  pub uri : Bytes

pub record SigstoreCustomMetadata : Type 0 where
  pub sigstore : CustomMetadata

abbrev pub fulcio_target : Bytes
fulcio_target = codes "Fulcio"

abbrev pub rekor_target : Bytes
rekor_target = codes "Rekor"

abbrev pub ctfe_target : Bytes
ctfe_target = codes "CTFE"

abbrev pub tsa_target : Bytes
tsa_target = codes "TSA"

abbrev pub unknown_target : Bytes
unknown_target = codes "Unknown"
