-- ===== src/Repo/Options.antt =====
-- `CreateRepoWithOptions` and `CreateRepo`: the targets of a repository, made from files.
pub mod Targets
use scaffolding.Base.{
  Bytes, Bool, true, false, not, ◌&&◌, List, [], ◌∷◌, ◌++◌, codes, Result, ok, err, errorf, wrap,
  ◌>>=◌, if◌then◌else◌,
}
use scaffolding.Base.Dict.{Dict}
use scaffolding.Cluster
use scaffolding.Cluster.{Exec, lift}
use scaffolding.Repo.{CreateRepoOptions, TargetWithMetadata, SigstoreCustomMetadata}
use scaffolding.Repo.Usage.{get_target_usage}
use scaffolding.Repo.External.{External}
use scaffolding.Repo.TrustedRoot.{RootLib, construct_trusted_root}
use scaffolding.Repo.SigningConfig.{SigningLib, construct_signing_config}
use scaffolding.Repo.Create.{Disk, create_repo_with_metadata}

-- What is read of the clock, in the three places where the code reads it.
pub record Clock (Time : Type 0) : Type 0 where
  pub at_root : Time
  pub at_config : Time
  pub at_create : Time

-- `marshal` is `json.Marshal` of the metadata.
module _ (marshal : SigstoreCustomMetadata → Result Bytes) where
  -- The loop over the files, in the order in which the map gives them.
  unfoldable pub metadata_targets : Dict Bytes → Result (List TargetWithMetadata)
  unfolding get_target_usage
  metadata_targets [] = ok []
  metadata_targets ((name, bytes) ∷ rest) = do
    scm_active ← wrap "failed to marshal custom metadata for %s: %w" (
        marshal (record {
          sigstore = record { usage = get_target_usage name; status = codes "Active"; uri = [] };
        }))
    targets ← metadata_targets rest
    ok (record { name = name; bytes = bytes; custom_metadata = scm_active } ∷ targets)

-- A target that an option asks for.
unfoldable pub optional_target : Bool → Result TargetWithMetadata → Result (List TargetWithMetadata)
optional_target false r = ok []
optional_target true r = r >>= λ t. ok (t ∷ [])

module _ (E : External) (R : RootLib E) (L : SigningLib E.Time) (D : Disk E.Time)
    (marshal : SigstoreCustomMetadata → Result Bytes) (clock : Clock E.Time) where
  -- The targets that are put into the repository.
  unfoldable pub chosen_targets : Dict Bytes → CreateRepoOptions → Result (List TargetWithMetadata)
  unfolding metadata_targets optional_target construct_trusted_root construct_signing_config
  chosen_targets files options =
      if not options.add_metadata_targets && not options.add_trusted_root
      then err (
          errorf
            "failed to create TUF repo: At least one of metadataTargets, trustedRoot must be true")
      else do
        targets ← metadata_targets marshal files
        roots ← optional_target options.add_trusted_root (
            wrap "failed to construct trust root: %w"
              (construct_trusted_root E clock.at_root R targets))
        configs ← optional_target options.add_signing_config (
            wrap "failed to construct signing config: %w"
              (construct_signing_config L clock.at_config))
        ok ((if options.add_metadata_targets then targets else []) ++ (roots ++ configs))

  -- `CreateRepoWithOptions`
  unfoldable pub create_repo_with_options : Dict Bytes → CreateRepoOptions → Exec D.State Bytes
  unfolding chosen_targets create_repo_with_metadata
  create_repo_with_options files options =
      Cluster.◌>>=◌ (lift (chosen_targets files options))
        (create_repo_with_metadata D clock.at_create)

  -- `CreateRepo`
  unfoldable pub create_repo : Dict Bytes → Exec D.State Bytes
  unfolding create_repo_with_options
  create_repo files =
      create_repo_with_options files (record {
        add_metadata_targets = true;
        add_trusted_root = true;
        add_signing_config = false;
      })
