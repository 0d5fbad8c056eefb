-- ===== src/Repo/Options/Targets.antt =====
-- Which targets a repository gets.
use scaffolding.Base.{
  ◌≡◌, refl, subst, panic, exit, Bytes, true, false, List, [], ◌∷◌, ◌++◌, codes, Result, ok, err,
  arith,
}
use scaffolding.Base.Dict.{Dict}
use scaffolding.Cluster.{continue}
use scaffolding.Repo.{CreateRepoOptions, TargetWithMetadata, SigstoreCustomMetadata}
use scaffolding.Repo.Usage.{get_target_usage}
use scaffolding.Repo.External.{External}
use scaffolding.Repo.TrustedRoot.{RootLib, construct_trusted_root}
use scaffolding.Repo.SigningConfig.{SigningLib}
use scaffolding.Repo.Create.{Disk, create_repo_with_metadata}
use scaffolding.Repo.Create.Plan.{plan, Succeeds, Ends-ok, create_repo_with_metadata-Ends}
use scaffolding.Repo.Options.{
  Clock, metadata_targets, optional_target, chosen_targets, create_repo_with_options, create_repo,
}

module _ (marshal : SigstoreCustomMetadata → Result Bytes) where
  -- The targets are the files, each with its usage and the status `Active` as its metadata.
  abbrev pub AreFiles : Dict Bytes → List TargetWithMetadata → Type 0
  AreFiles [] [] = Unit
  AreFiles ((name, bytes) ∷ files) (t ∷ ts) =
      (t.name ≡ name)
      × (t.bytes ≡ bytes)
      × (marshal (record {
        sigstore = record { usage = get_target_usage name; status = codes "Active"; uri = [] };
      })
          ≡ ok t.custom_metadata)
      × AreFiles files ts
  AreFiles _ _ = ⊥

  metadata_targets-AreFiles :
      (files : Dict Bytes) (ts : List TargetWithMetadata)
      → metadata_targets marshal files ≡ ok ts
      → AreFiles files ts
  unfolding metadata_targets
  metadata_targets-AreFiles [] [] h = tt
  metadata_targets-AreFiles [] (t ∷ ts) h = absurd (cc)
  metadata_targets-AreFiles ((name, bytes) ∷ files) [] h = absurd (ground arith)
  metadata_targets-AreFiles ((name, bytes) ∷ files) (t ∷ ts) h =
      ground (arith, metadata_targets-AreFiles files ts)

module _ (E : External) (R : RootLib E) (L : SigningLib E.Time) (D : Disk E.Time)
    (marshal : SigstoreCustomMetadata → Result Bytes) (clock : Clock E.Time) where
  chosen_targets-create :
      (files : Dict Bytes) (targets : List TargetWithMetadata)
      → chosen_targets E R L D marshal clock files (record {
        add_metadata_targets = true;
        add_trusted_root = true;
        add_signing_config = false;
      })
        ≡ ok targets
      → (ts : List TargetWithMetadata) × (root : TargetWithMetadata) × (metadata_targets marshal
            files
          ≡ ok ts)
        × (construct_trusted_root E clock.at_root R ts ≡ ok root)
        × (targets ≡ ts ++ (root ∷ []))
  unfolding chosen_targets optional_target
  chosen_targets-create files targets h = ground arith

  -- A successful `CreateRepo` has committed a repository whose targets are the files, each with its
  -- usage and the status `Active`, and last the trusted root that is made of them: every call of the
  -- plan for these targets has succeeded. The comment of `CreateRepo` says that it adds no trusted
  -- root; the code does.
  pub create_repo-AreFiles :
      (files : Dict Bytes) (σ : D.State) (repo_dir : Bytes)
      → (create_repo E R L D marshal clock files σ).0 ≡ ok repo_dir
      → (ts : List TargetWithMetadata) × (root : TargetWithMetadata) × AreFiles marshal files ts
        × (construct_trusted_root E clock.at_root R ts ≡ ok root)
        × Succeeds D
            (plan D clock.at_create (ts ++ (root ∷ [])))
            σ
            (create_repo E R L D marshal clock files σ).1
  unfolding create_repo create_repo_with_options
  create_repo-AreFiles files σ repo_dir h =
      created (chosen_targets E R L D marshal clock files everything) refl h
    where
      everything : CreateRepoOptions
      everything = record {
        add_metadata_targets = true;
        add_trusted_root = true;
        add_signing_config = false;
      }

      created :
          (c : Result (List TargetWithMetadata))
          → chosen_targets E R L D marshal clock files everything ≡ c
          → (continue c (create_repo_with_metadata D clock.at_create) σ).0 ≡ ok repo_dir
          → (ts : List TargetWithMetadata) × (root : TargetWithMetadata) × AreFiles marshal files ts
            × (construct_trusted_root E clock.at_root R ts ≡ ok root)
            × Succeeds D
                (plan D clock.at_create (ts ++ (root ∷ [])))
                σ
                (continue c (create_repo_with_metadata D clock.at_create) σ).1
      created (ok targets) e g =
          let (ts, root, t, r, q) = chosen_targets-create files targets e in
          (
            ts,
            root,
            metadata_targets-AreFiles marshal files ts t,
            r,
            subst
                (λ l.
                  Succeeds D (plan D clock.at_create l) σ
                    (create_repo_with_metadata D clock.at_create targets σ).1)
                q
                (Ends-ok D _ repo_dir _ σ _
                  (create_repo_with_metadata-Ends D clock.at_create targets σ) g),
          )
      created (err x) e g = absurd (cc)
      created (panic x) e g = absurd (cc)
      created (exit x) e g = absurd (cc)
