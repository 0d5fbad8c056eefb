-- ===== src/Server/Init/Agree.antt =====
-- The secret and the directory that is served hold one archive of one repository.
use mathlib.Core.Path.{ap₂}
use scaffolding.Base.{
  ◌≡◌, ◌≢◌, refl, sym, ap, ◌∙◌, subst, Bytes, Bool, true, false, Bool-cases, inl, inr, ok, wrap,
  wrap-eq-ok, [], ◌==◌,
}
use scaffolding.Base.Dict.{Dict}
use scaffolding.Cluster.{IsLawful, continue-elim, continue-ok, handle}
use scaffolding.Secret.{reconcile_secret}
use scaffolding.Secret.Effects.{Shows, overlay, stored, reconcile_secret-Shows}
use scaffolding.Secret.Outcomes.{reconcile_secret_frame}
use scaffolding.Repo.Archive.{uncompress}
use scaffolding.Server.Init.{
  ServerWorld, ServerFlags, Place, on_files, on_cluster, file_system, get_namespace_and_clientset,
  list_keys, store_keys, repo_entries, store_in_cluster, store_repo, root_of, compressed, make_repo,
  init_tuf_repo,
}

module _ (W : ServerWorld) (flags : ServerFlags) where
  -- What becomes of the secret of the repository: nothing outside of a cluster, and in a cluster it
  -- reads as the entries over what it held.
  abbrev pub Stored : Bool → Dict Bytes → W.secrets.State → W.secrets.State → Type 0
  Stored true entries before after = after ≡ before
  Stored false entries before after =
      Shows (overlay entries (stored (W.secrets.get flags.secret_name before)))
        (W.secrets.get flags.secret_name after)

  -- The secret with the keys is another one, and the disk is only read.
  store_keys_frame :
      (law : IsLawful W.secrets) (ns d : Bytes) (p : Place W)
      → flags.secret_name ≢ flags.keys_secret_name
      → ((store_keys W flags ns d p).1.files ≡ p.files)
        × (W.secrets.get flags.secret_name (store_keys W flags ns d p).1.cluster
            ≡ W.secrets.get flags.secret_name p.cluster)
  unfolding store_keys
  store_keys_frame law ns d p n = elim (Bool-cases (flags.keys_secret_name == [])) [
    | inl e ↦ rw (e, store_keys) (refl, refl)
    | inr e ↦
        rw (e, store_keys)
          (continue-elim
            (λ (q : Place W).
              (q.files ≡ p.files)
              × (W.secrets.get flags.secret_name q.cluster
                  ≡ W.secrets.get flags.secret_name p.cluster))
            (list_keys W d p.files)
            (λ data_keys.
              handle (wrap "failed to reconcile keys secret %s/%s: %w")
                (on_cluster W (reconcile_secret W.secrets flags.keys_secret_name ns data_keys)))
            p (refl, refl)
            (λ data_keys. (
              refl,
              reconcile_secret_frame W.secrets flags.keys_secret_name ns data_keys p.cluster
                  flags.secret_name law n,
            )))
  ]

  store_in_cluster-Shows :
      (law : IsLawful W.secrets) (ns d : Bytes) (entries : Dict Bytes) (p : Place W)
      → flags.secret_name ≢ flags.keys_secret_name
      → (store_in_cluster W flags ns d entries p).0 ≡ ok tt
      → ((store_in_cluster W flags ns d entries p).1.files ≡ p.files)
        × Stored false entries p.cluster (store_in_cluster W flags ns d entries p).1.cluster
  unfolding store_in_cluster
  store_in_cluster-Shows law ns d entries p n h =
      let first = reconcile_secret W.secrets flags.secret_name ns entries p.cluster in
      let (u, e1, h1, s1) =
        continue-ok (wrap "failed to reconcile secret %s/%s: %w" first.0)
          (λ _. store_keys W flags ns d) (record p { cluster = first.1 }) tt h in
      let frame = store_keys_frame law ns d (record p { cluster = first.1 }) n in
      (
        ap (λ q. q.files) s1 ∙ frame.0,
        subst (Shows _) (sym (ap (λ q. W.secrets.get flags.secret_name q.cluster) s1 ∙ frame.1)) (
            reconcile_secret-Shows W.secrets law flags.secret_name ns entries p.cluster
              (wrap-eq-ok _ first.0 e1)),
      )

  store_repo-Stored :
      (law : IsLawful W.secrets) (ns d : Bytes) (entries : Dict Bytes) (p : Place W)
      → flags.secret_name ≢ flags.keys_secret_name
      → (store_repo W flags ns d entries p).0 ≡ ok tt
      → ((store_repo W flags ns d entries p).1.files ≡ p.files)
        × Stored flags.no_k8s entries p.cluster (store_repo W flags ns d entries p).1.cluster
  unfolding store_repo
  store_repo-Stored law ns d entries p n h = elim (Bool-cases flags.no_k8s) [
    | inl e ↦ rw (e, store_repo) (refl, refl)
    | inr e ↦
        rw (e, store_repo) (store_in_cluster-Shows law ns d entries p n (rw (e, store_repo) at h))
  ]

-- After a success the archive that `compressed` makes of the repository is what the directory that is
-- served was unpacked from. In a cluster the secret of the repository reads as the root and this same
-- archive over what it held; outside of one no secret has changed.
pub init_tuf_repo-Stored :
    (W : ServerWorld) (flags : ServerFlags) (target_dir : Bytes) (p : Place W)
    → IsLawful W.secrets
    → flags.secret_name ≢ flags.keys_secret_name
    → (init_tuf_repo W flags target_dir p).0 ≡ ok tt
    → let after = (init_tuf_repo W flags target_dir p).1 in
      (d root_json repository : Bytes) × (σ : W.maker.disk.State) × (make_repo W flags p.files
        ≡ (ok d, σ))
      × (root_of W σ ≡ ok root_json)
      × (compressed W d σ ≡ ok repository)
      × (uncompress (file_system W) (W.reader repository) target_dir σ ≡ (ok tt, after.files))
      × Stored W flags flags.no_k8s (repo_entries W root_json repository) p.cluster after.cluster
unfolding init_tuf_repo
init_tuf_repo-Stored W flags target_dir p law n h =
    let got =
      wrap "failed to get namespace and clientset: %w" (get_namespace_and_clientset W flags) in
    let (ns, e1, h1, s1) = continue-ok got _ p tt h in
    let made = make_repo W flags p.files in
    let p2 : Place W = record p { files = made.1 } in
    let (d, e2, h2, s2) = continue-ok made.0 _ p2 tt h1 in
    let (root_json, e3, h3, s3) = continue-ok (root_of W made.1) _ p2 tt h2 in
    let (repository, e4, h4, s4) = continue-ok (compressed W d made.1) _ p2 tt h3 in
    let entries = repo_entries W root_json repository in
    let stored = store_repo W flags ns d entries p2 in
    let unpack = uncompress (file_system W) (W.reader repository) target_dir in
    let (u, e5, h5, s5) = continue-ok stored.0 (λ _. on_files W unpack) stored.1 tt h4 in
    let st = s1 ∙ s2 ∙ s3 ∙ s4 ∙ s5 in
    let (same, shown) = store_repo-Stored W flags law ns d entries p2 n e5 in
    (
      d,
      root_json,
      repository,
      made.1,
      ap (λ r. (r, made.1)) e2,
      e3,
      e4,
      subst (λ σ. unpack σ ≡ (ok tt, (init_tuf_repo W flags target_dir p).1.files)) same
          (ap₂ (λ r σ. (r, σ)) h5 (sym (ap (λ q. q.files) st))),
      subst (Stored W flags flags.no_k8s entries p.cluster) (sym (ap (λ q. q.cluster) st)) shown,
    )
