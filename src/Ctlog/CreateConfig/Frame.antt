-- ===== src/Ctlog/CreateConfig/Frame.antt =====
-- Which secrets the job changes, and that it never changes keys that are there.
use scaffolding.Base.{
  ◌≡◌, ◌≢◌, refl, ◌∙◌, Bytes, Bool, true, false, Option, [], ◌∷◌, Result, ok, err, panic, exit,
  or_panic, or_fatal, if◌then◌else◌,
}
use scaffolding.Base.Int.{ℤ}
use scaffolding.Base.Dict.{Dict, index}
use scaffolding.Cluster.{contents, SecretInterface, IsLawful, Exec, continue, ◌>>=◌, lift, handle}
use scaffolding.Secret.{reconcile_secret}
use scaffolding.Secret.Outcomes.{reconcile_secret_frame}
use scaffolding.Ctlog.External.{Library}
use scaffolding.Ctlog.CreateConfig.{
  Flags, World, check_flags, existing_data, tree_id, config_of_map, public_key, create_new,
  new_entries, update_existing, updated_entries, with_config, write_public, create_or_update, main,
}

module _ (S : SecretInterface) (n : Bytes) where
  -- The secret `n` is as it was, however the call ends.
  abbrev Frames : {A : Type 0} → Exec S.State A → Type 0
  Frames m = (σ : S.State) → S.get n (m σ).1 ≡ S.get n σ

  continue-Frames :
      {A B : Type 0} (r : Result A) (f : A → Exec S.State B) (σ : S.State)
      → ((a : A) → Frames (f a))
      → S.get n (continue r f σ).1 ≡ S.get n σ
  continue-Frames (ok a) f σ h = h a σ
  continue-Frames (err e) f σ h = refl
  continue-Frames (panic t) f σ h = refl
  continue-Frames (exit s) f σ h = refl

  bind-Frames :
      {A B : Type 0} (m : Exec S.State A) (f : A → Exec S.State B)
      → Frames m
      → ((a : A) → Frames (f a))
      → Frames (m >>= f)
  bind-Frames m f h k σ = continue-Frames (m σ).0 f (m σ).1 k ∙ h σ

  pure-Frames :
      {A B : Type 0} (r : Result A) (f : A → Exec S.State B)
      → ((a : A) → Frames (f a))
      → Frames (lift r >>= f)
  pure-Frames r f k σ = continue-Frames r f σ k

  if-Frames :
      {A : Type 0} (b : Bool) (m m' : Exec S.State A)
      → Frames m
      → Frames m'
      → Frames (if b then m else m')
  if-Frames true m m' h k = h
  if-Frames false m m' h k = k

module _ (L : Library) (W : World L) (S : SecretInterface) (flags : Flags) where
  module _ (law : IsLawful S) (n : Bytes) (not_secret : n ≢ flags.secret)
      (not_pubkey : n ≢ flags.pubkey_secret) where
    write_public-Frames : (public : Bytes) → Frames S n (write_public L W S flags public)
    unfolding write_public
    write_public-Frames public σ =
        reconcile_secret_frame S flags.pubkey_secret flags.namespace ((public_key, public) ∷ []) σ n
          law not_pubkey

    reconcile-Frames :
        (d : Dict Bytes) → Frames S n (reconcile_secret S flags.secret flags.namespace d)
    reconcile-Frames d σ =
        reconcile_secret_frame S flags.secret flags.namespace d σ n law not_secret

    create_new-Frames : (tree : ℤ) (chain : Bytes) → Frames S n (create_new L W S flags tree chain)
    unfolding create_new
    create_new-Frames tree chain σ = continue-Frames S n _ _ σ λ c.
        bind-Frames S n (lift (new_entries L W S flags c tree chain)) _ (λ σ. refl)
          λ d.
            bind-Frames S n (handle or_fatal (reconcile_secret S flags.secret flags.namespace d)) _
              (reconcile-Frames d)
              λ u.
                bind-Frames S n (write_public L W S flags (index d public_key)) _
                  (write_public-Frames (index d public_key)) λ v σ. refl

    update_existing-Frames :
        (d : Dict Bytes) (chain : Bytes) → Frames S n (update_existing L W S flags d chain)
    unfolding update_existing
    update_existing-Frames d chain =
        bind-Frames S n (lift (updated_entries L W S flags d chain)) _ (λ σ. refl)
          λ m.
            bind-Frames S n
              (handle (or_panic "Failed to reconcile secret %s/%s: %v")
                (reconcile_secret S flags.secret flags.namespace m))
              _ (reconcile-Frames m) λ u. write_public-Frames (index d public_key)

    create_or_update-Frames :
        (d : Option (Dict Bytes)) (cm : Option Bytes) (tree : ℤ) (chain : Bytes)
        → Frames S n (create_or_update L W S flags d cm tree chain)
    unfolding create_or_update
    create_or_update-Frames d cm tree chain =
        if-Frames S n _ _ _ (create_new-Frames tree chain)
          (update_existing-Frames (with_config (contents d) cm) chain)

    -- The job changes no secret but that of the configuration and that of the public key, however it
    -- ends.
    pub main-Frames : (σ : S.State) → S.get n (main L W S flags σ).1 ≡ S.get n σ
    unfolding main
    main-Frames = pure-Frames S n (check_flags flags) _ λ _.
        pure-Frames S n (or_panic "Failed to get clientset: %v" W.client) _ λ _.
          pure-Frames S n
            (or_panic "Failed to get the configmap %s/%s: %v"
              (W.get_config_map flags.namespace flags.config_map))
            _
            λ cm. pure-Frames S n (tree_id cm) _ λ tree.
              pure-Frames S n (or_panic "Invalid fulcioURL %s : %v" (W.parse_url flags.fulcio_url))
                _
                λ _.
                  pure-Frames S n
                    (or_panic "Failed to fetch fulcio Root cert: %w" (W.root_cert flags.fulcio_url))
                    _
                    λ root σ.
                      continue-Frames S n (existing_data (S.get flags.secret σ)) _ σ
                        λ d. create_or_update-Frames d (config_of_map cm) tree root
