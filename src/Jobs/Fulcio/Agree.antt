-- ===== src/Jobs/Fulcio/Agree.antt =====
-- The two secrets of Fulcio hold one certificate and one public key.
use scaffolding.Base.{◌≡◌, ◌≢◌, sym, ap, ◌∙◌, subst, ok, or_panic, or_panic-eq-ok}
use scaffolding.Cluster.{SecretInterface, IsLawful, continue-ok, handle}
use scaffolding.Secret.{reconcile_secret}
use scaffolding.Secret.Effects.{Shows, overlay, stored, reconcile_secret-Shows}
use scaffolding.Secret.Outcomes.{reconcile_secret_frame}
use scaffolding.Jobs.Crypto.{Crypto, check_namespace}
use scaffolding.Jobs.RootCertificate.{CertFlags, AllKeys, create_all}
use scaffolding.Jobs.Fulcio.{all_entries, public_entries, create_certs}

module _ (C : Crypto) (flags : CertFlags) (S : SecretInterface) where
  -- After a success there are keys that `createAll` has made, and the secret of Fulcio reads as all of
  -- them and the other secret as the same certificate and public key, each over what it held.
  pub create_certs-Shows :
      (law : IsLawful S) (σ : S.State)
      → flags.secret ≢ flags.pubkey_secret
      → (create_certs C flags S σ).0 ≡ ok tt
      → let after = (create_certs C flags S σ).1 in
        (keys : AllKeys) × (create_all C flags ≡ ok keys)
        × Shows
            (overlay (all_entries keys) (stored (S.get flags.secret σ)))
            (S.get flags.secret after)
        × Shows
            (overlay (public_entries keys) (stored (S.get flags.pubkey_secret σ)))
            (S.get flags.pubkey_secret after)
  unfolding create_certs
  create_certs-Shows law σ n h =
      let (a, e1, h1, s1) = continue-ok (check_namespace flags.namespace) _ σ tt h in
      let (b, e2, h2, s2) =
        continue-ok (or_panic "Failed to get clientset: %v" C.client) _ σ tt h1 in
      let (keys, e3, h3, s3) =
        continue-ok (or_panic "Failed to create keys %v" (create_all C flags)) _ σ tt h2 in
      let first = reconcile_secret S flags.secret flags.namespace (all_entries keys) σ in
      let second =
        reconcile_secret S flags.pubkey_secret flags.namespace (public_entries keys) first.1 in
      let (c, e4, h4, s4) =
        continue-ok (or_panic "Failed to reconcile secret %s/%s: %v" first.0)
          (λ _.
            handle (or_panic "Failed to reconcile secret %s/%s: %v")
              (reconcile_secret S flags.pubkey_secret flags.namespace (public_entries keys)))
          first.1 tt h3 in
      let st = s1 ∙ s2 ∙ s3 ∙ s4 in
      (
        keys,
        or_panic-eq-ok "Failed to create keys %v" (create_all C flags) e3,
        subst (Shows _)
            (sym (
              ap (S.get flags.secret) st
              ∙ reconcile_secret_frame S flags.pubkey_secret flags.namespace (public_entries keys)
                  first.1 flags.secret law n))
            (reconcile_secret-Shows S law flags.secret flags.namespace (all_entries keys) σ
              (or_panic-eq-ok "Failed to reconcile secret %s/%s: %v" first.0 e4)),
        subst (Shows _) (sym (ap (S.get flags.pubkey_secret) st)) (
            subst
              (λ g.
                Shows (overlay (public_entries keys) (stored g))
                  (S.get flags.pubkey_secret second.1))
              (reconcile_secret_frame S flags.secret flags.namespace (all_entries keys) σ
                flags.pubkey_secret law (λ q. n (sym q)))
              (reconcile_secret-Shows S law flags.pubkey_secret flags.namespace
                (public_entries keys) first.1
                (or_panic-eq-ok "Failed to reconcile secret %s/%s: %v" second.0 h4))),
      )
