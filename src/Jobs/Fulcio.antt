-- ===== src/Jobs/Fulcio.antt =====
-- `main` of tools/fulcio/cmd/fulcio/createcerts/main.go: the certificate in two secrets.
pub mod Agree
use scaffolding.Base.{Bytes, List, [], ◌∷◌, codes, Result, ok, panic, or_panic, ◌==◌, if◌then◌else◌}
use scaffolding.Base.Dict.{Dict}
use scaffolding.Cluster.{SecretInterface, Exec, ◌>>=◌, ◌>>◌, lift, handle, continue}
use scaffolding.Secret.{reconcile_secret}
use scaffolding.Jobs.Crypto.{Crypto, check_namespace}
use scaffolding.Jobs.RootCertificate.{CertFlags, AllKeys, create_all}

-- The entries of the secret of Fulcio, and those of the secret with what is public.
abbrev pub all_entries : AllKeys → Dict Bytes
all_entries keys =
    (codes "cert", keys.cert_pem)
    ∷ (codes "private", keys.priv_pem)
    ∷ (codes "public", keys.pub_pem)
    ∷ (codes "password", keys.pwd)
    ∷ []

abbrev pub public_entries : AllKeys → Dict Bytes
public_entries keys = (codes "cert", keys.cert_pem) ∷ (codes "public", keys.pub_pem) ∷ []

-- `main`
module _ (C : Crypto) (flags : CertFlags) (S : SecretInterface) where
  unfoldable pub create_certs : Exec S.State (Unit {0})
  unfolding create_all reconcile_secret check_namespace
  create_certs = do
    lift (check_namespace flags.namespace)
    lift (or_panic "Failed to get clientset: %v" C.client)
    keys ← lift (or_panic "Failed to create keys %v" (create_all C flags))
    handle (or_panic "Failed to reconcile secret %s/%s: %v")
        (reconcile_secret S flags.secret flags.namespace (all_entries keys))
    handle (or_panic "Failed to reconcile secret %s/%s: %v")
        (reconcile_secret S flags.pubkey_secret flags.namespace (public_entries keys))
