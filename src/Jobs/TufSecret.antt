-- ===== src/Jobs/TufSecret.antt =====
-- tools/tuf/cmd/tuf/createsecret/main.go: what the other jobs keep in their secrets, gathered in the
-- secret that is mounted for the TUF server.
pub mod Gathered
pub mod Mounted
use scaffolding.Base.{String, Bytes, [], ◌∷◌, codes, Result, ok, panic, or_panic, ◌>>=◌, ◌>>◌}
use scaffolding.Base.Dict.{Dict, index}
use scaffolding.Cluster.{contents, Got, found, not_found, failed, SecretInterface, Exec, handle}
use scaffolding.Cluster
use scaffolding.Secret.{reconcile_secret}
use scaffolding.Jobs.Crypto.{check_namespace}

-- The environment variable and the flags.
pub record TufFlags : Type 0 where
  pub namespace : Bytes
  pub fulcio_secret : Bytes
  pub ctlog_secret : Bytes
  pub rekor_secret : Bytes
  pub tsa_secret : Bytes
  pub secret_name : Bytes

pub record TufKeys : Type 0 where
  pub f_cert : Bytes
  pub c_pub : Bytes
  pub r_pub : Bytes
  pub cert_chain : Bytes

-- The map `data`.
abbrev pub tuf_entries : TufKeys → Dict Bytes
tuf_entries keys =
    (codes "fulcio_v1.crt.pem", keys.f_cert)
    ∷ (codes "ctfe.pub", keys.c_pub)
    ∷ (codes "rekor.pub", keys.r_pub)
    ∷ (codes "tsa.certchain.pem", keys.cert_chain)
    ∷ []

-- `len(value) == 0` panics.
unfoldable pub not_empty : String → Bytes → Result Bytes
not_empty text [] = panic text
not_empty text (c ∷ value) = ok (c ∷ value)

-- One entry of a secret that was read: the panics are on an error, and on an empty entry.
unfoldable pub read_key : String → String → Bytes → Got → Result Bytes
unfolding not_empty
read_key no_secret no_key key (failed e) = panic no_secret
read_key no_secret no_key key not_found = panic no_secret
read_key no_secret no_key key (found s) = not_empty no_key (index (contents s.entries) key)

-- `config` and `clientset` say how the two calls end that make the client.
module _ (flags : TufFlags) (config clientset : Result (Unit {0})) (S : SecretInterface) where
  -- What `main` reads, which changes nothing.
  unfoldable pub get_keys : S.State → Result TufKeys
  unfolding read_key check_namespace
  get_keys σ = do
    check_namespace flags.namespace
    or_panic "Failed to get InClusterConfig: %v" config
    or_panic "Failed to get clientset: %v" clientset
    f ←
        read_key "Failed to get secret %s/%s: %v" "Fulcio cert key %q is missing %s/%s"
          (codes "cert") (S.get flags.fulcio_secret σ)
    c ←
        read_key "Failed to get secret %s/%s: %v" "Ctlog public key %q is missing %s/%s"
          (codes "public") (S.get flags.ctlog_secret σ)
    r ←
        read_key "Failed to get secret %s/%s: %v" "Rekor public key %q is missing %s/%s"
          (codes "public") (S.get flags.rekor_secret σ)
    t ←
        read_key "Failed to get tsa secret %s/%s: %v" "TSA Cert chain key %q is missing %s/%s"
          (codes "cert-chain") (S.get flags.tsa_secret σ)
    ok (record { f_cert = f; c_pub = c; r_pub = r; cert_chain = t })

  -- `main`
  unfoldable pub create_tuf_secret : Exec S.State (Unit {0})
  unfolding get_keys reconcile_secret
  create_tuf_secret =
      Cluster.◌>>=◌ (λ σ. (get_keys σ, σ))
        (λ keys.
          handle (or_panic "Failed to get secret %s/%s: %v")
            (reconcile_secret S flags.secret_name flags.namespace (tuf_entries keys)))
