-- ===== src/Jobs/Rekor.antt =====
-- tools/rekor/cmd/rekor/rekor-createsecret/main.go: a signing key for Rekor, in two secrets.
use scaffolding.Base.{
  Bytes, Option, none, some, [], ◌∷◌, codes, Result, ok, exit, or_panic, or_fatal,
}
use scaffolding.Base.Dict.{or_nil}
use scaffolding.Cluster.{SecretInterface, Exec, ◌>>=◌, ◌>>◌, lift, handle}
use scaffolding.Secret.{reconcile_secret}
use scaffolding.Jobs.Crypto.{Crypto, check_namespace}

pub record RekorFlags : Type 0 where
  pub namespace : Bytes
  pub signing_secret : Bytes
  pub signing_secret_pwd : Bytes
  pub secret : Bytes

-- A nil that is fatal.
unfoldable pub some_or_fatal : {A : Type 0} → Option A → Result A
some_or_fatal none = exit 1
some_or_fatal (some a) = ok a

abbrev pub signing_key_secret_key : Bytes
signing_key_secret_key = codes "signing-secret"

abbrev pub signing_key_secret_password_key : Bytes
signing_key_secret_password_key = codes "signing-secret-password"

module _ (C : Crypto) (flags : RekorFlags) (S : SecretInterface) where
  unfoldable pub create_rekor_secret : Exec S.State (Unit {0})
  unfolding some_or_fatal reconcile_secret check_namespace
  create_rekor_secret = do
    lift (check_namespace flags.namespace)
    lift (or_fatal C.client)
    key ← lift (or_fatal C.generate_key)
    private ← lift (or_fatal (C.marshal_pkcs8_private_key key))
    encrypted ← lift (or_fatal (C.encrypt_pkcs8_private_key private flags.signing_secret_pwd))
    priv_pem ← lift (some_or_fatal (C.pem_encode_to_memory encrypted))
    public ←
        lift (
          or_panic "Failed to marshal the public key: %v"
            (C.marshal_pkix_public_key (C.public key)))
    let pub_pem = or_nil (C.pem_encode_to_memory (C.pem_block (codes "PUBLIC KEY") public))
    handle or_fatal (
        reconcile_secret S flags.signing_secret flags.namespace (
          (signing_key_secret_key, priv_pem)
          ∷ (signing_key_secret_password_key, flags.signing_secret_pwd)
          ∷ []))
    handle or_fatal
        (reconcile_secret S flags.secret flags.namespace ((codes "public", pub_pem) ∷ []))
