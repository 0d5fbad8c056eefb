-- ===== src/Jobs/Tsa.antt =====
-- tools/tsa/cmd/tsa/createcertchain/main.go: the chain and the key of the time stamping authority, in
-- one secret, made once.
pub mod Once
use scaffolding.Base.{
  Bytes, Bool, true, false, ◌&&◌, Option, none, some, List, [], ◌∷◌, codes, Result, ok, err, panic,
  exit, or_fatal, ◌==◌, if◌then◌else◌,
}
use scaffolding.Base.Dict.{Dict, lookup}
use scaffolding.Cluster.{
  Secret, Got, found, not_found, failed, SecretInterface, Exec, ◌>>=◌, ◌>>◌, lift, handle, continue,
  contents,
}
use scaffolding.Secret.{reconcile_secret}
use scaffolding.Jobs.Crypto.{Crypto, check_namespace}
use scaffolding.Jobs.Rekor.{some_or_fatal, signing_key_secret_key, signing_key_secret_password_key}

abbrev pub cert_chain_key : Bytes
cert_chain_key = codes "cert-chain"

-- An entry that is there; the API gives no entry with a nil value.
abbrev pub has_entry : Dict Bytes → Bytes → Bool
has_entry d k = elim (lookup k d) [ none ↦ false | some v ↦ true ]

-- The data of what `Get` returned; with an error the client returns an empty secret.
unfoldable pub existing_data : Got → Result (Option (Dict Bytes))
existing_data (found s) = ok s.entries
existing_data not_found = ok none
existing_data (failed e) = exit 1

unfoldable pub is_complete : Option (Dict Bytes) → Bool
is_complete none = false
is_complete (some d) =
    has_entry d cert_chain_key
    && has_entry d signing_key_secret_key
    && has_entry d signing_key_secret_password_key

module _ (C : Crypto) (namespace secret_name : Bytes) (S : SecretInterface) where
  -- The entries of a new chain.
  unfoldable pub new_chain : Exec S.State (Dict Bytes)
  unfolding some_or_fatal
  new_chain = do
    key ← lift (or_fatal C.generate_key)
    private ← lift (or_fatal (C.marshal_pkcs8_private_key key))
    let pwd = C.new_uuid
    encrypted ← lift (or_fatal (C.encrypt_pem_block (codes "PRIVATE KEY") private pwd))
    priv_pem ← lift (some_or_fatal (C.pem_encode_to_memory encrypted))
    s ← lift (or_fatal (C.load_signer key))
    chain ← lift (or_fatal (C.new_timestamping_cert_with_chain s))
    chain_bytes ← lift (or_fatal (C.marshal_certificates chain))
    lift (
        ok (
          (signing_key_secret_key, priv_pem)
          ∷ (signing_key_secret_password_key, pwd)
          ∷ (cert_chain_key, chain_bytes)
          ∷ []))

  unfoldable pub make_chain : Exec S.State (Unit {0})
  unfolding new_chain reconcile_secret
  make_chain = do
    secret_data ← new_chain
    handle or_fatal (reconcile_secret S secret_name namespace secret_data)

  -- `main`
  unfoldable pub create_cert_chain : Exec S.State (Unit {0})
  unfolding is_complete existing_data make_chain check_namespace
  create_cert_chain = do
    lift (check_namespace namespace)
    lift (or_fatal C.client)
    λ σ.
        continue (existing_data (S.get secret_name σ))
          (λ existing. if is_complete existing then lift (ok tt) else make_chain) σ
