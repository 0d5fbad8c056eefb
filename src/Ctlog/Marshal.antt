-- ===== src/Ctlog/Marshal.antt =====
-- config.go: the configuration as the entries of a secret, and back.
pub mod Keys
pub mod Unique
pub mod Written
pub mod RoundTrip
use scaffolding.Base.{
  ℕ, suc, Bytes, String, Option, none, some, List, [], ◌∷◌, ◌++◌, Result, ok, err, exit, errorf,
  wrap, or_error, or_panic, ◌>>=◌, codes, decimal, has_prefix, ltb, length, if◌then◌else◌,
}
use scaffolding.Base.Dict.{Dict, lookup, insert, keys, or_nil}
use scaffolding.Ctlog.External.{
  Library, PemKeyFile, Message, pem_key_file, other_message, LogMultiConfig,
}
use scaffolding.Ctlog.Config.{
  Config, config_key, private_key, public_key, legacy_root_ca_key, roots_pem_file_dir,
  private_key_file, decrypt_existing_private_key,
}

-- `fmt.Sprintf("fulcio-%d", i)`
unfoldable pub fulcio_key : ℕ → Bytes
fulcio_key i = codes "fulcio-" ++ decimal i

-- The loop that writes the certificates, from the index `i`.
unfoldable pub add_certs : ℕ → List Bytes → Dict Bytes → Dict Bytes
add_certs i [] entries = entries
add_certs i (cert ∷ rest) entries = add_certs (suc i) rest (insert (fulcio_key i) cert entries)

-- The names of the mounted certificates, from the index `i`.
unfoldable pub root_pems : ℕ → List Bytes → List Bytes
root_pems i [] = []
root_pems i (cert ∷ rest) = (roots_pem_file_dir ++ fulcio_key i) ∷ root_pems (suc i) rest

-- The one item of a repeated field that must be there.
unfoldable pub single : {A : Type 0} → String → String → Option (List A) → Result A
single missing unexpected none = err (errorf missing)
single missing unexpected (some (a ∷ [])) = ok a
single missing unexpected (some _) = err (errorf unexpected)

-- The type assertion on the private key's message.
unfoldable pub as_pem_key_file : Message → Result PemKeyFile
as_pem_key_file (pem_key_file p) = ok p
as_pem_key_file (other_message m) = err (errorf "not a valid PEMKeyFile in proto")

-- The loop over the map that collects the certificates, which are the keys of `unique`.
unfoldable pub collect_fulcio : Dict Bytes → Dict Bytes → Dict Bytes
collect_fulcio [] unique = unique
collect_fulcio ((k, v) ∷ rest) unique =
    collect_fulcio rest (if has_prefix k (codes "fulcio-") then insert v v unique else unique)

-- The legacy entry, if it is there and not empty.
unfoldable pub legacy_certs : Option Bytes → Dict Bytes
legacy_certs none = []
legacy_certs (some legacy_root) =
    if ltb 0 (length legacy_root) then insert legacy_root legacy_root [] else []

unfoldable pub unique_certs : Dict Bytes → List Bytes
unfolding collect_fulcio legacy_certs
unique_certs entries =
    keys (collect_fulcio entries (legacy_certs (lookup legacy_root_ca_key entries)))

module _ (L : Library) where
  -- `mustMarshalAny`
  unfoldable pub must_marshal_any : PemKeyFile → Result L.Any
  must_marshal_any p = or_panic "MarshalAny failed: %v" (L.any_new p)

  -- `marshalSecrets`
  unfoldable pub marshal_secrets : Config L → Result (Dict Bytes)
  unfolding add_certs
  marshal_secrets c = do
    marshalled ← wrap "failed to marshal private key: %w" (L.marshal_pkcs8_private_key c.priv_key)
    encrypted ←
        wrap "failed to encrypt private key: %w"
          (L.encrypt_pem_block (codes "PRIVATE KEY") marshalled c.priv_key_password)
    priv_pem ← or_error "failed to encode encrypted private key" (L.pem_encode_to_memory encrypted)
    pubkey ← or_error "failed to convert private key to crypto.Signer" (L.signer_public c.priv_key)
    marshalled_pub ← wrap "failed to marshal public key: %w" (L.marshal_pkix_public_key pubkey)
    let pub_pem = or_nil (L.pem_encode_to_memory (L.pem_block (codes "PUBLIC KEY") marshalled_pub))
    ok (add_certs 0 c.fulcio_certs ((private_key, priv_pem) ∷ (public_key, pub_pem) ∷ []))

  -- The cast at the start of `MarshalConfig`, whose failure is fatal.
  unfoldable pub signer_or_fatal : Option L.PublicKey → Result L.PublicKey
  signer_or_fatal none = exit 1
  signer_or_fatal (some key) = ok key

  -- The message that is written.
  unfoldable pub multi_config : Config L → L.Any → Bytes → LogMultiConfig L.Any
  unfolding root_pems
  multi_config c any key_der = record {
    log_configs = some (
        record {
          log_id = c.log_id;
          prefix = c.log_prefix;
          roots_pem_file = root_pems 0 c.fulcio_certs;
          private_key = any;
          public_key_der = key_der;
          log_backend_name = codes "trillian";
          ext_key_usages = codes "CodeSigning" ∷ [];
        }
        ∷ []);
    backends =
        some (record { name = codes "trillian"; backend_spec = c.trillian_server_addr } ∷ []);
  }

  -- `MarshalConfig`
  unfoldable pub marshal_config : Config L → Result (Dict Bytes)
  unfolding must_marshal_any marshal_secrets signer_or_fatal multi_config
  marshal_config c = do
    pubkey ← signer_or_fatal (L.signer_public c.priv_key)
    key_der ← or_panic "Failed to marshal the public key: %v" (L.marshal_pkix_public_key pubkey)
    any ← must_marshal_any (record { path = private_key_file; password = c.priv_key_password })
    marshalled_config ← L.prototext_marshal (multi_config c any key_der)
    secrets ← marshal_secrets c
    ok (insert config_key marshalled_config secrets)

  -- `Unmarshal`
  unfoldable pub unmarshal : Dict Bytes → Result (Config L)
  unfolding single as_pem_key_file unique_certs
  unmarshal entries = do
    config ← or_error "missing entry for %s" (lookup config_key entries)
    private ← or_error "missing entry for %s" (lookup private_key entries)
    public ← or_error "missing entry for %s" (lookup public_key entries)
    multi ← wrap "failed to unmarshal: %w" (L.prototext_unmarshal config)
    log_config ←
        single "missing multiConfig or nil LogConfigs"
          "unexpected number of LogConfig, want 1 got %d" multi.log_configs
    backend ←
        single "missing backends" "unexpected number of Backends, want 1 got %d" multi.backends
    pub_key ← wrap "failed to unmarshal public key: %w" (L.unmarshal_pem_to_public_key public)
    priv_proto ← wrap "invalid private key: %w" (L.any_unmarshal_new log_config.private_key)
    pb ← as_pem_key_file priv_proto
    (priv_key, signer) ←
        wrap "decrypting existing private key: %w"
          (decrypt_existing_private_key L private pb.password)
    ok (record {
      priv_key = priv_key;
      priv_key_password = pb.password;
      pub_key = some pub_key;
      log_id = log_config.log_id;
      log_prefix = log_config.prefix;
      trillian_server_addr = backend.backend_spec;
      fulcio_certs = unique_certs entries;
    })
