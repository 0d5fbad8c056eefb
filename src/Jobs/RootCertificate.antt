-- ===== src/Jobs/RootCertificate.antt =====
-- `createAll` of tools/fulcio/cmd/fulcio/createcerts/main.go: a root certificate and its keys.
use scaffolding.Base.{ℕ, Bytes, true, [], ◌∷◌, codes, Result, ok, wrap, or_error, ◌>>=◌}
use scaffolding.Base.Dict.{or_nil}
use scaffolding.Jobs.Crypto.{Crypto, Template}

pub record CertFlags : Type 0 where
  pub namespace : Bytes
  pub secret : Bytes
  pub pubkey_secret : Bytes
  pub cert_organization : Bytes
  pub cert_country : Bytes
  pub cert_province : Bytes
  pub cert_locality : Bytes
  pub cert_address : Bytes
  pub cert_postal : Bytes

-- What `createAll` returns.
pub record AllKeys : Type 0 where
  pub cert_pem : Bytes
  pub pub_pem : Bytes
  pub priv_pem : Bytes
  pub pwd : Bytes

module _ (C : Crypto) (flags : CertFlags) where
  abbrev root_ca : ℕ → Template C.Time
  root_ca serial_number = record {
    serial_number = serial_number;
    organization = flags.cert_organization ∷ [];
    country = flags.cert_country ∷ [];
    province = flags.cert_province ∷ [];
    locality = flags.cert_locality ∷ [];
    street_address = flags.cert_address ∷ [];
    postal_code = flags.cert_postal ∷ [];
    not_before = C.now;
    not_after = C.add_years 1 C.now;
    is_ca = true;
    cert_sign = true;
    crl_sign = true;
    basic_constraints_valid = true;
    max_path_len = 1;
  }

  -- `createAll`
  unfoldable pub create_all : Result AllKeys
  create_all = do
    key ← wrap "failed to generate ecdsa key: %w" C.generate_key
    serial ← wrap "failed to generate serial Number: %w" C.random_serial
    der ← wrap "failed to create certificate: %w" (C.create_certificate (root_ca serial) key)
    let cert_pem = or_nil (C.pem_encode_to_memory (C.pem_block (codes "CERTIFICATE") der))
    private ← wrap "marshal pkcs8 private key: %w" (C.marshal_pkcs8_private_key key)
    let pwd = C.new_uuid
    block ← wrap "EncryptPEMBlock failed: %w" (C.encrypt_pkcs8_private_key private pwd)
    priv_pem ← or_error "EncodeToMemory private key failed: %w" (C.pem_encode_to_memory block)
    public ← wrap "failed to unmarshal public key: %w" (C.marshal_pkix_public_key (C.public key))
    pub_pem ←
        or_error "EncodeToMemory public key failed: %w"
          (C.pem_encode_to_memory (C.pem_block (codes "PUBLIC KEY") public))
    ok (record { cert_pem = cert_pem; pub_pem = pub_pem; priv_pem = priv_pem; pwd = pwd })
