-- ===== src/Jobs/Crypto.antt =====
-- The keys and certificates that the jobs make: `crypto`, `encoding/pem`, `pemutil`, `uuid` and the
-- signer of the time stamping authority, which are not code of this repository.
use scaffolding.Base.{ℕ, Bytes, Bool, Option, List, [], Result, ok, panic, ◌==◌, if◌then◌else◌}

-- `x509.Certificate` as a template, with the fields that are set
pub record Template (Time : Type 0) : Type 0 where
  pub serial_number : ℕ
  pub organization : List Bytes
  pub country : List Bytes
  pub province : List Bytes
  pub locality : List Bytes
  pub street_address : List Bytes
  pub postal_code : List Bytes
  pub not_before : Time
  pub not_after : Time
  pub is_ca : Bool
  pub cert_sign : Bool
  pub crl_sign : Bool
  pub basic_constraints_valid : Bool
  pub max_path_len : ℕ

pub record Crypto : Type 1 where
  pub PrivateKey : Type 0
  pub PublicKey : Type 0
  pub Block : Type 0
  pub Signer : Type 0
  pub Chain : Type 0
  pub Time : Type 0
  -- the client of the cluster
  pub client : Result (Unit {0})
  -- `ecdsa.GenerateKey` on P-256
  pub generate_key : Result PrivateKey
  pub public : PrivateKey → PublicKey
  pub marshal_pkcs8_private_key : PrivateKey → Result Bytes
  pub marshal_pkix_public_key : PublicKey → Result Bytes
  pub pem_block : Bytes → Bytes → Block
  -- nil as `none`
  pub pem_encode_to_memory : Block → Option Bytes
  -- `pemutil.EncryptPKCS8PrivateKey` of the bytes and the password
  pub encrypt_pkcs8_private_key : Bytes → Bytes → Result Block
  -- `x509.EncryptPEMBlock` of the type, the bytes and the password
  pub encrypt_pem_block : Bytes → Bytes → Bytes → Result Block
  -- `uuid.New().String()`
  pub new_uuid : Bytes
  -- `rand.Int` below the largest int64
  pub random_serial : Result ℕ
  pub now : Time
  pub add_years : ℕ → Time → Time
  -- `x509.CreateCertificate` of the template, signed by itself
  pub create_certificate : Template Time → PrivateKey → Result Bytes
  pub load_signer : PrivateKey → Result Signer
  pub new_timestamping_cert_with_chain : Signer → Result Chain
  pub marshal_certificates : Chain → Result Bytes

-- The check of the variable NAMESPACE.
unfoldable pub check_namespace : Bytes → Result (Unit {0})
check_namespace namespace =
    if namespace == [] then panic "env variable NAMESPACE must be set" else ok tt
