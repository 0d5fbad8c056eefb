-- ===== src/Ctlog/External.antt =====
-- What tools/ctlog calls outside this repository: `encoding/pem`, `crypto/x509`, `cryptoutils` of
-- sigstore, and the protobuf messages of the log's configuration with their text format.
use scaffolding.Base.{Bytes, Option, List, Result}
use scaffolding.Base.Int.{ℤ}
use scaffolding.Certs.{CertCodec}

-- `keyspb.PEMKeyFile`
pub record PemKeyFile : Type 0 where
  pub path : Bytes
  pub password : Bytes

-- A message that an `anypb.Any` holds, by the type assertion that the program makes.
pub data Message : Type 0 where
  pem_key_file : PemKeyFile → Message
  other_message : Bytes → Message

-- `configpb.LogConfig` over the type of `anypb.Any`, with the fields that the program uses
pub record LogConfig (Any : Type 0) : Type 0 where
  pub log_id : ℤ
  pub prefix : Bytes
  pub roots_pem_file : List Bytes
  pub private_key : Any
  pub public_key_der : Bytes
  pub log_backend_name : Bytes
  pub ext_key_usages : List Bytes

pub record LogBackend : Type 0 where
  pub name : Bytes
  pub backend_spec : Bytes

-- `configpb.LogMultiConfig`; `none` is a nil message.
pub record LogMultiConfig (Any : Type 0) : Type 0 where
  pub log_configs : Option (List (LogConfig Any))
  pub backends : Option (List LogBackend)

pub record Library : Type 1 where
  pub PrivateKey : Type 0
  pub PublicKey : Type 0
  pub Any : Type 0
  pub Block : Type 0
  pub certs : CertCodec
  -- `key.(crypto.Signer)` and its method `Public`
  pub signer_public : PrivateKey → Option PublicKey
  pub any_new : PemKeyFile → Result Any
  pub any_unmarshal_new : Any → Result Message
  pub prototext_marshal : LogMultiConfig Any → Result Bytes
  pub prototext_unmarshal : Bytes → Result (LogMultiConfig Any)
  -- `&pem.Block{Type: …, Bytes: …}`
  pub pem_block : Bytes → Bytes → Block
  -- `pem.EncodeToMemory`, with nil as `none`
  pub pem_encode_to_memory : Block → Option Bytes
  pub pem_decode : Bytes → Option Block
  pub marshal_pkix_public_key : PublicKey → Result Bytes
  pub marshal_pkcs8_private_key : PrivateKey → Result Bytes
  -- `x509.EncryptPEMBlock` of the type, the bytes and the password
  pub encrypt_pem_block : Bytes → Bytes → Bytes → Result Block
  pub decrypt_pem_block : Block → Bytes → Result Bytes
  pub parse_pkcs8_private_key : Bytes → Result PrivateKey
  pub parse_pkcs1_private_key : Bytes → Result PrivateKey
  pub parse_ec_private_key : Bytes → Result PrivateKey
  pub unmarshal_pem_to_public_key : Bytes → Result PublicKey
