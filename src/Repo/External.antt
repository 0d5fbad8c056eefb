-- ===== src/Repo/External.antt =====
-- The cryptography that the repository builder calls: `encoding/pem`, `crypto/x509` and the key
-- hash of rekor-tiles. It is a parameter of the model.
use scaffolding.Base.{ℕ, Bytes, Bool, Option, Result}

pub data Curve : Type 0 where
  p256 p384 p521 other_curve : Curve

-- A parsed public key: the curve and the point, `Size()` and the key, or the key's bytes.
pub data PublicKey : Type 0 where
  ecdsa : Curve → Bytes → PublicKey
  rsa : ℕ → Bytes → PublicKey
  ed25519 : Bytes → PublicKey
  other_key : Bytes → PublicKey

pub data Hash : Type 0 where
  sha256 sha384 sha512 : Hash

pub record External : Type 1 where
  pub Cert : Type 0
  pub Time : Type 0
  -- `pem.Decode`: the bytes of the first block, or nil, and what is left
  pub pem_decode : Bytes → Option Bytes × Bytes
  pub parse_certificate : Bytes → Result Cert
  pub is_ca : Cert → Bool
  pub not_before : Cert → Time
  pub not_after : Cert → Time
  pub parse_pkcs1_public_key : Bytes → Result PublicKey
  pub parse_pkix_public_key : Bytes → Result PublicKey
  -- `note.KeyHash(origin, key)`: the id of the log
  pub key_hash : Bytes → PublicKey → Result Bytes
