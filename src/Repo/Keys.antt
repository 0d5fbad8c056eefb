-- ===== src/Repo/Keys.antt =====
-- The public keys of the logs: `getKeyWithDetails` and `pubkeyToTransparencyLogInstance`.
pub mod Details
use scaffolding.Base.{
  ℕ, ◌+◌, ◌*◌, ◌/◌, ◌%◌, ◌||◌, Bytes, [], ◌∷◌, none, some, Result, ok, err, panic, exit, errorf,
  ◌>>=◌, ltb, eqb, if◌then◌else◌,
}
use scaffolding.Repo.External.{
  External, PublicKey, ecdsa, rsa, ed25519, other_key, p256, p384, p521, other_curve, Hash, sha256,
  sha384, sha512,
}

-- The two attempts to parse a key.
unfoldable pub parse_key : (E : External) → Bytes → Result PublicKey
parse_key E key = elim (E.parse_pkcs1_public_key key) [
  | ok k ↦ ok k
  | err err1 ↦ elim (E.parse_pkix_public_key key) [
    | ok k ↦ ok k
    | err err2 ↦ err (errorf "can't parse public key with PKCS1 or PKIX: %w, %w")
    | panic t ↦ panic t
    | exit n ↦ exit n
  ]
  | panic t ↦ panic t
  | exit n ↦ exit n
]

-- The switch on the type of the key.
unfoldable pub key_details : PublicKey → Result Hash
key_details (ecdsa p256 point) = ok sha256
key_details (ecdsa p384 point) = ok sha384
key_details (ecdsa p521 point) = ok sha512
key_details (ecdsa other_curve point) = err (errorf "unsupported elliptic curve %T")
key_details (rsa size key) =
    if eqb (size * 8) 2048 || eqb (size * 8) 3072 || eqb (size * 8) 4096
    then ok sha256
    else err (errorf "unsupported public modulus %d")
key_details (ed25519 key) = ok sha512
key_details (other_key key) = err (errorf "unknown public key type")

-- `getKeyWithDetails`
unfoldable pub get_key_with_details : (E : External) → Bytes → Result (PublicKey × Hash)
unfolding parse_key key_details
get_key_with_details E key = do k ← parse_key E key; hash ← key_details k; ok (k, hash)

-- `root.TransparencyLog`, with the fields that are set
pub record TransparencyLog (Time : Type 0) : Type 0 where
  pub base_url : Bytes
  pub id : Bytes
  pub validity_period_start : Time
  pub hash_func : Hash
  pub public_key : PublicKey
  pub signature_hash_func : Hash

-- `hex.EncodeToString`
unfoldable pub hex_digit : ℕ → ℕ
hex_digit n = if ltb n 10 then b'0' + n else b'W' + n

unfoldable pub hex_encode : Bytes → Bytes
unfolding hex_digit
hex_encode [] = []
hex_encode (b ∷ s) = hex_digit (b / 16) ∷ hex_digit (b % 16) ∷ hex_encode s

-- The call after the PEM block was found.
unfoldable pub log_of_der :
    (E : External) → Bytes → Bytes → E.Time → Result (TransparencyLog E.Time × Bytes)
unfolding get_key_with_details hex_encode
log_of_der E origin der tm = do
  (key, details) ← get_key_with_details E der
  log_id ← E.key_hash origin key
  ok (
    record {
      base_url = [];
      id = log_id;
      validity_period_start = tm;
      hash_func = sha256;
      public_key = key;
      signature_hash_func = details;
    },
    hex_encode log_id,
  )

-- `pubkeyToTransparencyLogInstance`. `der.Bytes` of a nil block is a nil dereference.
unfoldable pub pubkey_to_transparency_log_instance :
    (E : External) → Bytes → Bytes → E.Time → Result (TransparencyLog E.Time × Bytes)
unfolding log_of_der
pubkey_to_transparency_log_instance E origin key_bytes tm = elim (E.pem_decode key_bytes).0 [
  | none ↦ panic "invalid memory address or nil pointer dereference"
  | some der ↦ log_of_der E origin der tm
]
