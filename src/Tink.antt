-- ===== src/Tink.antt =====
-- tools/create-tink-keyset/cmd/create-tink-keyset/app/root.go: a signing key made from a template,
-- encrypted, with its public key and its id, in three files.
pub mod Written
use scaffolding.Base.{
  ℕ, Bytes, Bool, true, false, not, Option, none, some, [], ◌∷◌, codes, Result, ok, panic, exit,
  or_fatal, has_prefix, ◌==◌, if◌then◌else◌,
}
use scaffolding.Base
use scaffolding.Base.Base64.{encode_to_string}
use scaffolding.Base.Dict.{Dict, lookup}
use scaffolding.Cluster.{Exec, ◌>>=◌, ◌>>◌, lift, handle}
use scaffolding.Files.{FileSystem, open_file, write, close, file_call}
use scaffolding.Repo.External.{Curve, p256, p384, p521, PublicKey, ed25519}

-- The templates of the package `signature` of Tink.
pub data KeyTemplate : Type 0 where
  ed25519_template ecdsa_p256_template ecdsa_p384_sha384_template ecdsa_p521_template : KeyTemplate

abbrev pub alg_to_key_template : Dict KeyTemplate
alg_to_key_template =
    (codes "ED25519", ed25519_template)
    ∷ (codes "ECDSA_P256", ecdsa_p256_template)
    ∷ (codes "ECDSA_P384_SHA384", ecdsa_p384_sha384_template)
    ∷ (codes "ECDSA_P521", ecdsa_p521_template)
    ∷ []

abbrev pub alg_to_curve : Dict Curve
alg_to_curve =
    (codes "ECDSA_P256", p256) ∷ (codes "ECDSA_P384_SHA384", p384) ∷ (codes "ECDSA_P521", p521) ∷ []

-- The key of the primary entry of a keyset: the bytes, or the point.
pub data TinkKey : Type 0 where
  tink_ed25519 : Bytes → TinkKey
  tink_ecdsa : Bytes → TinkKey
  other_tink_key : TinkKey

-- Tink, its client of a key management service, and the packages `crypto/ecdh`, `crypto/x509` and
-- `note` on a public key, which is `none` where the variable is nil.
pub record Tink : Type 1 where
  pub Client : Type 0
  pub Aead : Type 0
  pub Handle : Type 0
  pub new_client : Bytes → Result Client
  pub get_aead : Client → Bytes → Result Aead
  pub new_handle : KeyTemplate → Result Handle
  -- what `Write` puts into its buffer
  pub write_keyset : Handle → Aead → Result Bytes
  pub public : Handle → Result Handle
  pub primary : Handle → Result TinkKey
  pub new_public_key : Curve → Bytes → Result PublicKey
  pub marshal_pkix_public_key : Option PublicKey → Result Bytes
  pub key_hash : Bytes → Option PublicKey → Result Bytes

pub record TinkFlags : Type 0 where
  pub key_template : Bytes
  pub origin : Bytes
  pub key_encryption_key_uri : Bytes
  pub out : Bytes
  pub public_key_out : Bytes
  pub key_id_out : Bytes

-- The checks of the flags, in their order.
unfoldable pub check_tink_flags : TinkFlags → Result (Unit {0})
check_tink_flags flags =
    if flags.key_template == []
    then exit 1
    else if flags.origin == []
    then exit 1
    else if flags.key_encryption_key_uri == []
    then exit 1
    else if not (has_prefix flags.key_encryption_key_uri (codes "gcp-kms://"))
    then exit 1
    else if flags.out == []
    then exit 1
    else if flags.public_key_out == []
    then exit 1
    else if flags.key_id_out == []
    then exit 1
    else ok tt

module _ (T : Tink) (flags : TinkFlags) where
  -- The template of the name that was given.
  unfoldable pub template_of : Option KeyTemplate → Result KeyTemplate
  template_of none = exit 1
  template_of (some t) = ok t

  -- A curve that is missing in the map is nil, and its method panics.
  unfoldable pub point_key : Option Curve → Bytes → Result (Option PublicKey)
  point_key none point = panic "invalid memory address or nil pointer dereference"
  point_key (some curve) point =
      Base.◌>>=◌ (or_fatal (T.new_public_key curve point)) λ k. ok (some k)

  -- The `switch` over the type of the key.
  unfoldable pub public_key_of : TinkKey → Result (Option PublicKey)
  unfolding point_key lookup
  public_key_of (tink_ed25519 bytes) = ok (some (ed25519 bytes))
  public_key_of (tink_ecdsa point) = point_key (lookup flags.key_template alg_to_curve) point
  public_key_of other_tink_key = ok none

  -- The handle and the encrypted keyset.
  unfoldable pub new_keyset : Result (T.Handle × Bytes)
  unfolding template_of lookup
  new_keyset = Base.◌>>=◌ (or_fatal (T.new_client flags.key_encryption_key_uri)) λ client.
      Base.◌>>=◌ (or_fatal (T.get_aead client flags.key_encryption_key_uri)) λ aead.
        Base.◌>>=◌ (template_of (lookup flags.key_template alg_to_key_template)) λ template.
          Base.◌>>=◌ (or_fatal (T.new_handle template)) λ handle.
            Base.◌>>=◌ (or_fatal (T.write_keyset handle aead)) λ keyset. ok (handle, keyset)

  -- The public key of a handle, and its encoding.
  unfoldable pub public_part : T.Handle → Result (Option PublicKey × Bytes)
  unfolding public_key_of
  public_part h = Base.◌>>=◌ (or_fatal (T.public h)) λ public.
      Base.◌>>=◌ (or_fatal (T.primary public)) λ entry. Base.◌>>=◌ (public_key_of entry) λ key.
        Base.◌>>=◌ (or_fatal (T.marshal_pkix_public_key key))
          λ pkix. ok (key, encode_to_string pkix)

  module _ (F : FileSystem) where
    -- `os.Create` and `Write`, whose errors are fatal.
    unfoldable pub write_out : Bytes → Bytes → Exec F.State (Unit {0})
    write_out path text =
        handle or_fatal (file_call F (open_file path 0o666))
        >> handle or_fatal (file_call F (write path text))

    -- The deferred calls, the last one first, whose errors are dropped.
    unfoldable pub close_files : Exec F.State (Unit {0})
    close_files σ = (
      ok tt,
      (file_call F (close flags.out)
          (file_call F (close flags.public_key_out)
            (file_call F (close flags.key_id_out) σ).1).1).1,
    )

    -- `Run` of the command
    unfoldable pub create_keyset : Exec F.State (Unit {0})
    unfolding check_tink_flags new_keyset public_part write_out close_files
    create_keyset = do
      lift (check_tink_flags flags)
      (h, keyset) ← lift new_keyset
      write_out flags.out keyset
      (key, encoded) ← lift (public_part h)
      write_out flags.public_key_out encoded
      log_id ← lift (or_fatal (T.key_hash flags.origin key))
      write_out flags.key_id_out (encode_to_string log_id)
      close_files
