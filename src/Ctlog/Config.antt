-- ===== src/Ctlog/Config.antt =====
-- tools/ctlog/pkg/ctlog/config.go
pub mod Roots
pub mod Empty
use scaffolding.Base.{
  ℕ, zero, suc, ◌+◌, Bytes, Bool, true, false, String, Option, none, some, List, [], ◌∷◌, ◌++◌,
  Result, ok, err, panic, exit, errorf, wrapf, wrap, or_error, or_panic, ◌>>=◌, codes, decimal,
  last, not, ◌==◌, if◌then◌else◌,
}
use scaffolding.Base.Int.{ℤ, decimal_ℤ}
use scaffolding.Ctlog.External.{Library}

abbrev pub config_key : Bytes
config_key = codes "config"

abbrev pub private_key : Bytes
private_key = codes "private"

abbrev pub public_key : Bytes
public_key = codes "public"

abbrev pub legacy_root_ca_key : Bytes
legacy_root_ca_key = codes "rootca"

abbrev pub roots_pem_file_dir : Bytes
roots_pem_file_dir = codes "/ctfe-keys/"

abbrev pub private_key_file : Bytes
private_key_file = codes "/ctfe-keys/private"

-- `Config`; a nil public key is `none`.
pub record Config (L : Library) : Type 0 where
  pub priv_key : L.PrivateKey
  pub priv_key_password : Bytes
  pub pub_key : Option L.PublicKey
  pub log_id : ℤ
  pub log_prefix : Bytes
  pub trillian_server_addr : Bytes
  pub fulcio_certs : List Bytes

module _ (L : Library) where
  open L.certs use {Cert, unmarshal as unmarshal_certs, marshal as marshal_cert}

  -- `certs[len(certs)-1]`, which is out of range for no certificates
  unfoldable pub last_cert : List Cert → Result Bytes
  last_cert [] = panic "index out of range [-1]"
  last_cert (c ∷ cs) = marshal_cert (last c cs)

  -- `extractFulcioRoot`
  unfoldable pub extract_fulcio_root : Bytes → Result Bytes
  unfolding last_cert
  extract_fulcio_root fulcio_root = do
    certs ← wrap "unable to unmarshal certficate chain: %w" (unmarshal_certs fulcio_root)
    last_cert certs

  -- The loop that looks for the root.
  unfoldable pub has_root : Bytes → List Bytes → Bool
  has_root root [] = false
  has_root root (fc ∷ rest) = if fc == root then true else has_root root rest

  -- `AddFulcioRoot`; with an error the configuration is the old one.
  unfoldable pub add_fulcio_root : Config L → Bytes → Result (Config L)
  unfolding has_root
  add_fulcio_root c fulcio_root = do
    root ← wrap "extracting fulcioRoot: %w" (extract_fulcio_root fulcio_root)
    if has_root root c.fulcio_certs
        then ok c
        else ok (record c { fulcio_certs = c.fulcio_certs ++ (root ∷ []) })

  -- The loop that leaves the root out.
  unfoldable pub without_root : Bytes → List Bytes → List Bytes
  without_root root [] = []
  without_root root (fc ∷ rest) =
      let kept = without_root root rest in if not (fc == root) then fc ∷ kept else kept

  -- `RemoveFulcioRoot`
  unfoldable pub remove_fulcio_root : Config L → Bytes → Result (Config L)
  unfolding without_root
  remove_fulcio_root c fulcio_root = do
    root ← wrap "extracting fulcioRoot: %w" (extract_fulcio_root fulcio_root)
    ok (record c { fulcio_certs = without_root root c.fulcio_certs })

  unfoldable pub show_certs : List Bytes → Bytes
  show_certs [] = []
  show_certs (cert ∷ rest) = codes "fulciocert:" ++ (0x0a ∷ (cert ++ (0x0a ∷ show_certs rest)))

  -- The public key at the end of `String`: left out unless the key is a signer and can be marshalled.
  -- `%s` of a nil slice prints nothing.
  unfoldable pub show_public : Config L → Bytes
  show_public c = elim (L.signer_public c.priv_key) [
    | none ↦ []
    | some key ↦ elim (L.marshal_pkix_public_key key) [
      | ok marshaled ↦ elim (L.pem_encode_to_memory (L.pem_block (codes "PUBLIC KEY") marshaled)) [
        | none ↦ codes "PublicKey:" ++ (0x0a ∷ 0x0a ∷ [])
        | some pem ↦ codes "PublicKey:" ++ (0x0a ∷ (pem ++ (0x0a ∷ [])))
      ]
      | _ ↦ []
    ]
  ]

  -- `fmt.Fprintf(&sb, "label %s\n", value)`, with what is written after it
  abbrev line : String → Bytes → Bytes → Bytes
  line label value rest = codes label ++ (value ++ (0x0a ∷ rest))

  -- `String`
  unfoldable pub show : Config L → Bytes
  unfolding show_certs show_public decimal_ℤ
  show c = line "PrivateKeyPassword: " c.priv_key_password (
      line "LogID: " (decimal_ℤ c.log_id) (
        line "LogPrefix: " c.log_prefix (
          line "TrillianServerAddr: " c.trillian_server_addr
            (show_certs c.fulcio_certs ++ show_public c))))

  -- The attempts to parse a decrypted key: PKCS #8, then PKCS #1, then SEC 1.
  unfoldable pub parse_private_key : Bytes → Result L.PrivateKey
  parse_private_key der = elim (L.parse_pkcs8_private_key der) [
    | ok key ↦ ok key
    | err e ↦ elim (L.parse_pkcs1_private_key der) [
      | ok key ↦ ok key
      | err e' ↦ wrap "failed to parse private key PEM: %w" (L.parse_ec_private_key der)
      | panic t ↦ panic t
      | exit n ↦ exit n
    ]
    | panic t ↦ panic t
    | exit n ↦ exit n
  ]

  -- `DecryptExistingPrivateKey`
  unfoldable pub decrypt_existing_private_key : Bytes → Bytes → Result (L.PrivateKey × L.PublicKey)
  unfolding parse_private_key
  decrypt_existing_private_key private password = do
    priv_pem ← or_error "did not find valid private PEM data" (L.pem_decode private)
    der ← wrap "failed to decrypt private PEMKeyFile: %w" (L.decrypt_pem_block priv_pem password)
    priv ← parse_private_key der
    public ← or_error "failed to convert private key to Signer" (L.signer_public priv)
    ok (priv, public)
