-- ===== src/Ctlog/CreateConfig.antt =====
-- tools/ctlog/cmd/ctlog/createctconfig/main.go: the job that keeps the log's configuration in a
-- secret of the cluster.
pub mod Frame
pub mod KeptKeys
use scaffolding.Base.{
  ℕ, Bytes, Bool, true, false, not, ◌&&◌, ◌||◌, Option, none, some, String, List, [], ◌∷◌, codes,
  Result, ok, err, panic, exit, errorf, wrap, or_error, or_panic, or_fatal, ltb, length, ◌==◌,
  if◌then◌else◌,
}
use scaffolding.Base
use scaffolding.Base.Int.{ℤ, pos, parse_int64}
use scaffolding.Base.Dict.{Dict, lookup, index, insert, erase}
use scaffolding.Cluster.{
  Secret, contents, Got, found, not_found, failed, SecretInterface, Exec, continue, ◌>>=◌, ◌>>◌,
  lift, handle,
}
use scaffolding.Secret.{reconcile_secret}
use scaffolding.Ctlog.External.{Library}
use scaffolding.Ctlog.Config.{Config, add_fulcio_root, decrypt_existing_private_key}
use scaffolding.Ctlog.Marshal.{marshal_config, unmarshal}

abbrev pub tree_key : Bytes
tree_key = codes "treeID"

abbrev pub config_key : Bytes
config_key = codes "config"

abbrev pub private_key : Bytes
private_key = codes "private"

abbrev pub public_key : Bytes
public_key = codes "public"

-- The flags and the variable NAMESPACE.
pub record Flags : Type 0 where
  pub namespace : Bytes
  pub config_map : Bytes
  pub private_secret : Bytes
  pub secret : Bytes
  pub pubkey_secret : Bytes
  pub log_prefix : Bytes
  pub fulcio_url : Bytes
  pub trillian_server : Bytes
  pub key_type : Bytes
  pub curve_type : Bytes
  pub key_password : Bytes

-- `corev1.ConfigMap`, with nil maps as `none`
pub record ConfigMap : Type 0 where
  pub data_of : Option (Dict Bytes)
  pub binary_data : Option (Dict Bytes)

-- What the job reads and makes outside the secrets: the client of the cluster, a config map, the
-- root of a Fulcio server at an address, and new keys, RSA of some bits or ECDSA on a named curve.
pub record World (L : Library) : Type 0 where
  pub client : Result (Unit {0})
  pub get_config_map : Bytes → Bytes → Result ConfigMap
  pub parse_url : Bytes → Result (Unit {0})
  pub root_cert : Bytes → Result Bytes
  pub generate_rsa : ℕ → Result L.PrivateKey
  pub generate_ecdsa : Bytes → Result L.PrivateKey

abbrev pub supported_curves : List Bytes
supported_curves = codes "p256" ∷ codes "p384" ∷ codes "p521" ∷ []

unfoldable pub is_among : Bytes → List Bytes → Bool
is_among s [] = false
is_among s (t ∷ ts) = t == s || is_among s ts

-- The checks before anything is read.
unfoldable pub check_flags : Flags → Result (Unit {0})
unfolding is_among
check_flags flags =
    if flags.namespace == []
    then panic "env variable NAMESPACE must be set"
    else if not (flags.key_type == codes "rsa") && not (flags.key_type == codes "ecdsa")
    then panic "invalid keytype specified: %s, support for [rsa,ecdsa]"
    else if not (is_among flags.curve_type supported_curves)
    then panic "invalid curvetype specified: %s, support for [p256,p384,p521]"
    else ok tt

-- The data of what `Get` returns; with an error the client returns an empty secret.
unfoldable pub existing_data : Got → Result (Option (Dict Bytes))
existing_data (found s) = ok s.entries
existing_data not_found = ok none
existing_data (failed e) = exit 1

-- An entry that is there; the API gives no entry with a nil value.
abbrev pub has_entry : Option (Dict Bytes) → Bytes → Bool
has_entry d k = elim (lookup k (contents d)) [ none ↦ false | some v ↦ true ]

-- An entry that can be left out, as `none` or the empty text for nil.
abbrev pub config_of_map : ConfigMap → Option Bytes
config_of_map cm = lookup config_key (contents cm.binary_data)

-- A tree id that is missing ends the job with the status of `os.Exit(-1)`.
unfoldable pub tree_id : ConfigMap → Result ℤ
tree_id cm = elim (lookup tree_key (contents cm.data_of)) [
  | none ↦ exit 255
  | some id ↦ or_panic "Invalid TreeID %s : %v" (parse_int64 id)
]

-- The configuration of the secret, or else of the config map.
unfoldable pub with_config : Dict Bytes → Option Bytes → Dict Bytes
with_config d cm = elim (lookup config_key d) [
  | some v ↦ d
  | none ↦ elim cm [ none ↦ d | some v ↦ insert config_key v d ]
]

module _ (L : Library) (W : World L) (S : SecretInterface) (flags : Flags) where
  -- A configuration with a key and its public key alone.
  abbrev new_config : L.PrivateKey → L.PublicKey → Config L
  new_config key public = record {
    priv_key = key;
    priv_key_password = [];
    pub_key = some public;
    log_id = pos 0;
    log_prefix = [];
    trillian_server_addr = [];
    fulcio_certs = [];
  }

  -- `createConfigWithKeys`; a key that is no signer is fatal.
  unfoldable pub create_config_with_keys : Result (Config L)
  create_config_with_keys =
      Base.◌>>=◌
        (if flags.key_type == codes "rsa"
          then wrap "failed to generate Private RSA Key: %w" (W.generate_rsa 4096)
          else wrap "failed to generate Private ECDSA Key: %w" (W.generate_ecdsa flags.curve_type))
        (λ key. elim (L.signer_public key) [
          | none ↦ exit 1
          | some public ↦ ok (new_config key public)
        ])

  -- `createConfigFromExistingSecret`, from what `Get` returned
  unfoldable pub config_from_secret : Got → Result (Config L)
  config_from_secret not_found = err (errorf "getting an existing private key secret: %w")
  config_from_secret (failed e) = wrap "getting an existing private key secret: %w" (err e)
  config_from_secret (found s) =
      let private = index (contents s.entries) private_key in
      if ltb 0 (length private)
      then Base.◌>>=◌
          (wrap "decrypting existing private key secret: %w"
            (decrypt_existing_private_key L private flags.key_password))
          (λ (key, public). ok (new_config key public))
      else err (errorf "secret missing private key entry")

  -- `AddFulcioRoot` whose error is only logged.
  unfoldable pub add_root_or_log : Config L → Bytes → Result (Config L)
  unfolding add_fulcio_root
  add_root_or_log c chain_pem = elim (add_fulcio_root L c chain_pem) [
    | ok c' ↦ ok c'
    | err e ↦ ok c
    | panic t ↦ panic t
    | exit n ↦ exit n
  ]

  -- The configuration with the flags' values, and its entries.
  unfoldable pub new_entries : Config L → ℤ → Bytes → Result (Dict Bytes)
  unfolding add_root_or_log marshal_config
  new_entries c tree_id chain_pem =
      Base.◌>>=◌
        (add_root_or_log
          (record c {
            priv_key_password = flags.key_password;
            log_id = tree_id;
            log_prefix = flags.log_prefix;
            trillian_server_addr = flags.trillian_server;
          })
          chain_pem)
        (λ c. or_fatal (marshal_config L c))

  -- The secret that holds the public key alone.
  unfoldable pub write_public : Bytes → Exec S.State (Unit {0})
  unfolding reconcile_secret
  write_public public =
      handle (or_panic "Failed to reconcile public key secret %s/%s: %v")
        (reconcile_secret S flags.pubkey_secret flags.namespace ((public_key, public) ∷ []))

  -- A new configuration, after which the job ends.
  unfoldable pub create_new : ℤ → Bytes → Exec S.State (Unit {0})
  unfolding create_config_with_keys config_from_secret new_entries write_public
  create_new tree_id chain_pem σ =
      continue
        (or_fatal (
          if flags.private_secret == []
          then create_config_with_keys
          else config_from_secret (S.get flags.private_secret σ)))
        (λ c. do
          config_map ← lift (new_entries c tree_id chain_pem)
          handle or_fatal (reconcile_secret S flags.secret flags.namespace config_map)
          write_public (index config_map public_key)
          lift (exit 0))
        σ

  -- The entries of the configuration that is there, with the root added and without the keys.
  unfoldable pub updated_entries : Dict Bytes → Bytes → Result (Dict Bytes)
  unfolding add_root_or_log unmarshal marshal_config
  updated_entries existing chain_pem = Base.◌>>=◌ (or_fatal (unmarshal L existing)) λ c.
      Base.◌>>=◌ (add_root_or_log c chain_pem) λ c.
        Base.◌>>=◌ (or_fatal (marshal_config L c))
          λ marshaled. ok (erase public_key (erase private_key marshaled))

  unfoldable pub update_existing : Dict Bytes → Bytes → Exec S.State (Unit {0})
  unfolding updated_entries write_public
  update_existing existing chain_pem = do
    marshaled ← lift (updated_entries existing chain_pem)
    handle (or_panic "Failed to reconcile secret %s/%s: %v")
        (reconcile_secret S flags.secret flags.namespace marshaled)
    write_public (index existing public_key)

  -- The choice between the two, on the entries of the secret that is there.
  unfoldable pub create_or_update :
      Option (Dict Bytes) → Option Bytes → ℤ → Bytes → Exec S.State (Unit {0})
  unfolding create_new update_existing with_config
  create_or_update existing cm_config tree_id chain_pem =
      if not (has_entry existing private_key)
        || not (has_entry existing public_key)
        || (not (has_entry existing config_key) && elim cm_config [ none ↦ true | some v ↦ false ])
      then create_new tree_id chain_pem
      else update_existing (with_config (contents existing) cm_config) chain_pem

  -- `main`
  unfoldable pub main : Exec S.State (Unit {0})
  unfolding check_flags existing_data tree_id create_or_update
  main = do
    lift (check_flags flags)
    lift (or_panic "Failed to get clientset: %v" W.client)
    cm ← lift (
        or_panic "Failed to get the configmap %s/%s: %v"
          (W.get_config_map flags.namespace flags.config_map))
    tree ← lift (tree_id cm)
    lift (or_panic "Invalid fulcioURL %s : %v" (W.parse_url flags.fulcio_url))
    root ← lift (or_panic "Failed to fetch fulcio Root cert: %w" (W.root_cert flags.fulcio_url))
    λ σ.
        continue (existing_data (S.get flags.secret σ))
          (λ existing. create_or_update existing (config_of_map cm) tree root) σ
