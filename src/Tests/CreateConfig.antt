-- ===== src/Tests/CreateConfig.antt =====
-- The configuration job on a cluster in memory.
use scaffolding.Base.{
  ◌≡◌, ◌≢◌, refl, none, some, List, [], ◌∷◌, codes, Result, ok, ==-ne, bytes_dec, decimal,
  has_prefix,
}
use scaffolding.Base.Dict.{index, lookup, keys, insert, erase}
use scaffolding.Cluster.{Secret, found}
use scaffolding.Cluster.Memory.{memory, memory-IsLawful, find, store}
use scaffolding.Ctlog.Config.{decrypt_existing_private_key, extract_fulcio_root}
use scaffolding.Ctlog.Marshal.{marshal_config, fulcio_key}
use scaffolding.Ctlog.CreateConfig.{
  Flags, World, main, update_existing, with_config, private_key, public_key,
}
use scaffolding.Ctlog.CreateConfig.Frame.{main-Frames}
use scaffolding.Ctlog.CreateConfig.KeptKeys.{ReadsAt, update_existing-ReadsAt}
use scaffolding.Tests.Wire.{wire, write_parts, read_message, read_block}
use scaffolding.Tests.Logs.{written}

abbrev flags : Flags
flags = record {
  namespace = codes "ctlog-system";
  config_map = codes "ctlog-config";
  private_secret = [];
  secret = codes "ctlog-secrets";
  pubkey_secret = codes "ctlog-public-key";
  log_prefix = codes "log";
  fulcio_url = codes "http://fulcio";
  trillian_server = codes "trillian:80";
  key_type = codes "ecdsa";
  curve_type = codes "p256";
  key_password = codes "test";
}

abbrev world : World wire
world = record {
  client = ok tt;
  get_config_map = λ ns name.
      ok (record { data_of = some ((codes "treeID", codes "42") ∷ []); binary_data = none });
  parse_url = λ u. ok tt;
  root_cert = λ u. ok (6 ∷ []);
  generate_rsa = λ n. ok (n ∷ []);
  generate_ecdsa = λ c. ok c;
}

abbrev neighbour : Secret
neighbour = record { namespace = codes "ctlog-system"; name = codes "other"; entries = none }

main-Frames_example :
    memory.get (codes "other") (main wire world memory flags (neighbour ∷ [])).1
    ≡ memory.get (codes "other") (neighbour ∷ [])
unfolding bytes_dec
main-Frames_example =
    main-Frames wire world memory flags memory-IsLawful (codes "other")
      (==-ne (codes "other") flags.secret refl) (==-ne (codes "other") flags.pubkey_secret refl)
      (neighbour ∷ [])

abbrev stored_config : Secret
stored_config = record {
  namespace = codes "ctlog-system";
  name = flags.secret;
  entries = some written;
}

finds : memory.get flags.secret (stored_config ∷ []) ≡ found stored_config
unfolding find bytes_dec
finds = refl

two_names : flags.secret ≢ flags.pubkey_secret
unfolding bytes_dec
two_names = ==-ne flags.secret flags.pubkey_secret refl

abbrev run_update : Result (Unit {0}) × List Secret
run_update =
    update_existing wire world memory flags (with_config written none) (6 ∷ []) (stored_config ∷ [])

updates : run_update.0 ≡ ok tt
unfolding update_existing find store write_parts read_message read_block bytes_dec lookup keys
    insert fulcio_key decimal marshal_config has_prefix with_config decrypt_existing_private_key
    extract_fulcio_root erase
updates = refl

update_existing-ReadsAt_example :
    ReadsAt private_key (index written private_key) (memory.get flags.secret run_update.1)
    × ReadsAt public_key (index written public_key) (memory.get flags.secret run_update.1)
    × ReadsAt public_key (index written public_key) (memory.get flags.pubkey_secret run_update.1)
update_existing-ReadsAt_example =
    update_existing-ReadsAt wire world memory flags memory-IsLawful two_names (stored_config ∷ [])
      stored_config none (6 ∷ []) finds updates
