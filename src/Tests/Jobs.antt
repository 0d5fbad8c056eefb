-- ===== src/Tests/Jobs.antt =====
-- The jobs with concrete keys on a cluster in memory.
use scaffolding.Base.{
  ℕ, ◌+◌, ◌<◌, ◌≡◌, ◌≢◌, refl, Bytes, false, Option, none, some, List, [], ◌∷◌, codes, errorf,
  Result, ok, ==-ne, bytes_dec, arith, ltb, if◌then◌else◌,
}
use scaffolding.Base.Int.{pos}
use scaffolding.Base.Dict.{Dict, lookup}
use scaffolding.Cluster.{Secret}
use scaffolding.Cluster.Memory.{memory, memory-IsLawful, find, store}
use scaffolding.Secret.Effects.{Shows, overlay, stored}
use scaffolding.Ctlog.CreateConfig.{tree_id}
use scaffolding.Jobs.Crypto.{Crypto, check_namespace}
use scaffolding.Jobs.RootCertificate.{CertFlags, AllKeys, create_all}
use scaffolding.Jobs.Fulcio.{create_certs, all_entries, public_entries}
use scaffolding.Jobs.Fulcio.Agree.{create_certs-Shows}
use scaffolding.Jobs.Tsa.{create_cert_chain}
use scaffolding.Jobs.Tsa.Once.{NotEmpty, create_cert_chain_once}
use scaffolding.Jobs.Trees.{
  Tree, TreeWorld, TreeFlags, create_tree, store_new_tree, Answer, updated, unavailable,
  AdminClient, UpdateFlags, update_request, update_tree, update_tree_main,
}
use scaffolding.Jobs.Trees.Retry.{IsUnavailable, update_tree-final}
use scaffolding.Jobs.Trees.TreeId.{IsInt64, store_new_tree-tree_id}

-- Keys and blocks are texts that are not empty.
abbrev keyring : Crypto
keyring = record {
  PrivateKey = Bytes;
  PublicKey = Bytes;
  Block = Bytes;
  Signer = Bytes;
  Chain = Bytes;
  Time = ℕ;
  client = ok tt;
  generate_key = ok (1 ∷ []);
  public = λ k. k;
  marshal_pkcs8_private_key = ok;
  marshal_pkix_public_key = ok;
  pem_block = λ kind d. 5 ∷ d;
  pem_encode_to_memory = λ b. some (4 ∷ b);
  encrypt_pkcs8_private_key = λ d p. ok d;
  encrypt_pem_block = λ kind d p. ok d;
  new_uuid = 9 ∷ [];
  random_serial = ok 3;
  now = 0;
  add_years = λ n t. t + n;
  create_certificate = λ t k. ok k;
  load_signer = ok;
  new_timestamping_cert_with_chain = ok;
  marshal_certificates = λ c. ok (7 ∷ c);
}

keyring-NotEmpty : NotEmpty keyring
keyring-NotEmpty = record {
  pem = λ b p e q. cc (e, q);
  uuid = λ q. cc (q);
  chain = λ c s e q. cc (e, q);
}

abbrev run_chain : Result (Unit {0}) × List Secret
run_chain = create_cert_chain keyring (codes "tsa") (codes "chain") memory []

makes_chain : run_chain.0 ≡ ok tt
unfolding create_cert_chain check_namespace find store bytes_dec
makes_chain = refl

create_cert_chain_once_example :
    create_cert_chain keyring (codes "tsa") (codes "chain") memory run_chain.1
    ≡ (ok tt, run_chain.1)
create_cert_chain_once_example =
    create_cert_chain_once keyring (codes "tsa") (codes "chain") memory memory-IsLawful
      keyring-NotEmpty [] makes_chain

abbrev cert_flags : CertFlags
cert_flags = record {
  namespace = codes "fulcio-system";
  secret = codes "fulcio-secrets";
  pubkey_secret = codes "fulcio-pub-key";
  cert_organization = [];
  cert_country = [];
  cert_province = [];
  cert_locality = [];
  cert_address = [];
  cert_postal = [];
}

fulcio_names : cert_flags.secret ≢ cert_flags.pubkey_secret
unfolding bytes_dec
fulcio_names = ==-ne cert_flags.secret cert_flags.pubkey_secret refl

abbrev run_certs : Result (Unit {0}) × List Secret
run_certs = create_certs keyring cert_flags memory []

makes_certs : run_certs.0 ≡ ok tt
unfolding create_certs check_namespace find store bytes_dec
makes_certs = refl

create_certs-Shows_example :
    (keys : AllKeys) × (create_all keyring cert_flags ≡ ok keys)
    × Shows
        (overlay (all_entries keys) (stored (memory.get cert_flags.secret [])))
        (memory.get cert_flags.secret run_certs.1)
    × Shows
        (overlay (public_entries keys) (stored (memory.get cert_flags.pubkey_secret [])))
        (memory.get cert_flags.pubkey_secret run_certs.1)
create_certs-Shows_example =
    create_certs-Shows keyring cert_flags memory memory-IsLawful [] fulcio_names makes_certs

abbrev tree : Tree
tree = record {
  tree_id = pos 42;
  tree_state = 1;
  tree_type = 1;
  display_name = [];
  description = [];
  max_root_duration = pos 3600;
}

abbrev tree_world : TreeWorld
tree_world = record {
  State = Dict Bytes;
  client = ok tt;
  get_config_map = λ ns name σ. ok (some σ);
  update_config_map = λ ns name d σ. (none, d);
  tree_state_value = (codes "ACTIVE", 1) ∷ [];
  tree_type_value = (codes "LOG", 1) ∷ [];
  dial_options = ok tt;
  new_client = λ a. ok tt;
  create_and_init_tree = λ t σ. (ok (record t { tree_id = pos 42 }), σ);
}

abbrev tree_flags : TreeFlags
tree_flags = record {
  namespace = codes "rekor-system";
  config_map = codes "rekor-config";
  admin_server = codes "log-server:80";
  tree_state = codes "ACTIVE";
  tree_type = codes "LOG";
  display_name = [];
  description = [];
  max_root_duration = pos 3600;
  force = false;
}

stores : (store_new_tree tree_world tree_flags [] []).0 ≡ ok tt
unfolding store_new_tree lookup bytes_dec
stores = refl

store_new_tree-tree_id_example :
    (tree : Tree) × ((create_tree tree_world tree_flags []).0 ≡ ok tree)
    × (updated : Dict Bytes) × ((store_new_tree tree_world tree_flags [] []).1
        ≡ (tree_world.update_config_map tree_flags.namespace tree_flags.config_map updated
            (create_tree tree_world tree_flags []).1).1)
    × ((binary : Option (Dict Bytes))
        → IsInt64 tree.tree_id
        → tree_id (record { data_of = some updated; binary_data = binary }) ≡ ok tree.tree_id)
store_new_tree-tree_id_example = store_new_tree-tree_id tree_world tree_flags [] [] stores

-- The server is unavailable twice.
abbrev answers : ℕ → Answer
answers i = if ltb i 2 then unavailable (errorf "unavailable") else updated tree

abbrev admin : AdminClient
admin = record {
  tree_states = ok ((codes "FROZEN", 2) ∷ []);
  tree_types = ok [];
  dial_options = ok tt;
  new_client = λ a. ok tt;
  update_tree = λ t paths i. answers i;
  format_tree = λ t. t.description;
  format_state = λ n. codes "FROZEN";
}

abbrev update_flags : UpdateFlags
update_flags = record {
  admin_server = codes "log:80";
  tree_state = codes "FROZEN";
  tree_id = pos 42;
  tree_type = [];
  print_tree = false;
}

abbrev request : Tree × List Bytes
request = (
  record {
    tree_id = pos 42;
    tree_state = 2;
    tree_type = 0;
    display_name = [];
    description = [];
    max_root_duration = pos 0;
  },
  codes "tree_state" ∷ [],
)

requests : update_request admin update_flags ≡ ok request
unfolding update_request lookup bytes_dec
requests = refl

twice : (j : ℕ) → j < 2 → IsUnavailable (answers j)
twice j l = ground arith

prints :
    update_tree_main admin update_flags 5
    ≡ ok (codes "FROZEN" ∷ codes "Completed successfully" ∷ [])
unfolding update_tree_main lookup bytes_dec
prints = refl

update_tree-final_example : update_tree admin update_flags 5 ≡ ok tree
update_tree-final_example =
    update_tree-final admin update_flags request.0 request.1 2 5 requests refl refl (omega arith)
      twice (λ u. u)
