-- ===== src/Tests/Serving.antt =====
-- The TUF server in a world of a disk that is written down and of secrets in memory.
use scaffolding.Base.{
  ◌≡◌, ◌≢◌, ◌↔◌, refl, Bytes, true, false, some, none, List, [], ◌∷◌, map, codes, ok, ==-ne,
  bytes_dec, has_suffix, ◌==◌, inr, if◌then◌else◌,
}
use scaffolding.Base.Dict.{Dict, lookup, insert}
use scaffolding.Cluster.Memory.{memory}
use scaffolding.Repo.Paths.{join}
use scaffolding.Repo.Compress.Listing.{tape, readable}
use scaffolding.Server.{DirEntry}
use scaffolding.Server.Init.{Maker, ServerWorld, ServerFlags, Place, list_keys}
use scaffolding.Server.Init.KeyFiles.{IsKeyFile, list_keys_iff}
use scaffolding.Server.Run.{run_server}
use scaffolding.Server.Run.Kept.{run_server-Kept}
use scaffolding.Tests.Samples.{crypto}
use scaffolding.Tests.Disk.{log_disk, archive, roots, signing, metadata, clock}
use scaffolding.Tests.Server.{codec}
use scaffolding.Tests.Compress.{tree}

abbrev maker : Maker
maker = record {
  external = crypto;
  codec = codec;
  roots = roots;
  signing = signing;
  marshal = metadata;
  clock = clock;
  disk = log_disk;
}

abbrev key_listing : List DirEntry
key_listing =
    record { name = codes "root.json"; is_dir = false }
    ∷ record { name = codes "notes"; is_dir = false }
    ∷ []

abbrev world : ServerWorld
world = record {
  maker = maker;
  exists = λ p σ. true;
  read_dir = λ d σ.
      if d == codes "/run"
      then ok (record { name = codes "readme"; is_dir = false } ∷ [])
      else ok key_listing;
  read_file = λ p σ. ok (1 ∷ 2 ∷ []);
  get_meta = λ σ. ok ((codes "root.json", 7 ∷ []) ∷ []);
  dir_fs = λ d σ. readable (some tree) (λ p. 1 ∷ []);
  writer = tape;
  fresh = [];
  written = λ items. codes "archive";
  reader = λ s. archive;
  mkdir_temp = λ name σ. (ok (codes "/tmp/tuf-serve1"), σ);
  config = ok tt;
  clientset = ok tt;
  secrets = memory;
  listen = λ d σ. none;
}

abbrev pub flags : ServerFlags
flags = record {
  namespace = codes "tuf-system";
  file_dir = codes "/run/";
  target_dir = codes "/srv";
  mode = codes "init-no-overwrite";
  secret_name = codes "tuf-root";
  keys_secret_name = codes "tuf-keys";
  no_k8s = false;
  options = record {
    add_metadata_targets = true;
    add_trusted_root = true;
    add_signing_config = true;
  };
}

abbrev place : Place world
place = record { files = []; cluster = [] }

pub names_differ : flags.secret_name ≢ flags.keys_secret_name
unfolding bytes_dec
names_differ = ==-ne flags.secret_name flags.keys_secret_name refl

abbrev keys_read : Dict Bytes
keys_read = (codes "root.json", 1 ∷ 2 ∷ []) ∷ []

lists_keys : list_keys world (codes "/tmp/tuf/") [] ≡ ok keys_read
unfolding list_keys bytes_dec has_suffix insert join
lists_keys = refl

list_keys_iff_example :
    (entries : List DirEntry) × (world.read_dir (join (codes "/tmp/tuf/") (codes "keys")) []
      ≡ ok entries)
    × ((lookup (codes "root.json") keys_read ≡ some (1 ∷ 2 ∷ []))
        ↔ IsKeyFile world
            (codes "/tmp/tuf/")
            []
            (map (λ e. e.name) entries)
            (codes "root.json")
            (1 ∷ 2 ∷ []))
list_keys_iff_example =
    list_keys_iff world (codes "/tmp/tuf/") [] keys_read (codes "root.json") (1 ∷ 2 ∷ []) lists_keys

given : (flags.target_dir == []) ≡ false
unfolding bytes_dec
given = refl

run_server-Kept_example : (run_server world flags place).1 ≡ place
run_server-Kept_example = run_server-Kept world flags place given (inr (refl, refl))
