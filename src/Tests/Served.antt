-- ===== src/Tests/Served.antt =====
-- The TUF server on a disk of files in memory, with a repository that is a small tree.
use scaffolding.Base.{
  ℕ, ◌+◌, ◌≡◌, refl, Bytes, false, none, some, [], ◌∷◌, codes, ok, bytes_dec, Option, Error,
  has_suffix,
}
use scaffolding.Base.Dict.{Dict, lookup}
use scaffolding.Cluster.Memory.{memory, memory-IsLawful, find, store}
use scaffolding.Files.{KeepsFiles}
use scaffolding.Repo.Create.{Call, file, tuf, Disk}
use scaffolding.Repo.Archive.Unpack.{Unpacked}
use scaffolding.Repo.Compress.Listing.{tape, tape-KeepsItems, readable}
use scaffolding.Repo.Compress.Copied.{tree_entries}
use scaffolding.Repo.Paths.{join, valid_rel_path}
use scaffolding.Server.Init.{
  ServerWorld, Place, file_system, make_repo, repo_entries, root_of, init_tuf_repo,
}
use scaffolding.Server.Init.Agree.{Stored}
use scaffolding.Server.Init.Served.{left_out, archived, init_tuf_repo-Served}
use scaffolding.Tests.Samples.{crypto}
use scaffolding.Tests.Disk.{roots, signing, metadata, clock}
use scaffolding.Tests.Server.{codec}
use scaffolding.Tests.Serving.{flags, names_differ}
use scaffolding.Tests.Copies.{
  act, act_opens, act_appends, act_others, tree, text, read_back, unpacks, named,
}

unfoldable run : Call ℕ → Dict Bytes → Option Error × Dict Bytes
unfolding act
run (file c) σ = (none, act c σ)
run (tuf c) σ = (none, σ)

abbrev memory_disk : Disk ℕ
memory_disk = record {
  State = Dict Bytes;
  temp_dir = codes "/tmp";
  run = run;
  add_date = λ t y m d. t + m;
}

abbrev world : ServerWorld
world = record {
  maker = record {
    external = crypto;
    codec = codec;
    roots = roots;
    signing = signing;
    marshal = metadata;
    clock = clock;
    disk = memory_disk;
  };
  exists = λ p σ. false;
  read_dir = λ d σ. ok (record { name = codes "readme"; is_dir = false } ∷ []);
  read_file = λ p σ. ok (1 ∷ 2 ∷ []);
  get_meta = λ σ. ok ((codes "root.json", 7 ∷ []) ∷ []);
  dir_fs = λ d σ. readable (some tree) text;
  writer = tape;
  fresh = [];
  written = λ items. codes "archive";
  reader = λ s. ok read_back;
  mkdir_temp = λ name σ. (ok (codes "/tmp/tuf-serve1"), σ);
  config = ok tt;
  clientset = ok tt;
  secrets = memory;
  listen = λ d σ. none;
}

abbrev place : Place world
place = record { files = []; cluster = [] }

disk-KeepsFiles : KeepsFiles (file_system world)
unfolding run act
disk-KeepsFiles = record {
  read = lookup;
  succeeds = λ c σ. refl;
  opened = act_opens;
  appended = act_appends;
  closed = λ p q σ. refl;
  made = λ p q σ. refl;
  others = act_others;
}

initialises : (init_tuf_repo world flags (codes "/srv") place).0 ≡ ok tt
unfolding init_tuf_repo bytes_dec find store lookup join has_suffix valid_rel_path run
initialises = refl

init_tuf_repo-Served_example :
    let after = (init_tuf_repo world flags (codes "/srv") place).1 in
    (dir root_json : Bytes) × (σ : Dict Bytes) × (make_repo world flags [] ≡ (ok dir, σ))
    × (root_of world σ ≡ ok root_json)
    × Stored world flags false
        (repo_entries world root_json (world.written (archived world tree text)))
        []
        after.cluster
    × Unpacked
        (file_system world)
        disk-KeepsFiles
        (codes "/srv")
        (tree_entries text left_out (codes "repository") (codes "repository") tree)
        σ
        after.files
init_tuf_repo-Served_example =
    init_tuf_repo-Served world flags disk-KeepsFiles tape-KeepsItems (codes "srv") place tree text
      read_back memory-IsLawful names_differ (λ dir σ made. refl) named refl refl unpacks
      initialises
