-- ===== src/Tests/Disk.antt =====
-- A disk on which every call succeeds and is written down.
use scaffolding.Base.{
  ℕ, ◌+◌, ◌<◌, ◌≡◌, ◌↔◌, refl, Bytes, true, false, none, List, [], ◌∷◌, ◌++◌, codes, Result, ok,
  All, arith, has_prefix, contains, bytes_dec,
}
use scaffolding.Base.Dict.{Dict}
use scaffolding.Files.{FileSystem, FileCall, path_of}
use scaffolding.Repo.{TargetWithMetadata, SigstoreCustomMetadata}
use scaffolding.Repo.External.{ed25519, sha256, sha512}
use scaffolding.Repo.Paths.{join, clean, valid_rel_path}
use scaffolding.Repo.Paths.Below.{IsBelow, join-IsBelow}
use scaffolding.Repo.Archive.{Entries, entry, end_of_archive, at_end, type_reg, uncompress}
use scaffolding.Repo.Archive.Safe.{uncompress-IsBelow}
use scaffolding.Repo.Keys.{
  get_key_with_details, parse_key, TransparencyLog, pubkey_to_transparency_log_instance,
}
use scaffolding.Repo.Keys.Details.{
  Supports, get_key_with_details-Supports, pubkey_to_transparency_log_instance_inj,
}
use scaffolding.Repo.TrustedRoot.{RootLib, construct_trusted_root}
use scaffolding.Repo.SigningConfig.{SigningLib}
use scaffolding.Repo.Create.{Call, Disk, create_repo_with_metadata}
use scaffolding.Repo.Create.Plan.{plan, Ends, Succeeds, create_repo_with_metadata-Ends}
use scaffolding.Repo.Options.{Clock, create_repo}
use scaffolding.Repo.Options.Targets.{AreFiles, create_repo-AreFiles}
use scaffolding.Tests.Samples.{crypto, block}

-- The calls so far, the last one first.
abbrev pub log_disk : Disk ℕ
log_disk = record {
  State = List (Call ℕ);
  temp_dir = codes "/tmp";
  run = λ c σ. (none, c ∷ σ);
  add_date = λ t y m d. t + m;
}

abbrev log_files : FileSystem
log_files = record { State = List FileCall; exists = λ p σ. false; run = λ c σ. (none, c ∷ σ) }

abbrev here : Bytes
here = codes "srv/tuf"

abbrev pub archive : Result Entries
archive = ok (
    entry (record { name = codes "repository/root.json"; type_flag = type_reg; mode = 420 })
      (at_end (1 ∷ [])) end_of_archive)

uncompress-IsBelow_example :
    All (λ c. IsBelow (b'/' ∷ here) (path_of c)) (uncompress log_files archive (b'/' ∷ here) []).1
uncompress-IsBelow_example =
    uncompress-IsBelow log_files (All (λ c. IsBelow (b'/' ∷ here) (path_of c))) here archive []
      (λ c σ below kept. (below, kept)) tt

valid : valid_rel_path (codes "repository/root.json") ≡ true
unfolding valid_rel_path has_prefix contains
valid = refl

begins : has_prefix (join (b'/' ∷ here) (codes "repository/root.json")) (clean (b'/' ∷ here)) ≡ true
unfolding has_prefix join bytes_dec
begins = refl

join-IsBelow_example : IsBelow (b'/' ∷ here) (join (b'/' ∷ here) (codes "repository/root.json"))
join-IsBelow_example = join-IsBelow here (codes "repository/root.json") valid begins

abbrev target : TargetWithMetadata
target = record { name = codes "rekor.pub"; bytes = 1 ∷ []; custom_metadata = [] }

create_repo_with_metadata-Ends_example :
    Ends log_disk
      (join (codes "/tmp") (codes "tuf") ++ codes "/")
      (plan log_disk 5 (target ∷ []))
      []
      (create_repo_with_metadata log_disk 5 (target ∷ []) [])
create_repo_with_metadata-Ends_example = create_repo_with_metadata-Ends log_disk 5 (target ∷ []) []

abbrev pub roots : RootLib crypto
roots = record { TrustedRoot = ℕ; new_trusted_root = λ c t a r. ok 7; marshal = λ n. ok (n ∷ []) }

abbrev pub signing : SigningLib ℕ
signing = record {
  SigningConfig = ℕ;
  new_signing_config = λ a b c d e f. ok 8;
  marshal = λ n. ok (n ∷ []);
}

abbrev pub metadata : SigstoreCustomMetadata → Result Bytes
metadata m = ok m.sigstore.usage

abbrev pub clock : Clock ℕ
clock = record { at_root = 1; at_config = 2; at_create = 3 }

abbrev readme : Dict Bytes
readme = (codes "readme", 1 ∷ []) ∷ []

abbrev run_readme : Result Bytes × List (Call ℕ)
run_readme = create_repo crypto roots signing log_disk metadata clock readme []

creates : run_readme.0 ≡ ok (join (codes "/tmp") (codes "tuf") ++ codes "/")
unfolding create_repo bytes_dec
creates = refl

create_repo-AreFiles_example :
    (ts : List TargetWithMetadata) × (root : TargetWithMetadata) × AreFiles metadata readme ts
    × (construct_trusted_root crypto 1 roots ts ≡ ok root)
    × Succeeds log_disk (plan log_disk 3 (ts ++ (root ∷ []))) [] run_readme.1
create_repo-AreFiles_example =
    create_repo-AreFiles crypto roots signing log_disk metadata clock readme []
      (join (codes "/tmp") (codes "tuf") ++ codes "/") creates

get_key_with_details-Supports_example :
    (get_key_with_details crypto (1 ∷ []) ≡ ok (ed25519 (1 ∷ []), sha512))
    ↔ ((parse_key crypto (1 ∷ []) ≡ ok (ed25519 (1 ∷ []))) × Supports (ed25519 (1 ∷ [])) sha512)
get_key_with_details-Supports_example =
    get_key_with_details-Supports crypto (1 ∷ []) (ed25519 (1 ∷ [])) sha512

are_bytes : All (λ b. b < 256) (codes "rekor")
are_bytes = (omega arith, (omega arith, (omega arith, (omega arith, (omega arith, tt)))))

-- The log of one key, at two times.
abbrev log_at : ℕ → TransparencyLog ℕ
log_at tm = record {
  base_url = [];
  id = codes "rekor";
  validity_period_start = tm;
  hash_func = sha256;
  public_key = ed25519 (1 ∷ []);
  signature_hash_func = sha512;
}

logs_at :
    (tm : ℕ)
    → pubkey_to_transparency_log_instance crypto (codes "rekor") (block 1) tm
      ≡ ok (log_at tm, codes "72656b6f72")
unfolding pubkey_to_transparency_log_instance
logs_at tm = refl

pubkey_to_transparency_log_instance_inj_example : (log_at 1).id ≡ (log_at 2).id
pubkey_to_transparency_log_instance_inj_example =
    pubkey_to_transparency_log_instance_inj crypto (codes "rekor") (block 1) (codes "rekor")
      (block 1) 1 2 (log_at 1) (log_at 2) (codes "72656b6f72") (logs_at 1) (logs_at 2) are_bytes
      are_bytes
