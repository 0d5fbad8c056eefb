-- ===== src/Server/Init.antt =====
-- `initTUFRepo`: the repository made of the files, kept in secrets, and copied to where it is served.
pub mod Agree
pub mod Served
pub mod KeyFiles
use scaffolding.Base
use scaffolding.Base.{
  Bytes, Bool, true, false, Option, none, some, List, [], ◌∷◌, ◌++◌, codes, Error, Result, ok, err,
  panic, exit, errorf, wrap, or_error, has_suffix, ◌==◌, if◌then◌else◌,
}
use scaffolding.Base.Dict.{Dict, lookup, insert}
use scaffolding.Cluster.{SecretInterface, Exec, continue, ◌>>=◌, ◌>>◌, lift, handle}
use scaffolding.Files.{FileSystem}
use scaffolding.Secret.{reconcile_secret}
use scaffolding.Certs.{CertCodec}
use scaffolding.Repo.{CreateRepoOptions, SigstoreCustomMetadata}
use scaffolding.Repo.External.{External}
use scaffolding.Repo.TrustedRoot.{RootLib}
use scaffolding.Repo.SigningConfig.{SigningLib}
use scaffolding.Repo.Create.{Disk, file}
use scaffolding.Repo.Options.{Clock, create_repo_with_options}
use scaffolding.Repo.Paths.{join}
use scaffolding.Repo.Archive.{Entries, uncompress}
use scaffolding.Repo.Compress.{SourceFs, TarWriter, compress_fs}
use scaffolding.Server.{DirEntry, SecretsDir, read_targets}

-- What the repository is made with.
pub record Maker : Type 1 where
  pub external : External
  pub codec : CertCodec
  pub roots : RootLib external
  pub signing : SigningLib external.Time
  pub marshal : SigstoreCustomMetadata → Result Bytes
  pub clock : Clock external.Time
  pub disk : Disk external.Time

-- What else the server calls: the reads of the disk, `GetMeta` of the store, `os.DirFS`, the writer
-- of an archive, new and with what it has written, the reader of one, `os.MkdirTemp` in the
-- directory for temporary files, the two calls that make the client, and the server of HTTP.
pub record ServerWorld : Type 1 where
  pub maker : Maker
  pub exists : Bytes → maker.disk.State → Bool
  pub read_dir : Bytes → maker.disk.State → Result (List DirEntry)
  pub read_file : Bytes → maker.disk.State → Result Bytes
  pub get_meta : maker.disk.State → Result (Dict Bytes)
  pub dir_fs : Bytes → maker.disk.State → SourceFs
  pub writer : TarWriter
  pub fresh : writer.State
  pub written : writer.State → Bytes
  pub reader : Bytes → Result Entries
  pub mkdir_temp : Bytes → maker.disk.State → Result Bytes × maker.disk.State
  pub config : Result (Unit {0})
  pub clientset : Result (Unit {0})
  pub secrets : SecretInterface
  pub listen : Bytes → maker.disk.State → Option Error

-- The environment variable and the flags.
pub record ServerFlags : Type 0 where
  pub namespace : Bytes
  pub file_dir : Bytes
  pub target_dir : Bytes
  pub mode : Bytes
  pub secret_name : Bytes
  pub keys_secret_name : Bytes
  pub no_k8s : Bool
  pub options : CreateRepoOptions

-- The disk and the secrets.
pub record Place (W : ServerWorld) : Type 0 where
  pub files : W.maker.disk.State
  pub cluster : W.secrets.State

module _ (W : ServerWorld) where
  abbrev pub on_files : {A : Type 0} → Exec W.maker.disk.State A → Exec (Place W) A
  on_files call p = let (r, σ) = call p.files in (r, record p { files = σ })

  abbrev pub on_cluster : {A : Type 0} → Exec W.secrets.State A → Exec (Place W) A
  on_cluster call p = let (r, σ) = call p.cluster in (r, record p { cluster = σ })

  -- The disk as `Uncompress` calls it.
  abbrev pub file_system : FileSystem
  file_system = record {
    State = W.maker.disk.State;
    exists = W.exists;
    run = λ c. W.maker.disk.run (file c);
  }

  -- The disk while the files are read.
  abbrev pub secrets_dir : W.maker.disk.State → SecretsDir
  secrets_dir σ = record { read_dir = λ d. W.read_dir d σ; read_file = λ p. W.read_file p σ }

  -- `getNamespaceAndClientset`; the namespace stands for the client too.
  unfoldable pub get_namespace_and_clientset : ServerFlags → Result Bytes
  get_namespace_and_clientset flags =
      if flags.no_k8s
      then ok []
      else if flags.namespace == []
      then panic "env variable NAMESPACE must be set"
      else Base.◌>>=◌ (wrap "failed to get InClusterConfig: %w" W.config)
          λ _. Base.◌>>=◌ (wrap "failed to get clientset: %w" W.clientset) λ _. ok flags.namespace

  -- One file of the directory of the keys; the test is whether it has the suffix of JSON files.
  unfoldable pub add_key :
      Bool → Bytes → Bytes → Dict Bytes → W.maker.disk.State → Result (Dict Bytes)
  add_key false d name data_keys σ = ok data_keys
  add_key true d name data_keys σ =
      Base.◌>>=◌
        (wrap "failed reading file %s: %w" (W.read_file (join d (codes "keys/" ++ name)) σ))
        λ content. ok (insert name content data_keys)

  unfoldable pub read_keys :
      Bytes → List DirEntry → Dict Bytes → W.maker.disk.State → Result (Dict Bytes)
  unfolding add_key
  read_keys d [] data_keys σ = ok data_keys
  read_keys d (entry ∷ entries) data_keys σ =
      Base.◌>>=◌ (add_key (has_suffix entry.name (codes ".json")) d entry.name data_keys σ)
        λ data_keys'. read_keys d entries data_keys' σ

  unfoldable pub list_keys : Bytes → W.maker.disk.State → Result (Dict Bytes)
  unfolding read_keys
  list_keys d σ =
      Base.◌>>=◌ (wrap "failed to list keys directory %w" (W.read_dir (join d (codes "keys")) σ))
        λ entries. read_keys d entries [] σ

  -- The secret with the keys, if there is to be one.
  unfoldable pub store_keys : ServerFlags → Bytes → Bytes → Exec (Place W) (Unit {0})
  unfolding list_keys reconcile_secret
  store_keys flags ns d =
      if flags.keys_secret_name == []
      then lift (ok tt)
      else (on_files (λ σ. (list_keys d σ, σ))) >>= λ data_keys.
          handle (wrap "failed to reconcile keys secret %s/%s: %w")
            (on_cluster (reconcile_secret W.secrets flags.keys_secret_name ns data_keys))

  -- The map `data`: the root and the archive.
  abbrev pub repo_entries : Bytes → Bytes → Dict Bytes
  repo_entries root_json repository =
      (codes "root", root_json) ∷ (codes "repository", repository) ∷ []

  unfoldable pub store_in_cluster :
      ServerFlags → Bytes → Bytes → Dict Bytes → Exec (Place W) (Unit {0})
  unfolding store_keys reconcile_secret
  store_in_cluster flags ns d entries =
      handle (wrap "failed to reconcile secret %s/%s: %w")
        (on_cluster (reconcile_secret W.secrets flags.secret_name ns entries))
      >> store_keys flags ns d

  unfoldable pub store_repo : ServerFlags → Bytes → Bytes → Dict Bytes → Exec (Place W) (Unit {0})
  unfolding store_in_cluster
  store_repo flags ns d entries =
      if flags.no_k8s then lift (ok tt) else store_in_cluster flags ns d entries

  -- The root among the metadata; the error wraps `err`, which is nil there.
  unfoldable pub root_of : W.maker.disk.State → Result Bytes
  root_of σ =
      Base.◌>>=◌ (wrap "getting meta: %w" (W.get_meta σ))
        λ meta. or_error "getting root: %w" (lookup (codes "root.json") meta)

  -- The archive of the repository, in a new buffer.
  unfoldable pub compressed : Bytes → W.maker.disk.State → Result Bytes
  unfolding compress_fs
  compressed d σ =
      let (r, end) =
        compress_fs (W.dir_fs d σ) W.writer (codes "keys" ∷ codes "staged" ∷ []) W.fresh in
      Base.◌>>=◌ (wrap "failed to compress the repo: %w" r) λ _. ok (W.written end)

  -- The repository that is made of the files, in its directory.
  unfoldable pub make_repo : ServerFlags → Exec W.maker.disk.State Bytes
  unfolding read_targets create_repo_with_options
  make_repo flags = do
    files ← λ σ. (read_targets W.maker.codec (secrets_dir σ) flags.file_dir, σ)
    handle (wrap "failed to create repo: %w") (
        create_repo_with_options W.maker.external W.maker.roots W.maker.signing W.maker.disk
          W.maker.marshal W.maker.clock files flags.options)

  -- `initTUFRepo`
  unfoldable pub init_tuf_repo : ServerFlags → Bytes → Exec (Place W) (Unit {0})
  unfolding get_namespace_and_clientset make_repo root_of compressed store_repo uncompress
  init_tuf_repo flags target_dir = do
    ns ← lift (wrap "failed to get namespace and clientset: %w" (get_namespace_and_clientset flags))
    d ← on_files (make_repo flags)
    root_json ← on_files (λ σ. (root_of σ, σ))
    repository ← on_files (λ σ. (compressed d σ, σ))
    store_repo flags ns d (repo_entries root_json repository)
    on_files (uncompress file_system (W.reader repository) target_dir)
