-- ===== src/Repo/Create.antt =====
-- `CreateRepoWithMetadata`: a TUF repository of the given targets, made and committed on disk.
pub mod Plan
use scaffolding.Base.{
  ℕ, Bytes, Bool, true, Option, none, some, Error, String, List, [], ◌∷◌, ◌++◌, codes, Result, ok,
  err, wrap,
}
use scaffolding.Cluster.{Exec, continue, ◌>>=◌, ◌>>◌, handle, lift}
use scaffolding.Files.{FileCall, mkdir, mkdir_all, write_file, outcome}
use scaffolding.Repo.{TargetWithMetadata}
use scaffolding.Repo.Paths.{join, dir}

-- The calls of go-tuf's `Repo`.
pub data TufCall (Time : Type 0) : Type 0 where
  -- `tuf.NewRepoIndent` on a `FileSystemStore` of the directory
  new_repo_indent : Bytes → TufCall Time
  init : Bool → TufCall Time
  gen_key_with_expires : Bytes → Time → TufCall Time
  add_target_with_expires : Bytes → Bytes → Time → TufCall Time
  snapshot_with_expires : Time → TufCall Time
  timestamp_with_expires : Time → TufCall Time
  commit : TufCall Time

pub data Call (Time : Type 0) : Type 0 where
  file : FileCall → Call Time
  tuf : TufCall Time → Call Time

-- The file system and go-tuf, with the directory that `os.TempDir` gives.
pub record Disk (Time : Type 0) : Type 1 where
  pub State : Type 0
  pub temp_dir : Bytes
  pub run : Call Time → State → Option Error × State
  -- `AddDate` of years, months and days
  pub add_date : Time → ℕ → ℕ → ℕ → Time

-- The path of a target that is staged: `filepath.Join` of the directory, of `staged`, of `targets`
-- and of the name.
unfoldable pub staged_path : Bytes → Bytes → Bytes
staged_path d path = join d (codes "staged/targets/" ++ path)

-- The roles that get a key, in this order.
abbrev pub roles : List Bytes
roles = codes "root" ∷ codes "targets" ∷ codes "snapshot" ∷ codes "timestamp" ∷ []

module _ {Time : Type 0} (D : Disk Time) where
  unfoldable pub call : Call Time → Exec D.State (Unit {0})
  call c σ = let (e, σ') = D.run c σ in (outcome e, σ')

  -- A call whose error is wrapped.
  unfoldable pub check : String → Call Time → Exec D.State (Unit {0})
  unfolding call
  check text c = handle (wrap text) (call c)

  -- `writeStagedTarget`
  unfoldable pub write_staged_target : Bytes → Bytes → Bytes → Exec D.State (Unit {0})
  unfolding call staged_path
  write_staged_target d path bytes =
      call (file (mkdir_all (dir (staged_path d path))))
      >> call (file (write_file (staged_path d path) bytes))

  unfoldable pub gen_keys : Time → List Bytes → Exec D.State (Unit {0})
  unfolding check
  gen_keys expires [] = lift (ok tt)
  gen_keys expires (role ∷ rest) =
      check "failed to GenKeyWithExpires: %w" (tuf (gen_key_with_expires role expires))
      >> gen_keys expires rest

  unfoldable pub add_targets : Bytes → Time → List TargetWithMetadata → Exec D.State (Unit {0})
  unfolding check write_staged_target
  add_targets d expires [] = lift (ok tt)
  add_targets d expires (t ∷ rest) =
      handle (wrap "failed to write staged target %s: %w") (write_staged_target d t.name t.bytes)
      >> check "failed to add AddTargetWithExpires: %w"
          (tuf (add_target_with_expires t.name t.custom_metadata expires))
      >> add_targets d expires rest

  -- `CreateRepoWithMetadata`, whose value is the directory of the repository
  unfoldable pub create_repo_with_metadata : Time → List TargetWithMetadata → Exec D.State Bytes
  unfolding check gen_keys add_targets
  create_repo_with_metadata now targets = do
    let tuf_dir = join D.temp_dir (codes "tuf")
    check "failed to create tmp TUF dir: %w" (file (mkdir tuf_dir))
    let repo_dir = tuf_dir ++ codes "/"
    check "failed to NewRepoIndent: %w" (tuf (new_repo_indent repo_dir))
    check "failed to Init repo: %w" (tuf (init true))
    let expires = D.add_date now 0 6 0
    gen_keys expires roles
    add_targets repo_dir expires targets
    check "failed to add SnapShotWithExpires: %w" (tuf (snapshot_with_expires expires))
    check "failed to add TimestampWithExpires: %w" (tuf (timestamp_with_expires expires))
    check "failed to Commit: %w" (tuf commit)
    lift (ok repo_dir)
