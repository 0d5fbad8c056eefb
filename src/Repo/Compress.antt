-- ===== src/Repo/Compress.antt =====
-- `CompressFS`: a directory of files written to a compressed archive.
pub mod Listing
pub mod Lost
pub mod Copied
pub mod Named
pub mod Places
use scaffolding.Base.{
  Bytes, Bool, true, false, not, Option, none, some, Error, wrapf, Result, ok, err, panic, exit,
  wrap, List, [], ◌∷◌, ◌++◌, codes, ◌==◌, if◌then◌else◌,
}
use scaffolding.Cluster.{Exec, continue, ◌>>=◌, ◌>>◌, lift, handle}
use scaffolding.Files.{outcome}

mutual
  -- What `fs.WalkDir` meets, each directory in the order of its names.
  pub data Node : Type 0 where
    plain : Node
    directory : Nodes → Node

  pub data Nodes : Type 0 where
    no_nodes : Nodes
    node : Bytes → Node → Nodes → Nodes

-- The file system that is read: the tree below `repository`, if it is there, and the calls `fs.Stat`,
-- `tar.FileInfoHeader` and `Open`, by path; of a file that was opened, what is read and the error that
-- ends the reading early, if there is one.
pub record SourceFs : Type 0 where
  pub root : Option Node
  pub stat : Bytes → Option Error
  pub file_info_header : Bytes → Option Error
  pub open_file : Bytes → Result (Bytes × Option Error)

-- The tar writer on the gzip writer.
pub record TarWriter : Type 1 where
  pub State : Type 0
  -- the name, and whether it is a directory
  pub write_header : Bytes → Bool → State → Option Error × State
  pub copy : Bytes → State → Option Error × State
  pub close_tar : State → Option Error × State
  pub close_gzip : State → Option Error × State

unfoldable pub is_skipped : Bytes → List Bytes → Bool
is_skipped name [] = false
is_skipped name (s ∷ skips) = if s == name then true else is_skipped name skips

module _ (F : SourceFs) (W : TarWriter) (skip_dirs : List Bytes) where
  abbrev call : (W.State → Option Error × W.State) → Exec W.State (Unit {0})
  call c σ = let (e, σ') = c σ in (outcome e, σ')

  unfoldable pub copy_file : Bytes → Exec W.State (Unit {0})
  copy_file file = do
    (content, cut) ← lift (wrap "opening %s: %w" (F.open_file file))
    handle (wrap "copying %s: %w") (call (W.copy content) >> lift (outcome cut))

  -- What follows `WriteHeader`: with an error the code returns `err`, which is nil there.
  unfoldable pub after_header : Bytes → Bool → Option Error → Exec W.State (Unit {0})
  unfolding copy_file
  after_header file is_dir (some e) = lift (ok tt)
  after_header file true none = lift (ok tt)
  after_header file false none = copy_file file

  -- The function that is called for each entry that is not skipped.
  unfoldable pub add_entry : Bytes → Bool → Exec W.State (Unit {0})
  unfolding after_header
  add_entry file is_dir = do
    lift (wrap "fs.Stat %s: %w" (outcome (F.stat file)))
    lift (wrap "FileInfoHeader %s: %w" (outcome (F.file_info_header file)))
    λ σ. let (e, σ') = W.write_header file is_dir σ in after_header file is_dir e σ'

  -- The walk, at a path with its last name.
  unfoldable mutual
    unfolding add_entry is_skipped

    pub walk : Bytes → Bytes → Node → Exec W.State (Unit {0})
    walk file name plain = add_entry file false
    walk file name (directory nodes) =
        let rest = walk_all file nodes in
        if is_skipped name skip_dirs then lift (ok tt) else add_entry file true >> rest

    pub walk_all : Bytes → Nodes → Exec W.State (Unit {0})
    walk_all dir no_nodes = lift (ok tt)
    walk_all dir (node name n rest) = walk (dir ++ (b'/' ∷ name)) name n >> walk_all dir rest

  unfoldable pub walk_root : Option Node → Exec W.State (Unit {0})
  unfolding walk
  walk_root none = lift (panic "invalid memory address or nil pointer dereference")
  walk_root (some n) = walk (codes "repository") (codes "repository") n

  -- The end, by the error of the walk.
  unfoldable pub close_all : Result (Unit {0}) → Exec W.State (Unit {0})
  close_all (ok x) σ =
      let (e, σ') = W.close_tar σ in
      elim e [
        | none ↦ call W.close_gzip σ'
        | some e ↦ (err (wrapf "tar.NewWriter Close(): %w" e), (W.close_gzip σ').1)
      ]
  close_all (err e) σ = (err (wrapf "WalkDir: %w" e), (W.close_gzip (W.close_tar σ).1).1)
  close_all (panic t) σ = (panic t, σ)
  close_all (exit n) σ = (exit n, σ)

  -- `CompressFS`
  unfoldable pub compress_fs : Exec W.State (Unit {0})
  unfolding walk_root close_all
  compress_fs σ = let (r, σ') = walk_root F.root σ in close_all r σ'
