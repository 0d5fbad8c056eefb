-- ===== src/Repo/Archive.antt =====
-- `Uncompress`: a compressed TUF repository written to a directory.
pub mod Safe
pub mod Unpack
use scaffolding.Base.{
  ℕ, Bytes, Bool, true, false, not, Option, none, some, Error, errorf, wrapf, wrap, Result, ok, err,
  has_prefix, [], ◌∷◌, if◌then◌else◌,
}
use scaffolding.Cluster.{Exec, continue, ◌>>=◌, ◌>>◌, handle, lift}
use scaffolding.Files.{FileSystem, FileCall, mkdir_all, open_file, write, close, file_call}
use scaffolding.Repo.Paths.{clean, join, valid_rel_path}

-- What `io.CopyN` of 1024 bytes reads of one entry, call by call: a full piece, the last bytes
-- before the end, or the bytes before a read error.
pub data Content : Type 0 where
  more : Bytes → Content → Content
  at_end : Bytes → Content
  broken : Bytes → Error → Content

pub data TypeFlag : Type 0 where
  type_dir type_reg type_other : TypeFlag

pub record Header : Type 0 where
  pub name : Bytes
  pub type_flag : TypeFlag
  pub mode : ℕ

-- The results of `tr.Next`, with what is read of each entry.
pub data Entries : Type 0 where
  end_of_archive : Entries
  next_fails : Error → Entries
  entry : Header → Content → Entries → Entries

module _ (F : FileSystem) where
  -- `io.CopyN` writes nothing when nothing was read.
  unfoldable pub write_piece : Bytes → Bytes → Exec F.State (Unit {0})
  write_piece target [] = lift (ok tt)
  write_piece target (c ∷ s) = file_call F (write target (c ∷ s))

  -- The loop that copies the contents.
  unfoldable pub copy_contents : Bytes → Content → Exec F.State (Unit {0})
  unfolding write_piece
  copy_contents target (at_end s) = write_piece target s
  copy_contents target (broken s e) = write_piece target s >> lift (err e)
  copy_contents target (more s rest) = file_call F (write target s) >> copy_contents target rest

  unfoldable pub write_regular : Bytes → Header → Content → Exec F.State (Unit {0})
  unfolding copy_contents
  write_regular target header content = do
    file_call F (open_file target header.mode)
    copy_contents target content
    handle (wrap "failed to close file %s: %w") (file_call F (close target))

  unfoldable pub make_directory : Bytes → Exec F.State (Unit {0})
  make_directory target σ =
      if F.exists target σ then (ok tt, σ) else file_call F (mkdir_all target) σ

  -- The switch on the type of the entry.
  unfoldable pub write_entry : Bytes → Header → TypeFlag → Content → Exec F.State (Unit {0})
  unfolding make_directory write_regular
  write_entry target header type_dir content = make_directory target
  write_entry target header type_reg content = write_regular target header content
  write_entry target header type_other content = lift (ok tt)

  -- The body of the loop.
  unfoldable pub extract : Bytes → Header → Content → Exec F.State (Unit {0})
  unfolding write_entry
  extract dst header content =
      if not (valid_rel_path header.name)
      then lift (err (errorf "tar contained invalid name error %q"))
      else if not (has_prefix (join dst header.name) (clean dst))
      then lift (err (errorf "content filepath is tainted: %s"))
      else write_entry (join dst header.name) header header.type_flag content

  unfoldable pub extract_all : Bytes → Entries → Exec F.State (Unit {0})
  unfolding extract
  extract_all dst end_of_archive = lift (ok tt)
  extract_all dst (next_fails e) = lift (err e)
  extract_all dst (entry header content rest) = extract dst header content >> extract_all dst rest

  -- `Uncompress`, from the result of `gzip.NewReader`
  unfoldable pub uncompress : Result Entries → Bytes → Exec F.State (Unit {0})
  unfolding extract_all
  uncompress src dst = lift src >>= extract_all dst
