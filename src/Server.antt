-- ===== src/Server.antt =====
-- tools/tuf/cmd/tuf/server/main.go: the TUF server, which makes its repository from a directory of
-- files.
pub mod Sources
pub mod Plain
pub mod Init
pub mod Run
use scaffolding.Base.{
  Bytes, Bool, true, false, ◌||◌, List, [], ◌∷◌, ◌++◌, codes, Result, ok, wrap, ◌>>=◌, eqb,
  has_prefix, contains, if◌then◌else◌,
}
use scaffolding.Base.Dict.{Dict, insert}
use scaffolding.Base.Trim.{trim_space, trim_slash}
use scaffolding.Certs.{CertCodec, split_cert_chain}

-- `os.DirEntry`
pub record DirEntry : Type 0 where
  pub name : Bytes
  pub is_dir : Bool

-- `os.ReadDir` and `os.ReadFile` while the files are read.
pub record SecretsDir : Type 0 where
  pub read_dir : Bytes → Result (List DirEntry)
  pub read_file : Bytes → Result Bytes

-- The path of a file of the directory.
abbrev pub file_path : Bytes → Bytes → Bytes
file_path d name = d ++ (b'/' ∷ name)

-- The files that are left alone: directories, and what Kubernetes adds.
unfoldable pub is_left : DirEntry → Bool
is_left entry = entry.is_dir || has_prefix entry.name (codes "..")

-- The loop over the files of a chain that was split.
unfoldable pub add_cert_files : Dict Bytes → Dict Bytes → Dict Bytes
add_cert_files [] files = files
add_cert_files ((k, v) ∷ cert_files) files =
    add_cert_files cert_files (insert k (trim_space v) files)

module _ (C : CertCodec) (D : SecretsDir) where
  -- A file that was read, put among the files of the repository; the test is whether its name says
  -- that it is a chain of the time stamping authority.
  unfoldable pub add_bytes : Bool → Bytes → Bytes → Dict Bytes → Result (Dict Bytes)
  unfolding add_cert_files
  add_bytes true name bytes files = do
    cert_files ← wrap "failed to parse %s: %w" (split_cert_chain C bytes (codes "tsa"))
    ok (add_cert_files cert_files files)
  add_bytes false name bytes files = ok (insert name bytes files)

  -- One entry of the directory; the test is whether it is left alone.
  unfoldable pub add_file : Bool → Bytes → Bytes → Dict Bytes → Result (Dict Bytes)
  unfolding add_bytes
  add_file true d name files = ok files
  add_file false d name files = do
    bytes ← wrap "failed to read file %s: %w" (D.read_file (file_path d name))
    add_bytes (contains name (codes "tsa")) name bytes files

  unfoldable pub add_files : Bytes → List DirEntry → Dict Bytes → Result (Dict Bytes)
  unfolding add_file is_left
  add_files d [] files = ok files
  add_files d (entry ∷ entries) files =
      add_file (is_left entry) d entry.name files >>= add_files d entries

  -- What `initTUFRepo` reads of its directory, before it makes the repository.
  unfoldable pub read_targets : Bytes → Result (Dict Bytes)
  unfolding add_files trim_slash
  read_targets certs_dir = do
    tuf_files ← wrap "failed to read dir %s: %w" (D.read_dir (trim_slash certs_dir))
    add_files (trim_slash certs_dir) tuf_files []
