-- ===== src/Repo/Compress/Copied.antt =====
-- A tree that `CompressFS` writes and `Uncompress` reads is copied.
use mathlib.Core.List.{append_assoc, append-nil}
use scaffolding.Base.{
  ◌≡◌, refl, sym, ap, ◌∙◌, subst, Bytes, true, false, Bool-cases, inl, inr, some, List, [], ◌∷◌,
  ◌++◌, map, codes, ok, All, Distinct, if◌then◌else◌,
}
use scaffolding.Files.{FileSystem, KeepsFiles}
use scaffolding.Repo.Archive.{Entries, uncompress}
use scaffolding.Repo.Archive.Unpack.{
  Fits, Plain, directory_entry, file_entry, name_of, Unpacks, paths_of, Unpacked,
  extract_all-Unpacked,
}
use scaffolding.Repo.Compress.{
  Node, Nodes, plain, directory, no_nodes, node, is_skipped, TarWriter, compress_fs,
}
use scaffolding.Repo.Compress.Listing.{
  Item, header, contents, KeepsItems, readable, listed, listed_all, compress_fs-listed,
}

-- The entries of an archive as a reader of tar gives them back: the contents belong to the header
-- before them.
abbrev pub entries_of : List Item → List Plain
entries_of [] = []
entries_of (header p true ∷ rest) = directory_entry p ∷ entries_of rest
entries_of (header p false ∷ contents s ∷ rest) = file_entry p s ∷ entries_of rest
entries_of (header p false ∷ rest) = file_entry p [] ∷ entries_of rest
entries_of (contents s ∷ rest) = entries_of rest

-- The entries of a tree, without the directories that are skipped: each directory before what it
-- holds, and each file with its text.
unfoldable mutual
  pub tree_entries : (Bytes → Bytes) → List Bytes → Bytes → Bytes → Node → List Plain
  tree_entries text skips path name plain = file_entry path (text path) ∷ []
  tree_entries text skips path name (directory nodes) =
      let inside = tree_entries_all text skips path nodes in
      if is_skipped name skips then [] else directory_entry path ∷ inside

  pub tree_entries_all : (Bytes → Bytes) → List Bytes → Bytes → Nodes → List Plain
  tree_entries_all text skips dir no_nodes = []
  tree_entries_all text skips dir (node name n rest) =
      tree_entries text skips (dir ++ (b'/' ∷ name)) name n ++ tree_entries_all text skips dir rest

module _ (text : Bytes → Bytes) (skips : List Bytes) where
  mutual
    unfolding tree_entries listed

    entries_of-listed :
        (path name : Bytes) (n : Node) (r : List Item)
        → entries_of (listed text skips path name n ++ r)
          ≡ tree_entries text skips path name n ++ entries_of r
    entries_of-listed path name plain r = refl
    entries_of-listed path name (directory nodes) r = elim (Bool-cases (is_skipped name skips)) [
      | inl e ↦ rw e refl
      | inr e ↦ rw e (ap (λ l. directory_entry path ∷ l) (entries_of-listed_all path nodes r))
    ]

    entries_of-listed_all :
        (dir : Bytes) (nodes : Nodes) (r : List Item)
        → entries_of (listed_all text skips dir nodes ++ r)
          ≡ tree_entries_all text skips dir nodes ++ entries_of r
    entries_of-listed_all dir no_nodes r = refl
    entries_of-listed_all dir (node name n rest) r =
        ap entries_of (
          append_assoc (listed text skips (dir ++ (b'/' ∷ name)) name n)
            (listed_all text skips dir rest) r)
        ∙ entries_of-listed (dir ++ (b'/' ∷ name)) name n (listed_all text skips dir rest ++ r)
        ∙ ap (λ l. tree_entries text skips (dir ++ (b'/' ∷ name)) name n ++ l)
            (entries_of-listed_all dir rest r)
        ∙ sym (
            append_assoc (tree_entries text skips (dir ++ (b'/' ∷ name)) name n)
              (tree_entries_all text skips dir rest) (entries_of r))

  -- The entries of the archive that `CompressFS` makes of a tree, on a new writer.
  entries_of-compress_fs :
      (W : TarWriter) (K : KeepsItems W) (n : Node) (σ : W.State)
      → K.items σ ≡ []
      → entries_of (K.items (compress_fs (readable (some n) text) W skips σ).1)
        ≡ tree_entries text skips (codes "repository") (codes "repository") n
  entries_of-compress_fs W K n σ fresh =
      let l = listed text skips (codes "repository") (codes "repository") n in
      ap entries_of
        ((compress_fs-listed W K n text skips σ).1 ∙ ap (λ t. t ++ l) fresh ∙ sym (append-nil l))
      ∙ entries_of-listed (codes "repository") (codes "repository") n []
      ∙ append-nil (tree_entries text skips (codes "repository") (codes "repository") n)

-- What `CompressFS` writes of a tree that can be read, on a new writer on which every call succeeds,
-- given back by a reader entry by entry, is unpacked by `Uncompress`, on a disk on which every call
-- succeeds, without an error: each file of the tree outside of the directories that are skipped is
-- read below the directory with its own text, and no other file has changed. The names must pass the
-- checks on names, and no two files go to one path.
pub uncompress-compress_fs :
    (F : FileSystem) (K : KeepsFiles F) (W : TarWriter) (T : KeepsItems W) (dst : Bytes)
    (text : Bytes → Bytes) (skips : List Bytes) (n : Node) (es : Entries) (σ : F.State)
    (fresh : W.State)
    → let tree = tree_entries text skips (codes "repository") (codes "repository") n in
      T.items fresh ≡ []
      → Unpacks (entries_of (T.items (compress_fs (readable (some n) text) W skips fresh).1)) es
      → All (Fits dst) (map name_of tree)
      → Distinct (paths_of F K dst tree)
      → ((uncompress F (ok es) dst σ).0 ≡ ok tt)
        × Unpacked F K dst tree σ (uncompress F (ok es) dst σ).1
unfolding uncompress
uncompress-compress_fs F K W T dst text skips n es σ fresh new u f d =
    extract_all-Unpacked F K dst
      (tree_entries text skips (codes "repository") (codes "repository") n) es σ
      (subst (λ l. Unpacks l es) (entries_of-compress_fs text skips W T n fresh new) u) f d
