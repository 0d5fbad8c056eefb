-- ===== src/Repo/Compress/Listing.antt =====
-- What `CompressFS` writes, when every call succeeds.
use mathlib.Core.List.{append_assoc, append-nil}
use scaffolding.Base.{
  ◌≡◌, refl, sym, ap, ◌∙◌, Bytes, Bool, true, false, Option, none, some, ok, List, [], ◌∷◌, ◌++◌,
  codes, Result, Bool-cases, inl, inr, if◌then◌else◌,
}
use scaffolding.Cluster.{Exec, ◌>>◌}
use scaffolding.Repo.Compress.{
  Node, Nodes, plain, directory, no_nodes, node, SourceFs, TarWriter, is_skipped, add_entry,
  after_header, copy_file, walk, walk_all, walk_root, close_all, compress_fs,
}

-- What is written to an archive.
pub data Item : Type 0 where
  header : Bytes → Bool → Item
  contents : Bytes → Item

-- A writer on which every call succeeds, with what has been written.
abbrev pub tape : TarWriter
tape = record {
  State = List Item;
  write_header = λ file is_dir σ. (none, σ ++ (header file is_dir ∷ []));
  copy = λ s σ. (none, σ ++ (contents s ∷ []));
  close_tar = λ σ. (none, σ);
  close_gzip = λ σ. (none, σ);
}

-- A file system that gives each path its text.
abbrev pub readable : Option Node → (Bytes → Bytes) → SourceFs
readable root text = record {
  root = root;
  stat = λ p. none;
  file_info_header = λ p. none;
  open_file = λ p. ok (text p, none);
}

-- The tree as a list: each file with its text, each directory before what it holds, and nothing of
-- the directories that are skipped.
unfoldable mutual
  pub listed : (Bytes → Bytes) → List Bytes → Bytes → Bytes → Node → List Item
  listed text skips path name plain = header path false ∷ contents (text path) ∷ []
  listed text skips path name (directory nodes) =
      let rest = listed_all text skips path nodes in
      if is_skipped name skips then [] else header path true ∷ rest

  pub listed_all : (Bytes → Bytes) → List Bytes → Bytes → Nodes → List Item
  listed_all text skips dir no_nodes = []
  listed_all text skips dir (node name n rest) =
      listed text skips (dir ++ (b'/' ∷ name)) name n ++ listed_all text skips dir rest

-- A writer on which every call succeeds, with what it has been given so far, in its order.
pub record KeepsItems (W : TarWriter) : Type 0 where
  pub items : W.State → List Item
  pub header_written : (p : Bytes) (d : Bool) (σ : W.State) → (W.write_header p d σ).0 ≡ none
  pub header_kept :
      (p : Bytes) (d : Bool) (σ : W.State)
      → items (W.write_header p d σ).1 ≡ items σ ++ (header p d ∷ [])
  pub copied : (s : Bytes) (σ : W.State) → (W.copy s σ).0 ≡ none
  pub copy_kept : (s : Bytes) (σ : W.State) → items (W.copy s σ).1 ≡ items σ ++ (contents s ∷ [])
  pub tar_closed : (σ : W.State) → (W.close_tar σ).0 ≡ none
  pub tar_kept : (σ : W.State) → items (W.close_tar σ).1 ≡ items σ
  pub gzip_closed : (σ : W.State) → (W.close_gzip σ).0 ≡ none
  pub gzip_kept : (σ : W.State) → items (W.close_gzip σ).1 ≡ items σ

abbrev pub tape-KeepsItems : KeepsItems tape
tape-KeepsItems = record {
  items = λ σ. σ;
  header_written = λ p d σ. refl;
  header_kept = λ p d σ. refl;
  copied = λ s σ. refl;
  copy_kept = λ s σ. refl;
  tar_closed = λ σ. refl;
  tar_kept = λ σ. refl;
  gzip_closed = λ σ. refl;
  gzip_kept = λ σ. refl;
}

module _ (W : TarWriter) (K : KeepsItems W) where
  -- A computation that ends well and has given these items to the writer.
  abbrev pub Writes : List Item → W.State → Result (Unit {0}) × W.State → Type 0
  Writes l σ end = (end.0 ≡ ok tt) × (K.items end.1 ≡ K.items σ ++ l)

  then-Writes :
      (l k : List Item) (m n : Exec W.State (Unit {0})) (σ : W.State)
      → Writes l σ (m σ)
      → ((τ : W.State) → Writes k τ (n τ))
      → Writes (l ++ k) σ ((m >> n) σ)
  then-Writes l k m n σ (e, w) h =
      let (f, v) = h (m σ).1 in rw e (f, v ∙ ap (λ t. t ++ k) w ∙ append_assoc (K.items σ) l k)

  module _ (root : Option Node) (text : Bytes → Bytes) (skips : List Bytes) where
    add_file-Writes :
        (path : Bytes) (σ : W.State)
        → Writes
            (header path false ∷ contents (text path) ∷ [])
            σ
            (add_entry (readable root text) W skips path false σ)
    unfolding add_entry after_header copy_file
    add_file-Writes path σ =
        let given = (W.write_header path false σ).1 in
        rw (K.header_written path false σ, K.copied (text path) given)
          (
            refl,
            K.copy_kept (text path) given
                ∙ ap (λ t. t ++ (contents (text path) ∷ [])) (K.header_kept path false σ)
                ∙ append_assoc (K.items σ) (header path false ∷ []) (contents (text path) ∷ []),
          )

    add_directory-Writes :
        (path : Bytes) (σ : W.State)
        → Writes (header path true ∷ []) σ (add_entry (readable root text) W skips path true σ)
    unfolding add_entry after_header
    add_directory-Writes path σ =
        rw (K.header_written path true σ) (refl, K.header_kept path true σ)

    close_all-Writes :
        (σ : W.State)
        → ((close_all (readable root text) W skips (ok tt) σ).0 ≡ ok tt)
          × (K.items (close_all (readable root text) W skips (ok tt) σ).1 ≡ K.items σ)
    unfolding close_all
    close_all-Writes σ =
        let closed = (W.close_tar σ).1 in
        rw (K.tar_closed σ, K.gzip_closed closed, close_all)
          (refl, K.gzip_kept closed ∙ K.tar_kept σ)

    mutual
      unfolding walk listed

      walk-listed :
          (path name : Bytes) (n : Node) (σ : W.State)
          → Writes
              (listed text skips path name n)
              σ
              (walk (readable root text) W skips path name n σ)
      walk-listed path name plain σ = add_file-Writes path σ
      walk-listed path name (directory nodes) σ = elim (Bool-cases (is_skipped name skips)) [
        | inl e ↦ rw e (refl, sym (append-nil (K.items σ)))
        | inr e ↦ rw e (
            then-Writes (header path true ∷ []) (listed_all text skips path nodes)
              (add_entry (readable root text) W skips path true)
              (walk_all (readable root text) W skips path nodes) σ (add_directory-Writes path σ)
              (walk_all-listed path nodes))
      ]

      walk_all-listed :
          (dir : Bytes) (nodes : Nodes) (σ : W.State)
          → Writes
              (listed_all text skips dir nodes)
              σ
              (walk_all (readable root text) W skips dir nodes σ)
      walk_all-listed dir no_nodes σ = (refl, sym (append-nil (K.items σ)))
      walk_all-listed dir (node name n rest) σ =
          then-Writes (listed text skips (dir ++ (b'/' ∷ name)) name n)
            (listed_all text skips dir rest)
            (walk (readable root text) W skips (dir ++ (b'/' ∷ name)) name n)
            (walk_all (readable root text) W skips dir rest) σ
            (walk-listed (dir ++ (b'/' ∷ name)) name n σ) (walk_all-listed dir rest)

-- On a tree that can be read and a writer on which every call succeeds, `CompressFS` writes the tree
-- as it is listed from `repository` on: each file with its text, each directory before what it holds,
-- and nothing of the directories that are skipped.
pub compress_fs-listed :
    (W : TarWriter) (K : KeepsItems W) (n : Node) (text : Bytes → Bytes) (skips : List Bytes)
    (σ : W.State)
    → Writes W K
        (listed text skips (codes "repository") (codes "repository") n)
        σ
        (compress_fs (readable (some n) text) W skips σ)
unfolding compress_fs walk_root close_all
compress_fs-listed W K n text skips σ =
    let end = walk (readable (some n) text) W skips (codes "repository") (codes "repository") n σ in
    let (e, w) =
      walk-listed W K (some n) text skips (codes "repository") (codes "repository") n σ in
    let (f, v) = close_all-Writes W K (some n) text skips end.1 in rw e (f, v ∙ w)
