-- ===== src/Repo/Compress/Lost.antt =====
-- A header that cannot be written is not reported.
use scaffolding.Base.{
  ◌≡◌, refl, Bytes, Bool, true, false, none, some, Error, ok, List, Bool-cases, inl, inr,
}
use scaffolding.Cluster.{Exec, ◌>>◌}
use scaffolding.Repo.Compress.{
  Node, Nodes, plain, directory, no_nodes, node, SourceFs, TarWriter, is_skipped, add_entry,
  after_header, walk, walk_all,
}

module _ (F : SourceFs) (W : TarWriter) (skip_dirs : List Bytes) where
  -- Every file can be looked at, and no header can be written.
  pub record NoHeaders : Type 0 where
    pub stats : (file : Bytes) → F.stat file ≡ none
    pub infos : (file : Bytes) → F.file_info_header file ≡ none
    pub error : Error
    pub fails :
        (file : Bytes) (is_dir : Bool) (σ : W.State) → (W.write_header file is_dir σ).0 ≡ some error

  add_entry-ok :
      (N : NoHeaders) (file : Bytes) (is_dir : Bool) (σ : W.State)
      → (add_entry F W skip_dirs file is_dir σ).0 ≡ ok tt
  unfolding add_entry after_header
  add_entry-ok N file is_dir σ = rw (N.stats file, N.infos file) (rw (N.fails file is_dir σ) refl)

  then-ok :
      (m n : Exec W.State (Unit {0})) (σ : W.State)
      → (m σ).0 ≡ ok tt
      → ((σ : W.State) → (n σ).0 ≡ ok tt)
      → ((m >> n) σ).0 ≡ ok tt
  then-ok m n σ h k = rw h (k (m σ).1)

  mutual
    unfolding walk

    walk-ok :
        (N : NoHeaders) (file name : Bytes) (n : Node) (σ : W.State)
        → (walk F W skip_dirs file name n σ).0 ≡ ok tt
    walk-ok N file name plain σ = add_entry-ok N file false σ
    walk-ok N file name (directory nodes) σ = elim (Bool-cases (is_skipped name skip_dirs)) [
      | inl e ↦ rw e refl
      | inr e ↦ rw e (
          then-ok (add_entry F W skip_dirs file true) (walk_all F W skip_dirs file nodes) σ
            (add_entry-ok N file true σ) (walk_all-ok N file nodes))
    ]

    walk_all-ok :
        (N : NoHeaders) (dir : Bytes) (nodes : Nodes) (σ : W.State)
        → (walk_all F W skip_dirs dir nodes σ).0 ≡ ok tt
    walk_all-ok N dir no_nodes σ = refl
    walk_all-ok N dir (node name n rest) σ =
        then-ok (walk F W skip_dirs _ name n) (walk_all F W skip_dirs dir rest) σ
          (walk-ok N _ name n σ) (walk_all-ok N dir rest)
