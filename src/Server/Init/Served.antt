-- ===== src/Server/Init/Served.antt =====
-- The directory that is served holds the files of the repository.
use scaffolding.Base.{
  ◌≡◌, ◌≢◌, sym, ap, ◌∙◌, subst, Bytes, some, List, [], ◌∷◌, codes, ok, Result, wrap, ◌>>=◌,
  >>=-eq-ok,
}
use scaffolding.Cluster.{IsLawful}
use scaffolding.Files.{KeepsFiles}
use scaffolding.Repo.Archive.{Entries, uncompress}
use scaffolding.Repo.Archive.Unpack.{Unpacks, Unpacked}
use scaffolding.Repo.Compress.{Node, SourceFs, compress_fs}
use scaffolding.Repo.Compress.Listing.{KeepsItems, readable}
use scaffolding.Repo.Compress.Named.{IsNamed}
use scaffolding.Repo.Compress.Copied.{entries_of, tree_entries}
use scaffolding.Repo.Compress.Places.{uncompress-compress_fs_named}
use scaffolding.Server.Init.{
  ServerWorld, ServerFlags, Place, file_system, compressed, make_repo, repo_entries, root_of,
  init_tuf_repo,
}
use scaffolding.Server.Init.Agree.{Stored, init_tuf_repo-Stored}

-- The directories of a repository that are left out of the archive.
abbrev pub left_out : List Bytes
left_out = codes "keys" ∷ codes "staged" ∷ []

-- The writer after the archive of a tree.
abbrev pub archived : (W : ServerWorld) → Node → (Bytes → Bytes) → W.writer.State
archived W n text = (compress_fs (readable (some n) text) W.writer left_out W.fresh).1

-- The archive of a file system.
abbrev archive_of : (W : ServerWorld) → SourceFs → Result Bytes
archive_of W fs =
    let (r, end) = compress_fs fs W.writer left_out W.fresh in
    wrap "failed to compress the repo: %w" r >>= λ _. ok (W.written end)

compressed-written :
    (W : ServerWorld) (d repository : Bytes) (σ : W.maker.disk.State) (n : Node)
    (text : Bytes → Bytes)
    → W.dir_fs d σ ≡ readable (some n) text
    → compressed W d σ ≡ ok repository
    → repository ≡ W.written (archived W n text)
unfolding compressed
compressed-written W d repository σ n text e h =
    let (x, e', w) =
      >>=-eq-ok
        (wrap "failed to compress the repo: %w"
          (compress_fs (readable (some n) text) W.writer left_out W.fresh).0)
        (λ _. ok (W.written (archived W n text)))
        (subst (λ fs. archive_of W fs ≡ ok repository) e h) in
    cc (w)

-- After a success of `initTUFRepo` the root of the repository that was made and the archive of its
-- tree are stored, and each file of the tree outside of `keys` and `staged` is read below the
-- directory that is served, with its own text; no other file has changed since the repository was
-- made. The directory is given from the root, the tree of the repository can be read and its names are
-- names of files, every call of the disk and of the writer succeeds, the reader gives back what was
-- written, and the secret with the keys has another name.
pub init_tuf_repo-Served :
    (W : ServerWorld) (flags : ServerFlags) (K : KeepsFiles (file_system W))
    (T : KeepsItems W.writer) (d : Bytes) (p : Place W) (n : Node) (text : Bytes → Bytes)
    (es : Entries)
    → IsLawful W.secrets
    → flags.secret_name ≢ flags.keys_secret_name
    → ((dir : Bytes) (σ : W.maker.disk.State)
        → make_repo W flags p.files ≡ (ok dir, σ)
        → W.dir_fs dir σ ≡ readable (some n) text)
    → IsNamed n
    → T.items W.fresh ≡ []
    → W.reader (W.written (archived W n text)) ≡ ok es
    → Unpacks (entries_of (T.items (archived W n text))) es
    → (init_tuf_repo W flags (b'/' ∷ d) p).0 ≡ ok tt
    → let after = (init_tuf_repo W flags (b'/' ∷ d) p).1 in
      (dir root_json : Bytes) × (σ : W.maker.disk.State) × (make_repo W flags p.files ≡ (ok dir, σ))
      × (root_of W σ ≡ ok root_json)
      × Stored W flags flags.no_k8s
          (repo_entries W root_json (W.written (archived W n text)))
          p.cluster
          after.cluster
      × Unpacked
          (file_system W)
          K
          (b'/' ∷ d)
          (tree_entries text left_out (codes "repository") (codes "repository") n)
          σ
          after.files
init_tuf_repo-Served W flags K T d p n text es law differ read named fresh back u h =
    let (dir, root_json, repository, σ, made, root, comp, unpacked, stored) =
      init_tuf_repo-Stored W flags (b'/' ∷ d) p law differ h in
    let same = compressed-written W dir repository σ n text (read dir σ made) comp in
    let unpack = uncompress (file_system W) in
    let copied =
      uncompress-compress_fs_named (file_system W) K W.writer T d text left_out n es σ W.fresh named
        fresh u in
    let end = ap (λ r. unpack r (b'/' ∷ d) σ) (sym (ap W.reader same ∙ back)) ∙ unpacked in
    (
      dir,
      root_json,
      σ,
      made,
      root,
      subst
          (λ s.
            Stored W flags flags.no_k8s (repo_entries W root_json s) p.cluster
              (init_tuf_repo W flags (b'/' ∷ d) p).1.cluster)
          same stored,
      subst
          (Unpacked (file_system W) K (b'/' ∷ d)
            (tree_entries text left_out (codes "repository") (codes "repository") n) σ)
          (ap (λ r. r.1) end) copied.1,
    )
