-- ===== src/Repo/Compress/Places.antt =====
-- In a tree of named files no two files stand in one place, so that an archive of it is unpacked.
use mathlib.Core.List.{append-nil, append_assoc, append_cancel_left, head-eq_of_cons-eq}
use scaffolding.Base.{
  ◌≡◌, refl, sym, ap, ◌∙◌, subst, Bytes, Bool-cases, inl, inr, List, [], ◌∷◌, ◌++◌, map, codes,
  some, ok, In, In-append, All, All-map, Distinct, Distinct-append,
}
use scaffolding.Repo.Paths.{parts, join}
use scaffolding.Repo.Paths.Clean.{IsPlain}
use scaffolding.Repo.Paths.Joined.{join_inj, join-has_prefix}
use scaffolding.Repo.Paths.Names.{IsName, valid_rel_path_names}
use scaffolding.Repo.Archive.Unpack.{Fits, Plain, directory_entry, file_entry, name_of, file_names}
use scaffolding.Repo.Compress.{Node, Nodes, plain, directory, no_nodes, node, is_skipped}
use scaffolding.Repo.Compress.Copied.{tree_entries, tree_entries_all}
use scaffolding.Repo.Compress.Named.{
  names_of, IsNamed, AreNamed, HasNames, Named, parts-child, tree_entries-Named,
  repository-HasNames,
}
use scaffolding.Files.{FileSystem, KeepsFiles}
use scaffolding.Repo.Archive.{Entries, uncompress}
use scaffolding.Repo.Archive.Unpack.{Unpacks, Unpacked}
use scaffolding.Repo.Compress.{TarWriter, compress_fs}
use scaffolding.Repo.Compress.Listing.{KeepsItems, readable}
use scaffolding.Repo.Compress.Copied.{entries_of, uncompress-compress_fs}

file_names-append : (l k : List Plain) → file_names (l ++ k) ≡ file_names l ++ file_names k
file_names-append [] k = refl
file_names-append (directory_entry p ∷ l) k = file_names-append l k
file_names-append (file_entry p s ∷ l) k = ap (λ t. p ∷ t) (file_names-append l k)

-- A path that is this one or stands below it.
abbrev Under : Bytes → Bytes → Type 0
Under path q = (ps : List Bytes) × (parts q ≡ parts path ++ ps)

-- Below one directory different names are different places.
Under-inj :
    (dir a b q : Bytes)
    → IsName a
    → IsName b
    → Under (dir ++ (b'/' ∷ a)) q
    → Under (dir ++ (b'/' ∷ b)) q
    → a ≡ b
Under-inj dir a b q ha hb (ps, e) (qs, f) = head-eq_of_cons-eq (
    append_cancel_left (parts dir) (a ∷ ps) (b ∷ qs) (
      sym (append_assoc (parts dir) (a ∷ []) ps)
      ∙ ap (λ l. l ++ ps) (sym (parts-child dir a ha))
      ∙ sym e
      ∙ f
      ∙ ap (λ l. l ++ qs) (parts-child dir b hb)
      ∙ append_assoc (parts dir) (b ∷ []) qs))

Under-child : (dir name q : Bytes) → IsName name → Under (dir ++ (b'/' ∷ name)) q → Under dir q
Under-child dir name q h (ps, e) = (
  name ∷ ps,
  e ∙ ap (λ l. l ++ ps) (parts-child dir name h) ∙ append_assoc (parts dir) (name ∷ []) ps,
)

module _ (text : Bytes → Bytes) (skips : List Bytes) where
  abbrev files : Bytes → Bytes → Node → List Bytes
  files path name n = file_names (tree_entries text skips path name n)

  abbrev files_all : Bytes → Nodes → List Bytes
  files_all dir nodes = file_names (tree_entries_all text skips dir nodes)

  files_all-append :
      (dir name : Bytes) (n : Node) (rest : Nodes)
      → files_all dir (node name n rest) ≡ files (dir ++ (b'/' ∷ name)) name n ++ files_all dir rest
  unfolding tree_entries_all
  files_all-append dir name n rest =
      file_names-append (tree_entries text skips (dir ++ (b'/' ∷ name)) name n)
        (tree_entries_all text skips dir rest)

  -- Where a file of a tree stands, and under which child of a directory.
  mutual
    unfolding tree_entries IsNamed

    files-Under :
        (path name : Bytes) (n : Node) (q : Bytes)
        → IsNamed n
        → In q (files path name n)
        → Under path q
    files-Under path name plain q h (inl e) = ([], ap parts e ∙ sym (append-nil (parts path)))
    files-Under path name plain q h (inr i) = absurd i
    files-Under path name (directory nodes) q h i = elim (Bool-cases (is_skipped name skips)) [
      | inl e ↦ absurd (rw e at i)
      | inr e ↦
          let (child, a, isname, under) = files_all-Under path nodes q h.1 (rw e at i) in
          Under-child path child q isname under
    ]

    files_all-Under :
        (dir : Bytes) (nodes : Nodes) (q : Bytes)
        → AreNamed nodes
        → In q (files_all dir nodes)
        → (child : Bytes) × In child (names_of nodes)
          × IsName child
          × Under (dir ++ (b'/' ∷ child)) q
    files_all-Under dir no_nodes q a i = absurd i
    files_all-Under dir (node name n rest) q (isname, named, a) i =
        elim (In-append q (files (dir ++ (b'/' ∷ name)) name n) (files_all dir rest)
          (subst (In q) (files_all-append dir name n rest) i)) [
            | inl j ↦ (name, inl refl, isname, files-Under (dir ++ (b'/' ∷ name)) name n q named j)
            | inr j ↦
                let (child, k, other, under) = files_all-Under dir rest q a j in
                (child, inr k, other, under)
          ]

  mutual
    unfolding tree_entries IsNamed

    files-Distinct : (path name : Bytes) (n : Node) → IsNamed n → Distinct (files path name n)
    files-Distinct path name plain h = ((λ i. i), tt)
    files-Distinct path name (directory nodes) h = elim (Bool-cases (is_skipped name skips)) [
      | inl e ↦ rw e tt
      | inr e ↦ rw e (files_all-Distinct path nodes h.0 h.1)
    ]

    files_all-Distinct :
        (dir : Bytes) (nodes : Nodes)
        → Distinct (names_of nodes)
        → AreNamed nodes
        → Distinct (files_all dir nodes)
    files_all-Distinct dir no_nodes d a = tt
    files_all-Distinct dir (node name n rest) d (isname, named, a) =
        subst Distinct (sym (files_all-append dir name n rest)) (
          Distinct-append (files (dir ++ (b'/' ∷ name)) name n) (files_all dir rest)
            (files-Distinct (dir ++ (b'/' ∷ name)) name n named) (files_all-Distinct dir rest d.1 a)
            (λ q i j.
              let (child, k, other, under) = files_all-Under dir rest q a j in
              d.0 (
                subst (λ c. In c (names_of rest))
                  (Under-inj dir child name q other isname under
                    (files-Under (dir ++ (b'/' ∷ name)) name n q named i))
                  k)))

In-map :
    (f : Bytes → Bytes) (P : Bytes → Type 0) (x : Bytes) (xs : List Bytes)
    → ((a b : Bytes) → P a → P b → f a ≡ f b → a ≡ b)
    → P x
    → All P xs
    → In (f x) (map f xs)
    → In x xs
In-map f P x [] inj p h i = absurd i
In-map f P x (y ∷ xs) inj p h (inl e) = inl (inj x y p h.0 e)
In-map f P x (y ∷ xs) inj p h (inr i) = inr (In-map f P x xs inj p h.1 i)

Distinct-map :
    (f : Bytes → Bytes) (P : Bytes → Type 0) (xs : List Bytes)
    → ((a b : Bytes) → P a → P b → f a ≡ f b → a ≡ b)
    → All P xs
    → Distinct xs
    → Distinct (map f xs)
Distinct-map f P [] inj h d = tt
Distinct-map f P (x ∷ xs) inj h d =
    (λ i. d.0 (In-map f P x xs inj h.0 h.1 i), Distinct-map f P xs inj h.1 d.1)

file_names-HasNames : (l : List Plain) → Named l → All HasNames (file_names l)
file_names-HasNames [] h = tt
file_names-HasNames (directory_entry p ∷ l) h = file_names-HasNames l h.1
file_names-HasNames (file_entry p s ∷ l) h = (h.0, file_names-HasNames l h.1)

HasNames-IsPlain : (path : Bytes) → HasNames path → All IsPlain (parts path)
HasNames-IsPlain path h = All-map IsName IsPlain (parts path) (λ p n. n.0) h

names-Fits : (d : Bytes) (l : List Plain) → Named l → All (Fits (b'/' ∷ d)) (map name_of l)
names-Fits d [] h = tt
names-Fits d (e ∷ l) h = (
  (
    valid_rel_path_names (name_of e) h.0,
    join-has_prefix d (name_of e) (HasNames-IsPlain (name_of e) h.0),
  ),
  names-Fits d l h.1,
)

-- What `CompressFS` writes of a tree that can be read, on a new writer on which every call succeeds,
-- given back by a reader entry by entry, is unpacked by `Uncompress`, on a disk on which every call
-- succeeds, without an error: each file of the tree outside of the directories that are skipped is
-- read below the directory with its own text, and no other file has changed. The directory is given
-- from the root, the names in each directory of the tree are distinct, and each is the name of a file
-- with no backslash in it and no `..` at its end.
pub uncompress-compress_fs_named :
    (F : FileSystem) (K : KeepsFiles F) (W : TarWriter) (T : KeepsItems W) (d : Bytes)
    (text : Bytes → Bytes) (skips : List Bytes) (n : Node) (es : Entries) (σ : F.State)
    (fresh : W.State)
    → IsNamed n
    → T.items fresh ≡ []
    → Unpacks (entries_of (T.items (compress_fs (readable (some n) text) W skips fresh).1)) es
    → let tree = tree_entries text skips (codes "repository") (codes "repository") n in
      ((uncompress F (ok es) (b'/' ∷ d) σ).0 ≡ ok tt)
      × Unpacked F K (b'/' ∷ d) tree σ (uncompress F (ok es) (b'/' ∷ d) σ).1
uncompress-compress_fs_named F K W T d text skips n es σ fresh h new u =
    let tree = tree_entries text skips (codes "repository") (codes "repository") n in
    let named =
      tree_entries-Named text skips (codes "repository") (codes "repository") n repository-HasNames
        h in
    uncompress-compress_fs F K W T (b'/' ∷ d) text skips n es σ fresh new u
      (names-Fits d tree named)
      (Distinct-map (join (b'/' ∷ d)) HasNames (file_names tree)
        (λ a b p q. join_inj d a b (HasNames-IsPlain a p) (HasNames-IsPlain b q))
        (file_names-HasNames tree named)
        (files-Distinct text skips (codes "repository") (codes "repository") n h))
