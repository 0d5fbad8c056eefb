-- ===== src/Repo/Compress/Named.antt =====
-- A tree whose names are names of files, distinct in each directory: its paths pass the checks of
-- `Uncompress`.
use scaffolding.Base.{
  ◌≡◌, refl, sym, ap, ◌∙◌, subst, Bytes, false, Bool-cases, inl, inr, List, [], ◌∷◌, ◌++◌, codes,
  eqb, contains, has_prefix, has_suffix, All, All-append, Distinct, arith,
}
use scaffolding.Repo.Paths.{split_path, parts}
use scaffolding.Repo.Paths.Clean.{parts-append}
use scaffolding.Repo.Paths.Names.{IsName}
use scaffolding.Repo.Archive.Unpack.{Plain, name_of}
use scaffolding.Repo.Compress.{Node, Nodes, plain, directory, no_nodes, node, is_skipped}
use scaffolding.Repo.Compress.Copied.{tree_entries, tree_entries_all}

abbrev pub names_of : Nodes → List Bytes
names_of no_nodes = []
names_of (node name n rest) = name ∷ names_of rest

unfoldable mutual
  pub IsNamed : Node → Type 0
  IsNamed plain = Unit
  IsNamed (directory nodes) = Distinct (names_of nodes) × AreNamed nodes

  pub AreNamed : Nodes → Type 0
  AreNamed no_nodes = Unit
  AreNamed (node name n rest) = IsName name × IsNamed n × AreNamed rest

-- A text without a separator is one part.
parts_name : (s : Bytes) → contains s (codes "/") ≡ false → parts s ≡ s ∷ []
unfolding parts split_path contains has_prefix
parts_name [] h = refl
parts_name (c ∷ s) h =
    let first : eqb c b'/' ≡ false = ground arith in
    let rest : contains s (codes "/") ≡ false = ground arith in
    rw first
      (ap (λ (l : List Bytes). elim l [ [] ↦ [] | p ∷ ps ↦ (c ∷ p) ∷ ps ]) (parts_name s rest))

pub parts-child :
    (dir name : Bytes) → IsName name → parts (dir ++ (b'/' ∷ name)) ≡ parts dir ++ (name ∷ [])
parts-child dir name h = parts-append dir name ∙ ap (λ ps. parts dir ++ ps) (parts_name name h.1)

-- A path all of whose parts are names.
abbrev pub HasNames : Bytes → Type 0
HasNames path = All IsName (parts path)

child-HasNames : (dir name : Bytes) → HasNames dir → IsName name → HasNames (dir ++ (b'/' ∷ name))
child-HasNames dir name h n =
    subst (All IsName) (sym (parts-child dir name n))
      (All-append IsName (parts dir) (name ∷ []) h (n, tt))

pub repository-HasNames : HasNames (codes "repository")
unfolding parts split_path contains has_prefix has_suffix
repository-HasNames = (((λ e. cc, λ e. cc, λ e. cc), refl, refl, refl), tt)

abbrev pub Named : List Plain → Type 0
Named l = All (λ e. HasNames (name_of e)) l

module _ (text : Bytes → Bytes) (skips : List Bytes) where
  mutual
    unfolding tree_entries IsNamed

    pub tree_entries-Named :
        (path name : Bytes) (n : Node)
        → HasNames path
        → IsNamed n
        → Named (tree_entries text skips path name n)
    tree_entries-Named path name plain h n = (h, tt)
    tree_entries-Named path name (directory nodes) h n = elim (Bool-cases (is_skipped name skips)) [
      | inl e ↦ rw e tt
      | inr e ↦ rw e (h, tree_entries_all-Named path nodes h n.1)
    ]

    tree_entries_all-Named :
        (dir : Bytes) (nodes : Nodes)
        → HasNames dir
        → AreNamed nodes
        → Named (tree_entries_all text skips dir nodes)
    tree_entries_all-Named dir no_nodes h a = tt
    tree_entries_all-Named dir (node name n rest) h (i, m, a) =
        All-append (λ e. HasNames (name_of e))
          (tree_entries text skips (dir ++ (b'/' ∷ name)) name n)
          (tree_entries_all text skips dir rest)
          (tree_entries-Named (dir ++ (b'/' ∷ name)) name n (child-HasNames dir name h i) m)
          (tree_entries_all-Named dir rest h a)
