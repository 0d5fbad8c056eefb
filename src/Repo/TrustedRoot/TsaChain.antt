-- ===== src/Repo/TrustedRoot/TsaChain.antt =====
-- From the chain file of the time stamping authority to its entry in trusted_root.json: split into
-- files by `SplitCertChain`, trimmed by the server, sorted, concatenated and parsed again.
use mathlib.Core.List.{append_assoc, append-nil}
use scaffolding.Base.{
  ℕ, suc, ◌+◌, ◌≤◌, ◌<◌, ◌≡◌, ◌≢◌, refl, sym, ap, ◌∙◌, Bytes, List, [], ◌∷◌, ◌++◌, map, length,
  arith,
}
use scaffolding.Certs.{leaf_name, root_name, intermediate_name}
use scaffolding.Certs.Names.{leaf_name-ne-intermediate_name, root_name-ne-intermediate_name}
use scaffolding.Repo.{TargetWithMetadata}
use scaffolding.Repo.Sort.{sort_targets}
use scaffolding.Repo.Sort.Laws.{
  Reorder, same, skip, swap, trans, IsSorted, sort_targets-IsSorted_eq, sort_targets-Reorder,
}
use scaffolding.Repo.TrustedRoot.Gather.{TsaFiles, tsa_step, gather_tsa}
use scaffolding.Repo.TrustedRoot.SplitNames.{
  tsa, contains-leaf_name, contains-root_name, less-root_name-leaf_name,
  intermediate_name-IsOrdered,
}

module _ {Cert : Type 0} (pem : Cert → Bytes) (meta : Bytes → Bytes) where
  -- The target of a file.
  abbrev pub target : Bytes → Bytes → TargetWithMetadata
  target name bytes = record { name = name; bytes = bytes; custom_metadata = meta name }

  abbrev pub leaf_target : Cert → TargetWithMetadata
  leaf_target c = target (leaf_name tsa) (pem c)

  abbrev pub root_target : Cert → TargetWithMetadata
  root_target c = target (root_name tsa) (pem c)

  abbrev pub inter_targets : ℕ → List Cert → List TargetWithMetadata
  inter_targets i [] = []
  inter_targets i (c ∷ cs) = target (intermediate_name tsa i) (pem c) ∷ inter_targets (suc i) cs

  -- In the order in which `SplitCertChain` makes the files
  abbrev pub chain_targets : Cert → List Cert → Cert → List TargetWithMetadata
  chain_targets leaf inters root = leaf_target leaf ∷ root_target root ∷ inter_targets 0 inters

  abbrev ends : Cert → Cert → List TargetWithMetadata
  ends leaf root = leaf_target leaf ∷ root_target root ∷ []

  -- A target with a name of its own may go behind the intermediates.
  move_behind :
      (t : TargetWithMetadata) (i : ℕ) (cs : List Cert) (l : List TargetWithMetadata)
      → ((j : ℕ) → t.name ≢ intermediate_name tsa j)
      → Reorder (t ∷ (inter_targets i cs ++ l)) (inter_targets i cs ++ (t ∷ l))
  move_behind t i [] l n = same (t ∷ l)
  move_behind t i (c ∷ cs) l n =
      trans
        (swap t (target (intermediate_name tsa i) (pem c)) (inter_targets (suc i) cs ++ l) (n i))
        (skip (target (intermediate_name tsa i) (pem c)) (move_behind t (suc i) cs l n))

  chain_targets-Reorder :
      (leaf root : Cert) (inters : List Cert)
      → Reorder
          (leaf_target leaf ∷ root_target root ∷ (inter_targets 0 inters ++ []))
          (inter_targets 0 inters ++ ends leaf root)
  chain_targets-Reorder leaf root inters =
      trans
        (skip (leaf_target leaf)
          (move_behind (root_target root) 0 inters [] (root_name-ne-intermediate_name tsa)))
        (move_behind (leaf_target leaf) 0 inters (root_target root ∷ [])
          (leaf_name-ne-intermediate_name tsa))

  inter_targets-IsSorted :
      (leaf root : Cert) (i : ℕ) (cs : List Cert)
      → i + length cs ≤ 10
      → IsSorted (inter_targets i cs ++ ends leaf root)
  inter_targets-IsSorted leaf root i [] h = (less-root_name-leaf_name, tt)
  inter_targets-IsSorted leaf root i (c ∷ []) h =
      ((intermediate_name-IsOrdered i (omega arith)).before_leaf, (less-root_name-leaf_name, tt))
  inter_targets-IsSorted leaf root i (c ∷ d ∷ cs) h = (
    (intermediate_name-IsOrdered i (omega arith)).before_next (omega arith),
    inter_targets-IsSorted leaf root (suc i) (d ∷ cs) (omega arith),
  )

  tsa_step-inter :
      (i : ℕ) (c : Cert) (f : TsaFiles)
      → i < 10
      → tsa_step (target (intermediate_name tsa i) (pem c)) f
        ≡ record f { intermed = f.intermed ++ (pem c ∷ []) }
  tsa_step-inter i c f h =
      let p = intermediate_name-IsOrdered i h in rw (p.no_leaf) (rw (p.inter) refl)

  gather_tsa-inter_targets :
      (i : ℕ) (cs : List Cert) (l : List TargetWithMetadata) (f : TsaFiles)
      → i + length cs ≤ 10
      → gather_tsa (inter_targets i cs ++ l) f
        ≡ gather_tsa l (record f { intermed = f.intermed ++ map pem cs })
  unfolding gather_tsa
  gather_tsa-inter_targets i [] l f h = rw append-nil refl
  gather_tsa-inter_targets i (c ∷ cs) l f h =
      ap (gather_tsa (inter_targets (suc i) cs ++ l)) (tsa_step-inter i c f (omega arith))
      ∙ gather_tsa-inter_targets (suc i) cs l (record f { intermed = f.intermed ++ (pem c ∷ []) })
          (omega arith)
      ∙ ap (λ t. gather_tsa l (record f { intermed = t }))
          (append_assoc f.intermed (pem c ∷ []) (map pem cs))

  gather_tsa-ends :
      (leaf root : Cert) (f : TsaFiles)
      → gather_tsa (ends leaf root) f ≡ record f { leaf = pem leaf; root = pem root }
  unfolding gather_tsa
  gather_tsa-ends leaf root f =
      rw contains-leaf_name (rw (contains-root_name.0) (rw (contains-root_name.1) refl))

  abbrev no_files : TsaFiles
  no_files = record { leaf = []; intermed = []; root = [] }

  -- Sorted by name, the targets of a chain of at most ten intermediates give the chain back.
  pub gather_tsa-chain_targets :
      (leaf root : Cert) (inters : List Cert)
      → length inters ≤ 10
      → gather_tsa (sort_targets (chain_targets leaf inters root)) no_files
        ≡ record { leaf = pem leaf; intermed = map pem inters; root = pem root }
  gather_tsa-chain_targets leaf root inters h =
      ap (λ l. gather_tsa (sort_targets (leaf_target leaf ∷ root_target root ∷ l)) no_files)
        (sym (append-nil (inter_targets 0 inters)))
      ∙ ap (λ l. gather_tsa l no_files)
          (sort_targets-Reorder (chain_targets-Reorder leaf root inters))
      ∙ ap (λ l. gather_tsa l no_files)
          (sort_targets-IsSorted_eq _ (inter_targets-IsSorted leaf root 0 inters (omega arith)))
      ∙ gather_tsa-inter_targets 0 inters (ends leaf root) no_files (omega arith)
      ∙ gather_tsa-ends leaf root (record no_files { intermed = map pem inters })
