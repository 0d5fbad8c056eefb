-- ===== src/Repo/Archive/Safe.antt =====
-- An archive cannot write outside its directory.
use scaffolding.Base.{
  ◌≡◌, refl, sym, subst, [], ◌∷◌, inl, inr, Bytes, Result, ok, err, panic, exit, has_prefix,
  Bool-cases,
}
use scaffolding.Cluster.{Exec, continue, ◌>>◌, lift}
use scaffolding.Files.{FileSystem, FileCall, mkdir_all, open_file, write, close, file_call, path_of}
use scaffolding.Repo.Paths.{clean, join, valid_rel_path}
use scaffolding.Repo.Paths.Below.{IsBelow, join-IsBelow}
use scaffolding.Repo.Archive.{
  Content, more, at_end, broken, Header, TypeFlag, type_dir, type_reg, type_other, Entries,
  end_of_archive, next_fails, entry, write_piece, copy_contents, write_regular, make_directory,
  write_entry, extract, extract_all, uncompress,
}

module _ (F : FileSystem) (Inv : F.State → Type 0) where
  -- Every call about the path keeps the property of the files.
  abbrev Harmless : Bytes → Type 0
  Harmless p = (c : FileCall) (σ : F.State) → path_of c ≡ p → Inv σ → Inv (F.run c σ).1

  abbrev Keeps : Exec F.State (Unit {0}) → Type 0
  Keeps m = (σ : F.State) → Inv σ → Inv (m σ).1

  continue-Keeps :
      (r : Result (Unit {0})) (n : Exec F.State (Unit {0})) (σ : F.State)
      → Keeps n
      → Inv σ
      → Inv (continue r (λ x. n) σ).1
  continue-Keeps (ok x) n σ k i = k σ i
  continue-Keeps (err e) n σ k i = i
  continue-Keeps (panic t) n σ k i = i
  continue-Keeps (exit s) n σ k i = i

  then-Keeps : (m n : Exec F.State (Unit {0})) → Keeps m → Keeps n → Keeps (m >> n)
  then-Keeps m n h k σ i = continue-Keeps (m σ).0 n (m σ).1 k (h σ i)

  write_piece-Keeps : (p s : Bytes) → Harmless p → Keeps (write_piece F p s)
  unfolding write_piece
  write_piece-Keeps p [] h = λ σ i. i
  write_piece-Keeps p (c ∷ s) h = λ σ i. h (write p (c ∷ s)) σ refl i

  copy_contents-Keeps :
      (p : Bytes) (content : Content) → Harmless p → Keeps (copy_contents F p content)
  unfolding copy_contents
  copy_contents-Keeps p (at_end s) h = write_piece-Keeps p s h
  copy_contents-Keeps p (broken s e) h =
      then-Keeps (write_piece F p s) (lift (err e)) (write_piece-Keeps p s h) (λ σ i. i)
  copy_contents-Keeps p (more s rest) h =
      then-Keeps (file_call F (write p s)) (copy_contents F p rest) (λ σ i. h (write p s) σ refl i)
        (copy_contents-Keeps p rest h)

  write_regular-Keeps :
      (p : Bytes) (header : Header) (content : Content)
      → Harmless p
      → Keeps (write_regular F p header content)
  unfolding write_regular
  write_regular-Keeps p header content h =
      then-Keeps (file_call F (open_file p header.mode)) _
        (λ σ i. h (open_file p header.mode) σ refl i)
        (then-Keeps (copy_contents F p content) _ (copy_contents-Keeps p content h)
          (λ σ i. h (close p) σ refl i))

  make_directory-Keeps : (p : Bytes) → Harmless p → Keeps (make_directory F p)
  unfolding make_directory
  make_directory-Keeps p h σ i = elim (Bool-cases (F.exists p σ)) [
    | inl e ↦ rw e i
    | inr e ↦ rw e (h (mkdir_all p) σ refl i)
  ]

  write_entry-Keeps :
      (p : Bytes) (header : Header) (t : TypeFlag) (content : Content)
      → Harmless p
      → Keeps (write_entry F p header t content)
  unfolding write_entry
  write_entry-Keeps p header type_dir content h = make_directory-Keeps p h
  write_entry-Keeps p header type_reg content h = write_regular-Keeps p header content h
  write_entry-Keeps p header type_other content h = λ σ i. i

  module _ (d : Bytes) where
    -- Every call about a path below the directory keeps the property.
    abbrev pub KeepsBelow : Type 0
    KeepsBelow =
        (c : FileCall) (σ : F.State) → IsBelow (b'/' ∷ d) (path_of c) → Inv σ → Inv (F.run c σ).1

    extract-Keeps :
        KeepsBelow
        → (header : Header) (content : Content) → Keeps (extract F (b'/' ∷ d) header content)
    unfolding extract
    extract-Keeps h header content σ i = elim (Bool-cases (valid_rel_path header.name)) [
      | inr e ↦ rw e i
      | inl e ↦
          rw e (elim (Bool-cases (has_prefix (join (b'/' ∷ d) header.name) (clean (b'/' ∷ d)))) [
            | inr e' ↦ rw e' i
            | inl e' ↦ rw e' (
                write_entry-Keeps (join (b'/' ∷ d) header.name) header header.type_flag content
                  (λ c σ q.
                    h c σ (subst (IsBelow (b'/' ∷ d)) (sym q) (join-IsBelow d header.name e e')))
                  σ i)
          ])
    ]

    extract_all-Keeps : KeepsBelow → (entries : Entries) → Keeps (extract_all F (b'/' ∷ d) entries)
    unfolding extract_all
    extract_all-Keeps h end_of_archive = λ σ i. i
    extract_all-Keeps h (next_fails e) = λ σ i. i
    extract_all-Keeps h (entry header content rest) =
        then-Keeps (extract F (b'/' ∷ d) header content) (extract_all F (b'/' ∷ d) rest)
          (extract-Keeps h header content) (extract_all-Keeps h rest)

    -- Whatever the archive holds and however the call ends, a property of the files that no call
    -- about a path below the directory breaks is kept: all the calls are about such paths. A
    -- path below the directory is the cleaned directory with names after it that are not empty, not
    -- `.` and not `..`, and have no separator in them. The directory is given from the root.
    pub uncompress-IsBelow :
        (src : Result Entries) (σ : F.State)
        → KeepsBelow
        → Inv σ
        → Inv (uncompress F src (b'/' ∷ d) σ).1
    unfolding uncompress
    uncompress-IsBelow (ok entries) σ h i = extract_all-Keeps h entries σ i
    uncompress-IsBelow (err e) σ h i = i
    uncompress-IsBelow (panic t) σ h i = i
    uncompress-IsBelow (exit n) σ h i = i
