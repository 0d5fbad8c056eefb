-- ===== src/Repo/Archive/Unpack.antt =====
-- What `Uncompress` leaves on a disk of a well-formed archive.
use mathlib.Core.List.{append_assoc, append-nil}
use scaffolding.Base.{
  ◌≡◌, ◌≢◌, refl, sym, ap, ◌∙◌, subst, Bytes, true, Bool-cases, inl, inr, some, List, [], ◌∷◌, ◌++◌,
  map, Result, ok, In, All, Distinct, has_prefix,
}
use scaffolding.Cluster.{Exec, ◌>>◌}
use scaffolding.Files.{
  KeepsFiles, FileSystem, FileCall, mkdir_all, open_file, write, close, file_call,
}
use scaffolding.Repo.Paths.{clean, join, valid_rel_path}
use scaffolding.Repo.Archive.{
  Content, more, at_end, broken, Header, type_dir, type_reg, Entries, end_of_archive, next_fails,
  entry, write_piece, copy_contents, write_regular, make_directory, write_entry, extract,
  extract_all,
}

-- The pieces that are read of an entry make this text.
abbrev pub Holds : Bytes → Content → Type 0
Holds s (at_end t) = s ≡ t
Holds s (broken t e) = ⊥
Holds s (more t rest) = (u : Bytes) × (s ≡ t ++ u) × Holds u rest

-- The checks on the name of an entry.
abbrev pub Fits : Bytes → Bytes → Type 0
Fits dst p = (valid_rel_path p ≡ true) × (has_prefix (join dst p) (clean dst) ≡ true)

module _ (F : FileSystem) (K : KeepsFiles F) where
  -- A computation that ends well.
  abbrev pub EndsIn : (F.State → Type 0) → Result (Unit {0}) × F.State → Type 0
  EndsIn P end = (end.0 ≡ ok tt) × P end.1

  file_call-EndsIn :
      (P : F.State → Type 0) (c : FileCall) (σ : F.State)
      → P (F.run c σ).1
      → EndsIn P (file_call F c σ)
  file_call-EndsIn P c σ p = (rw (K.succeeds c σ) refl, p)

  then-EndsIn :
      (P Q : F.State → Type 0) (m n : Exec F.State (Unit {0})) (σ : F.State)
      → EndsIn P (m σ)
      → ((τ : F.State) → P τ → EndsIn Q (n τ))
      → EndsIn Q ((m >> n) σ)
  then-EndsIn P Q m n σ (e, p) h = rw e (h (m σ).1 p)

  -- The files after the writes to one of them: its text, and the others as they were.
  abbrev Wrote : Bytes → Bytes → F.State → F.State → Type 0
  Wrote p s σ τ = (K.read p τ ≡ some s) × ((q : Bytes) → q ≢ p → K.read q τ ≡ K.read q σ)

  write_piece-Wrote :
      (p before t : Bytes) (start σ : F.State)
      → Wrote p before start σ
      → EndsIn (Wrote p (before ++ t) start) (write_piece F p t σ)
  unfolding write_piece
  write_piece-Wrote p before [] start σ (r, o) =
      (refl, (r ∙ ap (λ x. some x) (sym (append-nil before)), o))
  write_piece-Wrote p before (c ∷ t) start σ (r, o) =
      file_call-EndsIn (Wrote p (before ++ (c ∷ t)) start) (write p (c ∷ t)) σ
        (K.appended p before (c ∷ t) σ r, λ q n. K.others (write p (c ∷ t)) q σ n ∙ o q n)

  copy_contents-Wrote :
      (p s before : Bytes) (content : Content) (start σ : F.State)
      → Holds s content
      → Wrote p before start σ
      → EndsIn (Wrote p (before ++ s) start) (copy_contents F p content σ)
  unfolding copy_contents
  copy_contents-Wrote p s before (at_end t) start σ h w =
      subst (λ x. EndsIn (Wrote p (before ++ x) start) (write_piece F p t σ)) (sym h)
        (write_piece-Wrote p before t start σ w)
  copy_contents-Wrote p s before (broken t e) start σ h w = absurd h
  copy_contents-Wrote p s before (more t rest) start σ (u, e, h) (r, o) =
      subst (λ x. EndsIn (Wrote p x start) (copy_contents F p (more t rest) σ))
        (append_assoc before t u ∙ ap (λ x. before ++ x) (sym e))
        (then-EndsIn (Wrote p (before ++ t) start) (Wrote p ((before ++ t) ++ u) start)
          (file_call F (write p t)) (copy_contents F p rest) σ
          (file_call-EndsIn (Wrote p (before ++ t) start) (write p t) σ
            (K.appended p before t σ r, λ q n. K.others (write p t) q σ n ∙ o q n))
          (λ τ w. copy_contents-Wrote p u (before ++ t) rest start τ h w))

  write_regular-Wrote :
      (p s : Bytes) (h : Header) (content : Content) (σ : F.State)
      → Holds s content
      → EndsIn (Wrote p s σ) (write_regular F p h content σ)
  unfolding write_regular
  write_regular-Wrote p s h content σ holds =
      then-EndsIn (Wrote p [] σ) (Wrote p s σ) (file_call F (open_file p h.mode)) _ σ
        (file_call-EndsIn (Wrote p [] σ) (open_file p h.mode) σ
          (K.opened p h.mode σ, λ q n. K.others (open_file p h.mode) q σ n))
        (λ τ w.
          then-EndsIn (Wrote p s σ) (Wrote p s σ) (copy_contents F p content) _ τ
            (copy_contents-Wrote p s [] content σ τ holds w)
            (λ υ v. (
              rw (K.succeeds (close p) υ) refl,
              (K.closed p p υ ∙ v.0, λ q n. K.closed p q υ ∙ v.1 q n),
            )))

  -- No file has changed.
  abbrev Same : F.State → F.State → Type 0
  Same σ τ = (q : Bytes) → K.read q τ ≡ K.read q σ

  make_directory-Same : (p : Bytes) (σ : F.State) → EndsIn (Same σ) (make_directory F p σ)
  unfolding make_directory
  make_directory-Same p σ = elim (Bool-cases (F.exists p σ)) [
    | inl e ↦ rw (e, make_directory) (refl, λ q. refl)
    | inr e ↦ rw (e, make_directory) (file_call-EndsIn (Same σ) (mkdir_all p) σ (λ q. K.made p q σ))
  ]

  -- An entry whose name fits is written to its path.
  extract-Fits :
      (dst : Bytes) (h : Header) (content : Content) (σ : F.State)
      → Fits dst h.name
      → extract F dst h content σ ≡ write_entry F (join dst h.name) h h.type_flag content σ
  unfolding extract
  extract-Fits dst h content σ (v, b) = rw (v, b) refl

-- What a reader gives of an archive with these entries: a directory, or a file with its text in
-- pieces, for each.
pub data Plain : Type 0 where
  directory_entry : Bytes → Plain
  file_entry : Bytes → Bytes → Plain

abbrev pub name_of : Plain → Bytes
name_of (directory_entry p) = p
name_of (file_entry p s) = p

abbrev pub Unpacks : List Plain → Entries → Type 0
Unpacks [] end_of_archive = Unit
Unpacks (directory_entry p ∷ rest) (entry h content es) =
    (h.name ≡ p) × (h.type_flag ≡ type_dir) × Unpacks rest es
Unpacks (file_entry p s ∷ rest) (entry h content es) =
    (h.name ≡ p) × (h.type_flag ≡ type_reg) × Holds s content × Unpacks rest es
Unpacks _ _ = ⊥

-- The files among the entries.
abbrev pub file_names : List Plain → List Bytes
file_names [] = []
file_names (directory_entry p ∷ rest) = file_names rest
file_names (file_entry p s ∷ rest) = p ∷ file_names rest

module _ (F : FileSystem) (K : KeepsFiles F) (dst : Bytes) where
  -- Each file of the entries is read at its path.
  abbrev pub AreRead : List Plain → F.State → Type 0
  AreRead [] σ = Unit
  AreRead (directory_entry p ∷ rest) σ = AreRead rest σ
  AreRead (file_entry p s ∷ rest) σ = (K.read (join dst p) σ ≡ some s) × AreRead rest σ

  abbrev pub paths_of : List Plain → List Bytes
  paths_of l = map (join dst) (file_names l)

  -- The files of the entries are there, and all others are as they were.
  abbrev pub Unpacked : List Plain → F.State → F.State → Type 0
  Unpacked l σ τ = AreRead l τ × ((q : Bytes) → ¬ In q (paths_of l) → K.read q τ ≡ K.read q σ)

  extract-directory :
      (p : Bytes) (h : Header) (content : Content) (σ : F.State)
      → Fits dst p
      → h.name ≡ p
      → h.type_flag ≡ type_dir
      → EndsIn F K (Same F K σ) (extract F dst h content σ)
  unfolding write_entry
  extract-directory p h content σ f n t =
      subst (EndsIn F K (Same F K σ))
        (sym (extract-Fits F K dst h content σ (subst (Fits dst) (sym n) f)))
        (rw t (make_directory-Same F K (join dst h.name) σ))

  extract-file :
      (p s : Bytes) (h : Header) (content : Content) (σ : F.State)
      → Fits dst p
      → h.name ≡ p
      → h.type_flag ≡ type_reg
      → Holds s content
      → EndsIn F K (Wrote F K (join dst p) s σ) (extract F dst h content σ)
  unfolding write_entry
  extract-file p s h content σ f n t holds =
      subst (EndsIn F K (Wrote F K (join dst p) s σ))
        (sym (extract-Fits F K dst h content σ (subst (Fits dst) (sym n) f)))
        (rw t (
          subst
            (λ q.
              EndsIn F K (Wrote F K (join dst q) s σ)
                (write_regular F (join dst h.name) h content σ))
            n (write_regular-Wrote F K (join dst h.name) s h content σ holds)))

  pub extract_all-Unpacked :
      (l : List Plain) (es : Entries) (σ : F.State)
      → Unpacks l es
      → All (Fits dst) (map name_of l)
      → Distinct (paths_of l)
      → EndsIn F K (Unpacked l σ) (extract_all F dst es σ)
  unfolding extract_all
  extract_all-Unpacked [] end_of_archive σ u f d = (refl, (tt, λ q n. refl))
  extract_all-Unpacked [] (next_fails e) σ u f d = absurd u
  extract_all-Unpacked [] (entry h content es) σ u f d = absurd u
  extract_all-Unpacked (directory_entry p ∷ rest) end_of_archive σ u f d = absurd u
  extract_all-Unpacked (directory_entry p ∷ rest) (next_fails e) σ u f d = absurd u
  extract_all-Unpacked (file_entry p s ∷ rest) end_of_archive σ u f d = absurd u
  extract_all-Unpacked (file_entry p s ∷ rest) (next_fails e) σ u f d = absurd u
  extract_all-Unpacked (directory_entry p ∷ rest) (entry h content es) σ (n, t, u) (f, fs) d =
      then-EndsIn F K (Same F K σ) (Unpacked (directory_entry p ∷ rest) σ) (extract F dst h content)
        (extract_all F dst es) σ (extract-directory p h content σ f n t)
        (λ τ same.
          let (r, (read, others)) = extract_all-Unpacked rest es τ u fs d in
          (r, (read, λ q i. others q i ∙ same q)))
  extract_all-Unpacked (file_entry p s ∷ rest) (entry h content es) σ (n, t, holds, u) (f, fs) d =
      then-EndsIn F K (Wrote F K (join dst p) s σ) (Unpacked (file_entry p s ∷ rest) σ)
        (extract F dst h content) (extract_all F dst es) σ
        (extract-file p s h content σ f n t holds)
        (λ τ wrote.
          let (r, (read, others)) = extract_all-Unpacked rest es τ u fs d.1 in
          (
            r,
            (
              (others (join dst p) d.0 ∙ wrote.0, read),
              λ q i. others q (λ j. i (inr j)) ∙ wrote.1 q (λ e. i (inl e)),
            ),
          ))
