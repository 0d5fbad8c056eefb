-- ===== src/Server/Sources.antt =====
-- Where the files of the repository come from.
use scaffolding.Base.{
  ◌≡◌, refl, Bytes, Bool, true, false, ◌⊎◌, inl, inr, some, List, [], ◌∷◌, codes, ok, wrap,
  wrap-eq-ok, >>=-eq-ok, ok-injective, contains, In, arith, ap, subst, sym, ◌∙◌,
}
use scaffolding.Base.Dict.{Dict, lookup, insert, lookup-insert, lookup-nil}
use scaffolding.Base.Trim.{trim_space, trim_slash}
use scaffolding.Certs.{CertCodec, split_cert_chain}
use scaffolding.Server.{
  DirEntry, SecretsDir, file_path, is_left, add_cert_files, add_bytes, add_file, add_files,
  read_targets,
}

module _ (C : CertCodec) (D : SecretsDir) (d : Bytes) where
  -- What one file gives to the repository under a name.
  pub data Gives (entry : DirEntry) (k v : Bytes) : Type 0 where
    whole :
        is_left entry ≡ false
        → contains entry.name (codes "tsa") ≡ false
        → k ≡ entry.name
        → D.read_file (file_path d entry.name) ≡ ok v
        → Gives entry k v
    part :
        (bytes w : Bytes) (cert_files : Dict Bytes)
        → is_left entry ≡ false
        → contains entry.name (codes "tsa") ≡ true
        → D.read_file (file_path d entry.name) ≡ ok bytes
        → split_cert_chain C bytes (codes "tsa") ≡ ok cert_files
        → In (k, w) cert_files
        → v ≡ trim_space w
        → Gives entry k v

lookup-insert-cases :
    (k j v w : Bytes) (f : Dict Bytes)
    → lookup j (insert k v f) ≡ some w
    → ((j ≡ k) × (w ≡ v)) ⊎ (lookup j f ≡ some w)
lookup-insert-cases k j v w f h = ground (arith, lookup-insert k j v f)

add_cert_files-cases :
    (certs files : Dict Bytes) (k v : Bytes)
    → lookup k (add_cert_files certs files) ≡ some v
    → ((w : Bytes) × In (k, w) certs × (v ≡ trim_space w)) ⊎ (lookup k files ≡ some v)
unfolding add_cert_files
add_cert_files-cases [] files k v h = inr h
add_cert_files-cases ((j, u) ∷ certs) files k v h =
    elim (add_cert_files-cases certs (insert j (trim_space u) files) k v h) [
      | inl (w, i, e) ↦ inl (w, inr i, e)
      | inr e ↦ elim (lookup-insert-cases j k (trim_space u) v files e) [
        | inl (p, q) ↦ inl (u, inl (ap (λ x. (x, u)) p), q)
        | inr q ↦ inr q
      ]
    ]

module _ (C : CertCodec) (D : SecretsDir) (d : Bytes) where
  -- Where the files can come from.
  pub data HasSource (entries : List DirEntry) (k v : Bytes) : Type 0 where
    source : (entry : DirEntry) → In entry entries → Gives C D d entry k v → HasSource entries k v

  add_bytes-Gives :
      (entry : DirEntry) (b : Bool) (bytes : Bytes) (files files' : Dict Bytes) (k v : Bytes)
      → is_left entry ≡ false
      → D.read_file (file_path d entry.name) ≡ ok bytes
      → contains entry.name (codes "tsa") ≡ b
      → add_bytes C D b entry.name bytes files ≡ ok files'
      → lookup k files' ≡ some v
      → Gives C D d entry k v ⊎ (lookup k files ≡ some v)
  unfolding add_bytes
  add_bytes-Gives entry true bytes files files' k v l r t h q =
      let split = split_cert_chain C bytes (codes "tsa") in
      let (certs, e1, e2) = >>=-eq-ok (wrap "failed to parse %s: %w" split) _ h in
      elim (add_cert_files-cases certs files k v
        (subst (λ f. lookup k f ≡ some v) (sym (ok-injective e2)) q)) [
          | inl (w, i, e) ↦ inl (part bytes w certs l t r (wrap-eq-ok _ split e1) i e)
          | inr e ↦ inr e
        ]
  add_bytes-Gives entry false bytes files files' k v l r t h q =
      elim (lookup-insert-cases entry.name k bytes v files
        (subst (λ f. lookup k f ≡ some v) (sym (ok-injective h)) q)) [
          | inl (p, e) ↦ inl (whole l t p (r ∙ ap (λ x. ok x) (sym e)))
          | inr e ↦ inr e
        ]

  add_file-Gives :
      (entry : DirEntry) (b : Bool) (files files' : Dict Bytes) (k v : Bytes)
      → is_left entry ≡ b
      → add_file C D b d entry.name files ≡ ok files'
      → lookup k files' ≡ some v
      → Gives C D d entry k v ⊎ (lookup k files ≡ some v)
  unfolding add_file
  add_file-Gives entry true files files' k v l h q =
      inr (subst (λ f. lookup k f ≡ some v) (sym (ok-injective h)) q)
  add_file-Gives entry false files files' k v l h q =
      let read = D.read_file (file_path d entry.name) in
      let (bytes, e1, e2) = >>=-eq-ok (wrap "failed to read file %s: %w" read) _ h in
      add_bytes-Gives entry _ bytes files files' k v l (wrap-eq-ok _ read e1) refl e2 q

  add_files-HasSource :
      (entries : List DirEntry) (files files' : Dict Bytes) (k v : Bytes)
      → add_files C D d entries files ≡ ok files'
      → lookup k files' ≡ some v
      → HasSource entries k v ⊎ (lookup k files ≡ some v)
  unfolding add_files
  add_files-HasSource [] files files' k v h q =
      inr (subst (λ f. lookup k f ≡ some v) (sym (ok-injective h)) q)
  add_files-HasSource (entry ∷ entries) files files' k v h q =
      let (first, e1, e2) = >>=-eq-ok (add_file C D (is_left entry) d entry.name files) _ h in
      elim (add_files-HasSource entries first files' k v e2 q) [
        | inl (source e i g) ↦ inl (source e (inr i) g)
        | inr r ↦ elim (add_file-Gives entry _ files first k v refl e1 r) [
          | inl g ↦ inl (source entry (inl refl) g)
          | inr old ↦ inr old
        ]
      ]

module _ (C : CertCodec) (D : SecretsDir) where
  -- Every file that the server puts into its repository is one file of the directory, whole and under
  -- its name, which does not contain `tsa`, or one of the trimmed certificates of a file with `tsa` in
  -- its name; none comes from a directory or from a name that begins with two dots.
  pub read_targets-HasSource :
      (certs_dir k v : Bytes) (files : Dict Bytes)
      → read_targets C D certs_dir ≡ ok files
      → lookup k files ≡ some v
      → (entries : List DirEntry) × (D.read_dir (trim_slash certs_dir) ≡ ok entries)
        × HasSource C D (trim_slash certs_dir) entries k v
  unfolding read_targets
  read_targets-HasSource certs_dir k v files h q =
      let listed = D.read_dir (trim_slash certs_dir) in
      let (entries, e1, e2) = >>=-eq-ok (wrap "failed to read dir %s: %w" listed) _ h in
      (
        entries,
        wrap-eq-ok _ listed e1,
        elim (add_files-HasSource C D (trim_slash certs_dir) entries [] files k v e2 q) [
          | inl s ↦ s
          | inr e ↦ absurd (cc (e, lookup-nil k))
        ],
      )
