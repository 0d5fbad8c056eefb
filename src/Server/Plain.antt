-- ===== src/Server/Plain.antt =====
-- The files that are put into the repository as they are.
use scaffolding.Base.{
  ℕ, suc, ◌≡◌, ◌≢◌, refl, Bytes, Bool, true, false, ◌⊎◌, inl, inr, some, List, [], ◌∷◌, map, codes,
  ok, wrap, wrap-eq-ok, >>=-eq-ok, ok-injective, contains, In, All, Distinct, arith, ap, sym, ◌∙◌,
  subst, last, init,
}
use scaffolding.Base.Dict.{Dict, lookup, insert, lookup-insert}
use scaffolding.Base.Substring.{contains-append}
use scaffolding.Base.Trim.{trim_space, trim_slash}
use scaffolding.Certs.{
  CertCodec, leaf_name, root_name, intermediate_name, add_intermediates, split_certs,
  split_cert_chain,
}
use scaffolding.Server.{
  DirEntry, SecretsDir, file_path, is_left, add_cert_files, add_bytes, add_file, add_files,
  read_targets,
}

abbrev tsa : Bytes
tsa = codes "tsa"

abbrev NamesTsa : Dict Bytes → Type 0
NamesTsa = All (λ p. contains p.0 tsa ≡ true)

insert-NamesTsa :
    (k v : Bytes) (d : Dict Bytes) → contains k tsa ≡ true → NamesTsa d → NamesTsa (insert k v d)
unfolding insert
insert-NamesTsa k v [] c h = (c, h)
insert-NamesTsa k v ((j, w) ∷ d) c (a, h) = ground (arith, insert-NamesTsa k v d)

module _ (C : CertCodec) where
  add_intermediates-NamesTsa :
      (i : ℕ) (cs : List C.Cert) (d d' : Dict Bytes)
      → add_intermediates C tsa i cs d ≡ ok d'
      → NamesTsa d
      → NamesTsa d'
  unfolding add_intermediates intermediate_name
  add_intermediates-NamesTsa i [] d d' h n = subst NamesTsa (ok-injective h) n
  add_intermediates-NamesTsa i (c ∷ cs) d d' h n =
      let (pem, e1, e2) =
        >>=-eq-ok (wrap "marshaling intermediate cert %d: %w" (C.marshal c)) _ h in
      add_intermediates-NamesTsa (suc i) cs _ d' e2
        (insert-NamesTsa _ pem d (contains-append [] tsa _) n)

  split_certs-NamesTsa :
      (certs : List C.Cert) (d : Dict Bytes) → split_certs C tsa certs ≡ ok d → NamesTsa d
  unfolding split_certs leaf_name root_name
  split_certs-NamesTsa [] d h = absurd (cc)
  split_certs-NamesTsa (c ∷ []) d h = absurd (cc)
  split_certs-NamesTsa (c ∷ e ∷ certs) d h =
      let (leaf, e1, h1) = >>=-eq-ok (wrap "marshaling leaf cert: %w" (C.marshal c)) _ h in
      let (root, e2, h2) =
        >>=-eq-ok (wrap "marshaling root cert: %w" (C.marshal (last e certs))) _ h1 in
      add_intermediates-NamesTsa 0 (init (e ∷ certs)) _ d h2 (
        insert-NamesTsa _ root _ (contains-append [] tsa _)
          (insert-NamesTsa _ leaf [] (contains-append [] tsa _) tt))

  split_cert_chain-NamesTsa :
      (chain : Bytes) (d : Dict Bytes) → split_cert_chain C chain tsa ≡ ok d → NamesTsa d
  unfolding split_cert_chain
  split_cert_chain-NamesTsa chain d h =
      let (certs, e1, e2) =
        >>=-eq-ok (wrap "unmarshaling certificates: %w" (C.unmarshal chain)) _ h in
      split_certs-NamesTsa certs d e2

lookup-add_cert_files :
    (certs files : Dict Bytes) (k : Bytes)
    → NamesTsa certs
    → contains k tsa ≡ false
    → lookup k (add_cert_files certs files) ≡ lookup k files
unfolding add_cert_files
lookup-add_cert_files [] files k n c = refl
lookup-add_cert_files ((j, v) ∷ certs) files k (t, n) c =
    lookup-add_cert_files certs (insert j (trim_space v) files) k n c
    ∙ ground (arith, lookup-insert j k (trim_space v) files)

module _ (C : CertCodec) (D : SecretsDir) (d : Bytes) where
  add_bytes-other :
      (b : Bool) (name bytes k : Bytes) (files files' : Dict Bytes)
      → contains k tsa ≡ false
      → k ≢ name
      → add_bytes C D b name bytes files ≡ ok files'
      → lookup k files' ≡ lookup k files
  unfolding add_bytes
  add_bytes-other true name bytes k files files' c n h =
      let split = split_cert_chain C bytes tsa in
      let (certs, e1, e2) = >>=-eq-ok (wrap "failed to parse %s: %w" split) _ h in
      sym (ap (lookup k) (ok-injective e2))
      ∙ lookup-add_cert_files certs files k
          (split_cert_chain-NamesTsa C bytes certs (wrap-eq-ok _ split e1)) c
  add_bytes-other false name bytes k files files' c n h =
      sym (ap (lookup k) (ok-injective h)) ∙ ground (arith, lookup-insert name k bytes files)

  add_file-other :
      (b : Bool) (name k : Bytes) (files files' : Dict Bytes)
      → contains k tsa ≡ false
      → k ≢ name
      → add_file C D b d name files ≡ ok files'
      → lookup k files' ≡ lookup k files
  unfolding add_file
  add_file-other true name k files files' c n h = sym (ap (lookup k) (ok-injective h))
  add_file-other false name k files files' c n h =
      let read = D.read_file (file_path d name) in
      let (bytes, e1, e2) = >>=-eq-ok (wrap "failed to read file %s: %w" read) _ h in
      add_bytes-other _ name bytes k files files' c n e2

  add_files-other :
      (entries : List DirEntry) (k : Bytes) (files files' : Dict Bytes)
      → contains k tsa ≡ false
      → ¬ In k (map (λ e. e.name) entries)
      → add_files C D d entries files ≡ ok files'
      → lookup k files' ≡ lookup k files
  unfolding add_files
  add_files-other [] k files files' c n h = sym (ap (lookup k) (ok-injective h))
  add_files-other (e ∷ entries) k files files' c n h =
      let (first, e1, e2) = >>=-eq-ok (add_file C D (is_left e) d e.name files) _ h in
      add_files-other entries k first files' c (λ i. n (inr i)) e2
      ∙ add_file-other _ e.name k files first c (λ p. n (inl p)) e1

  -- The file is there and is to be put into the repository as it is.
  abbrev pub IsPlain : Bytes → Bytes → List DirEntry → Type 0
  IsPlain name v [] = ⊥
  IsPlain name v (e ∷ rest) =
      ((is_left e ≡ false) × (e.name ≡ name) × (D.read_file (file_path d name) ≡ ok v))
      ⊎ IsPlain name v rest

  add_plain :
      (name v : Bytes) (files files' : Dict Bytes)
      → contains name tsa ≡ false
      → D.read_file (file_path d name) ≡ ok v
      → add_file C D false d name files ≡ ok files'
      → lookup name files' ≡ some v
  unfolding add_file add_bytes
  add_plain name v files files' c r h =
      let (bytes, e1, e2) =
        >>=-eq-ok (wrap "failed to read file %s: %w" (D.read_file (file_path d name))) _ h in
      let same = ok-injective (sym r ∙ wrap-eq-ok _ (D.read_file (file_path d name)) e1) in
      let put = subst (λ b. add_bytes C D b name bytes files ≡ ok files') c e2 in
      sym (ap (lookup name) (ok-injective put))
      ∙ ground (arith, lookup-insert name name bytes files)

  add_files-plain :
      (entries : List DirEntry) (name v : Bytes) (files files' : Dict Bytes)
      → Distinct (map (λ e. e.name) entries)
      → contains name tsa ≡ false
      → IsPlain name v entries
      → add_files C D d entries files ≡ ok files'
      → lookup name files' ≡ some v
  unfolding add_files
  add_files-plain [] name v files files' u c p h = absurd p
  add_files-plain (e ∷ entries) name v files files' u c (inl (l, q, r)) h =
      let (first, e1, e2) = >>=-eq-ok (add_file C D (is_left e) d e.name files) _ h in
      let put = subst (λ b. add_file C D b d e.name files ≡ ok first) l e1 in
      add_files-other entries name first files' c
        (λ i. u.0 (subst (λ n. In n (map (λ e. e.name) entries)) (sym q) i)) e2
      ∙ add_plain name v files first c r
          (subst (λ n. add_file C D false d n files ≡ ok first) q put)
  add_files-plain (e ∷ entries) name v files files' u c (inr p) h =
      let (first, e1, e2) = >>=-eq-ok (add_file C D (is_left e) d e.name files) _ h in
      add_files-plain entries name v first files' u.1 c p e2

module _ (C : CertCodec) (D : SecretsDir) where
  -- When the names in the directory are distinct and its files could be read and split, each of its
  -- files that is not left alone and has no `tsa` in its name is among the files of the repository
  -- under its own name and with all its bytes: no certificate of a chain takes its place.
  pub read_targets-IsPlain :
      (certs_dir name v : Bytes) (entries : List DirEntry) (files : Dict Bytes)
      → D.read_dir (trim_slash certs_dir) ≡ ok entries
      → Distinct (map (λ e. e.name) entries)
      → contains name tsa ≡ false
      → IsPlain C D (trim_slash certs_dir) name v entries
      → read_targets C D certs_dir ≡ ok files
      → lookup name files ≡ some v
  unfolding read_targets
  read_targets-IsPlain certs_dir name v entries files r u c p h =
      let listed = D.read_dir (trim_slash certs_dir) in
      let (found, e1, e2) = >>=-eq-ok (wrap "failed to read dir %s: %w" listed) _ h in
      let same = ok-injective (sym (wrap-eq-ok _ listed e1) ∙ r) in
      add_files-plain C D (trim_slash certs_dir) entries name v [] files u c p
        (subst (λ l. add_files C D (trim_slash certs_dir) l [] ≡ ok files) same e2)
