-- ===== src/Jobs/TufSecret/Mounted.antt =====
-- The secret of the job, mounted as the directory that the TUF server reads: each file of the
-- repository is used for what the other jobs made it for.
use scaffolding.Base.{
  ◌≡◌, ◌≢◌, refl, sym, ap, ◌∙◌, subst, ◌⊎◌, inl, inr, Bytes, true, false, Bool-cases, some, List,
  [], codes, Result, ok, ok-injective, In, contains, has_prefix, lower, ==-eq, ◌==◌,
}
use scaffolding.Base.Dict.{Dict, lookup, index}
use scaffolding.Base.Trim.{trim_space, trim_slash}
use scaffolding.Cluster.{Got, found, not_found, failed, SecretInterface, IsLawful}
use scaffolding.Certs.{CertCodec, split_cert_chain}
use scaffolding.Secret.Effects.{Shows, overlay, overlay_nil, stored}
use scaffolding.Repo.{fulcio_target, rekor_target, ctfe_target, tsa_target}
use scaffolding.Repo.Usage.{get_target_usage}
use scaffolding.Repo.Usage.Split.{split_cert_chain-usage}
use scaffolding.Server.{DirEntry, SecretsDir, file_path, is_left, read_targets}
use scaffolding.Server.Sources.{Gives, whole, part, source, read_targets-HasSource}
use scaffolding.Jobs.TufSecret.{TufFlags, TufKeys, tuf_entries, create_tuf_secret}
use scaffolding.Jobs.TufSecret.Gathered.{AreHeld, create_tuf_secret-Shows}

-- The directory shows a secret, as Kubernetes mounts it: each file that the server does not leave
-- alone is an entry of the secret, with its value, which is not empty.
abbrev pub IsMounted : SecretsDir → Bytes → Got → Type 0
IsMounted D d g =
    (entries : List DirEntry) (e : DirEntry)
    → D.read_dir d ≡ ok entries
    → In e entries
    → is_left e ≡ false
    → (index (stored g) e.name ≢ [])
      × (D.read_file (file_path d e.name) ≡ ok (index (stored g) e.name))

-- A file of the repository is the certificate of Fulcio, the public key of the log or of Rekor, or a
-- certificate of the time stamping authority, and its usage says so.
abbrev pub IsUsedFor : CertCodec → TufKeys → Bytes → Bytes → Type 0
IsUsedFor C keys k v =
    ((get_target_usage k ≡ fulcio_target) × (v ≡ keys.f_cert))
    ⊎ ((get_target_usage k ≡ ctfe_target) × (v ≡ keys.c_pub))
    ⊎ ((get_target_usage k ≡ rekor_target) × (v ≡ keys.r_pub))
    ⊎ ((get_target_usage k ≡ tsa_target)
        × (w : Bytes) × (certs : Dict Bytes) × (split_cert_chain C keys.cert_chain (codes "tsa")
            ≡ ok certs)
        × In (k, w) certs
        × (v ≡ trim_space w))

-- The entry of a name.
data IsEntry (keys : TufKeys) (name v : Bytes) : Type 0 where
  fulcio : name ≡ codes "fulcio_v1.crt.pem" → v ≡ keys.f_cert → IsEntry keys name v
  ctfe : name ≡ codes "ctfe.pub" → v ≡ keys.c_pub → IsEntry keys name v
  rekor : name ≡ codes "rekor.pub" → v ≡ keys.r_pub → IsEntry keys name v
  tsa : name ≡ codes "tsa.certchain.pem" → v ≡ keys.cert_chain → IsEntry keys name v

index-IsEntry :
    (keys : TufKeys) (name : Bytes)
    → index (tuf_entries keys) name ≢ []
    → IsEntry keys name (index (tuf_entries keys) name)
unfolding lookup
index-IsEntry keys name n = elim (Bool-cases (codes "fulcio_v1.crt.pem" == name)) [
  | inl e ↦ fulcio (sym (==-eq _ name e)) (rw e refl)
  | inr e ↦ elim (Bool-cases (codes "ctfe.pub" == name)) [
    | inl f ↦ ctfe (sym (==-eq _ name f)) (rw (e, f) refl)
    | inr f ↦ elim (Bool-cases (codes "rekor.pub" == name)) [
      | inl g ↦ rekor (sym (==-eq _ name g)) (rw (e, f, g) refl)
      | inr g ↦ elim (Bool-cases (codes "tsa.certchain.pem" == name)) [
        | inl h ↦ tsa (sym (==-eq _ name h)) (rw (e, f, g, h) refl)
        | inr h ↦ absurd (n (rw (e, f, g, h) refl))
      ]
    ]
  ]
]

Shows-index :
    (keys : TufKeys) (g : Got) (name : Bytes)
    → Shows (overlay (tuf_entries keys) []) g
    → index (stored g) name ≡ index (tuf_entries keys) name
Shows-index keys (found t) name h = h name ∙ sym (overlay_nil name (tuf_entries keys))
Shows-index keys not_found name h = absurd h
Shows-index keys (failed e) name h = absurd h

module _ (C : CertCodec) (keys : TufKeys) where
  whole-IsUsedFor :
      (k v : Bytes) → contains k (codes "tsa") ≡ false → IsEntry keys k v → IsUsedFor C keys k v
  unfolding get_target_usage contains has_prefix lower
  whole-IsUsedFor k v n (fulcio e w) = inl (ap get_target_usage e, w)
  whole-IsUsedFor k v n (ctfe e w) = inr (inl (ap get_target_usage e, w))
  whole-IsUsedFor k v n (rekor e w) = inr (inr (inl (ap get_target_usage e, w)))
  whole-IsUsedFor k v n (tsa e w) = absurd (cc (n, ap (λ s. contains s (codes "tsa")) e))

  part-IsUsedFor :
      (name bytes k v w : Bytes) (certs : Dict Bytes)
      → contains name (codes "tsa") ≡ true
      → IsEntry keys name bytes
      → split_cert_chain C bytes (codes "tsa") ≡ ok certs
      → In (k, w) certs
      → v ≡ trim_space w
      → IsUsedFor C keys k v
  unfolding contains has_prefix
  part-IsUsedFor name bytes k v w certs t (fulcio e b) s i q =
      absurd (cc (t, ap (λ s. contains s (codes "tsa")) e))
  part-IsUsedFor name bytes k v w certs t (ctfe e b) s i q =
      absurd (cc (t, ap (λ s. contains s (codes "tsa")) e))
  part-IsUsedFor name bytes k v w certs t (rekor e b) s i q =
      absurd (cc (t, ap (λ s. contains s (codes "tsa")) e))
  part-IsUsedFor name bytes k v w certs t (tsa e b) s i q = inr (
      inr (
        inr (
          split_cert_chain-usage C bytes certs k w s i,
          w,
          certs,
          subst (λ c. split_cert_chain C c (codes "tsa") ≡ ok certs) b s,
          i,
          q,
        )))

  -- The file that an entry of the directory gives.
  Gives-IsUsedFor :
      (D : SecretsDir) (d k v bytes : Bytes) (e : DirEntry)
      → IsEntry keys e.name bytes
      → D.read_file (file_path d e.name) ≡ ok bytes
      → Gives C D d e k v
      → IsUsedFor C keys k v
  Gives-IsUsedFor D d k v bytes e entry read (whole l t p r) =
      whole-IsUsedFor k v (ap (λ n. contains n (codes "tsa")) p ∙ t) (
        subst (λ n. IsEntry keys n v) (sym p)
          (subst (IsEntry keys e.name) (ok-injective (sym read ∙ r)) entry))
  Gives-IsUsedFor D d k v bytes e entry read (part b w certs l t r s i q) =
      part-IsUsedFor e.name b k v w certs t
        (subst (IsEntry keys e.name) (ok-injective (sym read ∙ r)) entry) s i q

  Gives-not_left :
      (D : SecretsDir) (d k v : Bytes) (e : DirEntry) → Gives C D d e k v → is_left e ≡ false
  Gives-not_left D d k v e (whole l t p r) = l
  Gives-not_left D d k v e (part b w certs l t r s i q) = l

  mounted-IsUsedFor :
      (D : SecretsDir) (certs_dir k v : Bytes) (g : Got) (files : Dict Bytes)
      → Shows (overlay (tuf_entries keys) []) g
      → IsMounted D (trim_slash certs_dir) g
      → read_targets C D certs_dir ≡ ok files
      → lookup k files ≡ some v
      → IsUsedFor C keys k v
  mounted-IsUsedFor D certs_dir k v g files shows mounted r q =
      let (entries, listed, has) = read_targets-HasSource C D certs_dir k v files r q in
      elim has [
        | source e i gives ↦
            let (n, read) =
              mounted entries e listed i (Gives-not_left D (trim_slash certs_dir) k v e gives) in
            Gives-IsUsedFor D (trim_slash certs_dir) k v (index (stored g) e.name) e
              (subst (IsEntry keys e.name) (sym (Shows-index keys g e.name shows))
                (index-IsEntry keys e.name (λ z. n (Shows-index keys g e.name shows ∙ z))))
              read gives
      ]

-- When the job has made the secret for the TUF server, and the server has read the directory where the
-- secret is mounted, each file that it puts into its repository is what one of the other jobs has
-- kept, with the usage that is meant for it: the certificate of Fulcio, the public key of the log or
-- of Rekor, or one of the trimmed certificates into which the chain of the time stamping authority is
-- split. The secret was not there before, and the directory shows the entries of the secret, which are
-- not empty.
pub create_tuf_secret-IsUsedFor :
    (flags : TufFlags) (config clientset : Result (Unit {0})) (S : SecretInterface)
    (law : IsLawful S) (σ : S.State) (C : CertCodec) (D : SecretsDir) (certs_dir k v : Bytes)
    (files : Dict Bytes)
    → let (r, after) = create_tuf_secret flags config clientset S σ in
      S.get flags.secret_name σ ≡ not_found
      → r ≡ ok tt
      → IsMounted D (trim_slash certs_dir) (S.get flags.secret_name after)
      → read_targets C D certs_dir ≡ ok files
      → lookup k files ≡ some v
      → (keys : TufKeys) × AreHeld flags config clientset S σ keys × IsUsedFor C keys k v
create_tuf_secret-IsUsedFor flags config clientset S law σ C D certs_dir k v files new h m r q =
    let (keys, held, shows) = create_tuf_secret-Shows flags config clientset S law σ h in
    let after = S.get flags.secret_name (create_tuf_secret flags config clientset S σ).1 in
    (
      keys,
      held,
      mounted-IsUsedFor C keys D certs_dir k v after files
          (subst (λ g. Shows (overlay (tuf_entries keys) (stored g)) after) new shows) m r q,
    )
