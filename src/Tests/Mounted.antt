-- ===== src/Tests/Mounted.antt =====
-- The secret for the TUF server, made of what the other jobs keep, and mounted.
use scaffolding.Base.{
  ◌≡◌, ◌≢◌, refl, sym, subst, inl, inr, Bytes, false, some, List, [], ◌∷◌, codes, ok, ok-injective,
  or_error, In, contains, has_prefix, bytes_dec, decimal,
}
use scaffolding.Base.Dict.{Dict, lookup, insert, index}
use scaffolding.Base.Trim.{trim_space, trim_slash}
use scaffolding.Cluster.{Secret, not_found}
use scaffolding.Certs.{split_cert_chain, leaf_name, root_name, intermediate_name}
use scaffolding.Cluster.Memory.{memory, memory-IsLawful, find, store}
use scaffolding.Secret.Effects.{stored}
use scaffolding.Server.{DirEntry, SecretsDir, file_path, is_left, read_targets}
use scaffolding.Jobs.TufSecret.{TufKeys, create_tuf_secret}
use scaffolding.Jobs.TufSecret.Gathered.{AreHeld}
use scaffolding.Jobs.TufSecret.Mounted.{IsMounted, IsUsedFor, create_tuf_secret-IsUsedFor}
use scaffolding.Tests.Server.{codec, tuf_flags, secret_of}

abbrev kept : List Secret
kept =
    secret_of (codes "fulcio-pub-key") (codes "cert") (1 ∷ [])
    ∷ secret_of (codes "ctlog-public-key") (codes "public") (2 ∷ [])
    ∷ secret_of (codes "rekor-pub-key") (codes "public") (3 ∷ [])
    ∷ secret_of (codes "tsa-cert-chain") (codes "cert-chain") (65 ∷ 66 ∷ 67 ∷ [])
    ∷ []

-- The files of the directory, with one that Kubernetes adds.
abbrev file_names : List DirEntry
file_names =
    record { name = codes "..data"; is_dir = false }
    ∷ record { name = codes "fulcio_v1.crt.pem"; is_dir = false }
    ∷ record { name = codes "ctfe.pub"; is_dir = false }
    ∷ record { name = codes "rekor.pub"; is_dir = false }
    ∷ record { name = codes "tsa.certchain.pem"; is_dir = false }
    ∷ []

abbrev texts : Dict Bytes
texts =
    (codes "/run/fulcio_v1.crt.pem", 1 ∷ [])
    ∷ (codes "/run/ctfe.pub", 2 ∷ [])
    ∷ (codes "/run/rekor.pub", 3 ∷ [])
    ∷ (codes "/run/tsa.certchain.pem", 65 ∷ 66 ∷ 67 ∷ [])
    ∷ []

abbrev mount : SecretsDir
mount = record {
  read_dir = λ d. ok file_names;
  read_file = λ p. or_error "no such file" (lookup p texts);
}

succeeds : (create_tuf_secret tuf_flags (ok tt) (ok tt) memory kept).0 ≡ ok tt
unfolding create_tuf_secret find store bytes_dec lookup
succeeds = refl

abbrev after : List Secret
after = (create_tuf_secret tuf_flags (ok tt) (ok tt) memory kept).1

-- The secret shows the text of a file.
abbrev Shown : DirEntry → Type 0
Shown e =
    is_left e ≡ false
    → (index (stored (memory.get (codes "tuf-secrets") after)) e.name ≢ [])
      × (mount.read_file (file_path (codes "/run") e.name)
          ≡ ok (index (stored (memory.get (codes "tuf-secrets") after)) e.name))

shows_all : (e : DirEntry) → In e file_names → Shown e
unfolding create_tuf_secret find store bytes_dec lookup is_left has_prefix
shows_all e (inl p) = subst Shown (sym p) (λ l. absurd (cc (l)))
shows_all e (inr (inl p)) = subst Shown (sym p) (λ l. (λ z. cc, refl))
shows_all e (inr (inr (inl p))) = subst Shown (sym p) (λ l. (λ z. cc, refl))
shows_all e (inr (inr (inr (inl p)))) = subst Shown (sym p) (λ l. (λ z. cc, refl))
shows_all e (inr (inr (inr (inr (inl p))))) = subst Shown (sym p) (λ l. (λ z. cc, refl))
shows_all e (inr (inr (inr (inr (inr i))))) = absurd i

mounted : IsMounted mount (trim_slash (codes "/run")) (memory.get (codes "tuf-secrets") after)
unfolding trim_slash bytes_dec
mounted entries e listed i l = shows_all e (subst (In e) (sym (ok-injective listed)) i) l

absent : memory.get (codes "tuf-secrets") kept ≡ not_found
unfolding find bytes_dec
absent = refl

abbrev repository_files : Dict Bytes
repository_files =
    (codes "fulcio_v1.crt.pem", 1 ∷ [])
    ∷ (codes "ctfe.pub", 2 ∷ [])
    ∷ (codes "rekor.pub", 3 ∷ [])
    ∷ (codes "tsa_leaf.crt.pem", 65 ∷ [])
    ∷ (codes "tsa_root.crt.pem", 67 ∷ [])
    ∷ (codes "tsa_intermediate_0.crt.pem", 66 ∷ [])
    ∷ []

reads : read_targets codec mount (codes "/run") ≡ ok repository_files
unfolding read_targets trim_slash bytes_dec lookup insert is_left has_prefix contains trim_space
    split_cert_chain leaf_name root_name intermediate_name decimal
reads = refl

finds : lookup (codes "tsa_root.crt.pem") repository_files ≡ some (67 ∷ [])
unfolding lookup bytes_dec
finds = refl

create_tuf_secret-IsUsedFor_example :
    (keys : TufKeys) × AreHeld tuf_flags (ok tt) (ok tt) memory kept keys
    × IsUsedFor codec keys (codes "tsa_root.crt.pem") (67 ∷ [])
create_tuf_secret-IsUsedFor_example =
    create_tuf_secret-IsUsedFor tuf_flags (ok tt) (ok tt) memory memory-IsLawful kept codec mount
      (codes "/run") (codes "tsa_root.crt.pem") (67 ∷ []) repository_files absent succeeds mounted
      reads finds
