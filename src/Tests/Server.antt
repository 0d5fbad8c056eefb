-- ===== src/Tests/Server.antt =====
-- A directory of files in memory, and the secrets of the jobs.
use scaffolding.Base.{
  ◌≡◌, refl, Bytes, true, false, some, inl, inr, List, [], ◌∷◌, map, codes, errorf, ok, err,
  Distinct, bytes_dec, contains, has_prefix, decimal, ◌==◌, if◌then◌else◌,
}
use scaffolding.Base.Dict.{Dict, lookup, insert}
use scaffolding.Base.Trim.{trim_space, trim_slash}
use scaffolding.Cluster.{Secret}
use scaffolding.Certs.{CertCodec, split_cert_chain, leaf_name, root_name, intermediate_name}
use scaffolding.Tests.Logs.{is_distinct-Distinct}
use scaffolding.Server.{DirEntry, SecretsDir, is_left, read_targets}
use scaffolding.Server.Sources.{HasSource, read_targets-HasSource}
use scaffolding.Server.Plain.{IsPlain, read_targets-IsPlain}
use scaffolding.Jobs.TufSecret.{TufFlags}

-- Certificates of one byte.
abbrev pub codec : CertCodec
codec = record { Cert = Bytes; unmarshal = λ s. ok (map (λ c. c ∷ []) s); marshal = ok }

abbrev plain_file : Bytes
plain_file = codes "rekor.pub"

abbrev chain_file : Bytes
chain_file = codes "tsa.certchain.pem"

abbrev listing : List DirEntry
listing =
    record { name = codes "..data"; is_dir = false }
    ∷ record { name = chain_file; is_dir = false }
    ∷ record { name = plain_file; is_dir = false }
    ∷ record { name = codes "more"; is_dir = true }
    ∷ []

abbrev secrets : SecretsDir
secrets = record {
  read_dir = λ d. ok listing;
  read_file = λ p.
      if p == codes "/run/rekor.pub"
      then ok (5 ∷ 6 ∷ [])
      else if p == codes "/run/tsa.certchain.pem"
      then ok (65 ∷ 66 ∷ 67 ∷ [])
      else err (errorf "no such file");
}

abbrev read_files : Dict Bytes
read_files =
    (codes "tsa_leaf.crt.pem", 65 ∷ [])
    ∷ (codes "tsa_root.crt.pem", 67 ∷ [])
    ∷ (codes "tsa_intermediate_0.crt.pem", 66 ∷ [])
    ∷ (plain_file, 5 ∷ 6 ∷ [])
    ∷ []

reads_files : read_targets codec secrets (codes "/run/") ≡ ok read_files
unfolding read_targets split_cert_chain trim_space insert bytes_dec contains leaf_name root_name
    intermediate_name decimal
reads_files = refl

finds_leaf : lookup (codes "tsa_leaf.crt.pem") read_files ≡ some (65 ∷ [])
unfolding lookup bytes_dec
finds_leaf = refl

read_targets-HasSource_example :
    (entries : List DirEntry) × (secrets.read_dir (trim_slash (codes "/run/")) ≡ ok entries)
    × HasSource codec secrets
        (trim_slash (codes "/run/"))
        entries
        (codes "tsa_leaf.crt.pem")
        (65 ∷ [])
read_targets-HasSource_example =
    read_targets-HasSource codec secrets (codes "/run/") (codes "tsa_leaf.crt.pem") (65 ∷ [])
      read_files reads_files finds_leaf

names_differ : Distinct (map (λ e. e.name) listing)
unfolding bytes_dec
names_differ = is_distinct-Distinct (map (λ e. e.name) listing) refl

not_tsa : contains plain_file (codes "tsa") ≡ false
unfolding contains
not_tsa = refl

plain_file-IsPlain :
    IsPlain codec secrets (trim_slash (codes "/run/")) plain_file (5 ∷ 6 ∷ []) listing
unfolding trim_slash bytes_dec is_left has_prefix
plain_file-IsPlain = inr (inr (inl (refl, refl, refl)))

read_targets-IsPlain_example : lookup plain_file read_files ≡ some (5 ∷ 6 ∷ [])
read_targets-IsPlain_example =
    read_targets-IsPlain codec secrets (codes "/run/") plain_file (5 ∷ 6 ∷ []) listing read_files
      refl names_differ not_tsa plain_file-IsPlain reads_files

abbrev pub tuf_flags : TufFlags
tuf_flags = record {
  namespace = codes "tuf-system";
  fulcio_secret = codes "fulcio-pub-key";
  ctlog_secret = codes "ctlog-public-key";
  rekor_secret = codes "rekor-pub-key";
  tsa_secret = codes "tsa-cert-chain";
  secret_name = codes "tuf-secrets";
}

abbrev pub secret_of : Bytes → Bytes → Bytes → Secret
secret_of name key v = record {
  namespace = codes "tuf-system";
  name = name;
  entries = some ((key, v) ∷ []);
}
