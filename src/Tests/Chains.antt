-- ===== src/Tests/Chains.antt =====
-- A chain of four certificates, split into files, signed into a repository and read back.
use scaffolding.Base.{
  ℕ, ◌≡◌, ◌≢◌, refl, subst, sym, Bytes, some, List, [], ◌∷◌, codes, Result, ok, err, panic, errorf,
  arith, ==-ne, bytes_dec, length, map, to_lower, decimal,
}
use scaffolding.Base.Trim.{trim_space, trim_space-dashes}
use scaffolding.Base.Dict.{Dict, insert}
use scaffolding.Certs.{CertCodec, leaf_name, root_name, split_cert_chain, intermediate_name}
use scaffolding.Certs.Split.{numbered, split_cert_chain_files, split_cert_chain_short}
use scaffolding.Repo.{TargetWithMetadata}
use scaffolding.Repo.Usage.{get_target_usage}
use scaffolding.Repo.Usage.Laws.{get_target_usage-to_lower}
use scaffolding.Repo.Chain.{
  TimestampingAuthority, concat_cert_chain, parse_cert_chain, timestamping_authority,
  certificate_authority, cert_chain_to_timestamping_authority,
}
use scaffolding.Repo.Chain.Parse.{parse_cert_chain-ne-panic}
use scaffolding.Repo.Chain.RoundTrip.{parse_cert_chain-concat_cert_chain}
use scaffolding.Repo.Chain.Authorities.{timestamping_authority-tsa_parts, certificate_authority_lem}
use scaffolding.Repo.Sort.{sort_targets}
use scaffolding.Repo.Sort.Laws.{Reorder, swap}
use scaffolding.Repo.Sort.Filter.{select}
use scaffolding.Repo.TrustedRoot.{Collected, nothing, collect, RootLib, construct_trusted_root}
use scaffolding.Repo.TrustedRoot.Gather.{is_tsa, construct_trusted_root-Reorder}
use scaffolding.Repo.TrustedRoot.SplitNames.{tsa}
use scaffolding.Repo.TrustedRoot.Pipeline.{codec, targets_of, expected, tsa_chain_pipeline}
use scaffolding.Repo.Keys.{pubkey_to_transparency_log_instance}
use scaffolding.Tests.Samples.{crypto, crypto-IsSound, block, block-IsPem}

abbrev meta : Bytes → Bytes
meta name = []

abbrev chain : Bytes
chain = 0 ∷ 1 ∷ 2 ∷ 3 ∷ []

abbrev files : Dict Bytes
files =
    (leaf_name tsa, block 0)
    ∷ (root_name tsa, block 3)
    ∷ (intermediate_name tsa 0, block 1)
    ∷ (intermediate_name tsa 1, block 2)
    ∷ []

trimmed : (c : ℕ) → trim_space (block c) ≡ block c
trimmed c = trim_space-dashes (c ∷ [])

-- The library's view of the files.
abbrev certificates : CertCodec
certificates = codec crypto block block-IsPem ok block trimmed meta

split_cert_chain_files_example :
    split_cert_chain certificates chain tsa
    ≡ ok (
        (leaf_name tsa, block 0)
        ∷ (root_name tsa, block 3)
        ∷ numbered certificates block (λ c. refl) tsa 0 (1 ∷ 2 ∷ []))
split_cert_chain_files_example =
    split_cert_chain_files certificates block (λ c. refl) tsa chain 0 3 (1 ∷ 2 ∷ []) refl

split_cert_chain_short_example :
    split_cert_chain certificates (5 ∷ []) tsa
    ≡ err (errorf "cert chain must contain at least root and leaf, but got only %d certs")
split_cert_chain_short_example =
    split_cert_chain_short certificates (5 ∷ []) tsa (5 ∷ []) refl (omega arith)

get_target_usage-to_lower_example :
    get_target_usage (to_lower (codes "Rekor.PEM")) ≡ get_target_usage (codes "Rekor.PEM")
get_target_usage-to_lower_example = get_target_usage-to_lower (codes "Rekor.PEM")

parse_cert_chain-ne-panic_example : parse_cert_chain crypto (block 4) ≢ panic "no fuel"
parse_cert_chain-ne-panic_example =
    parse_cert_chain-ne-panic crypto (block 4) "no fuel" crypto-IsSound

parse_cert_chain-concat_cert_chain_example :
    parse_cert_chain crypto (concat_cert_chain (block 0) (map block (1 ∷ 2 ∷ [])) (block 3))
    ≡ ok (0 ∷ 1 ∷ 2 ∷ 3 ∷ [])
parse_cert_chain-concat_cert_chain_example =
    parse_cert_chain-concat_cert_chain crypto block block-IsPem 0 (1 ∷ 2 ∷ []) 3

timestamping_authority-tsa_parts_example :
    timestamping_authority crypto (0 ∷ 1 ∷ 2 ∷ [])
    ≡ ok (record {
      leaf = some 0;
      intermediates = 1 ∷ [];
      root = some 2;
      validity_period_start = 0;
      validity_period_end = 10;
    })
timestamping_authority-tsa_parts_example = timestamping_authority-tsa_parts crypto 0 (1 ∷ 2 ∷ [])

abbrev authority : TimestampingAuthority ℕ ℕ
authority = record {
  leaf = some 0;
  intermediates = 1 ∷ [];
  root = some 2;
  validity_period_start = 0;
  validity_period_end = 10;
}

certificate_authority_lem_example :
    certificate_authority crypto (0 ∷ 1 ∷ 2 ∷ [])
    ≡ ok (record {
      intermediates = 0 ∷ 1 ∷ [];
      root = some 2;
      validity_period_start = 0;
      validity_period_end = 10;
    })
certificate_authority_lem_example = certificate_authority_lem crypto 0 (1 ∷ 2 ∷ [])

-- A key of the log, and the files in another order.
abbrev log_key : TargetWithMetadata
log_key = record { name = codes "rekor.pub"; bytes = block 65; custom_metadata = [] }

abbrev file_target : Bytes → ℕ → TargetWithMetadata
file_target name c = record { name = name; bytes = block c; custom_metadata = [] }

abbrev targets : List TargetWithMetadata
targets =
    file_target (root_name tsa) 3
    ∷ file_target (leaf_name tsa) 0
    ∷ log_key
    ∷ file_target (intermediate_name tsa 0) 1
    ∷ file_target (intermediate_name tsa 1) 2
    ∷ []

abbrev ok_or_nothing : Result (Collected ℕ) → Collected ℕ
ok_or_nothing (ok s) = s
ok_or_nothing _ = nothing

abbrev collected : Collected ℕ
collected = ok_or_nothing (collect crypto 7 (sort_targets targets) (nothing {Time = ℕ}))

collects : collect crypto 7 (sort_targets targets) (nothing {Time = ℕ}) ≡ ok collected
unfolding collect sort_targets get_target_usage intermediate_name decimal leaf_name root_name
    bytes_dec pubkey_to_transparency_log_instance insert
collects = refl

splits : split_cert_chain certificates chain tsa ≡ ok files
unfolding split_cert_chain intermediate_name decimal leaf_name root_name bytes_dec insert
splits = refl

root-ne-leaf : root_name tsa ≢ leaf_name tsa
unfolding root_name leaf_name bytes_dec
root-ne-leaf = ==-ne (root_name tsa) (leaf_name tsa) refl

abbrev selected : List TargetWithMetadata
selected =
    file_target (root_name tsa) 3
    ∷ file_target (leaf_name tsa) 0
    ∷ file_target (intermediate_name tsa 0) 1
    ∷ file_target (intermediate_name tsa 1) 2
    ∷ []

selects : select is_tsa targets ≡ selected
unfolding get_target_usage intermediate_name decimal leaf_name root_name bytes_dec
selects = refl

reordered : Reorder selected (targets_of meta files)
unfolding trim_space
reordered = swap _ _ _ root-ne-leaf

tsa_chain_pipeline_example :
    cert_chain_to_timestamping_authority crypto
      (concat_cert_chain collected.tsa_leaf collected.tsa_intermed collected.tsa_root)
    ≡ ok (expected crypto block block-IsPem ok block trimmed meta 0 (1 ∷ 2 ∷ []) 3)
tsa_chain_pipeline_example =
    tsa_chain_pipeline crypto block block-IsPem ok block trimmed meta 0 3 (1 ∷ 2 ∷ []) chain files 7
      targets collected refl (omega arith) refl splits
      (subst (λ l. Reorder l (targets_of meta files)) (sym selects) reordered) collects

abbrev roots : RootLib crypto
roots = record {
  TrustedRoot = ℕ;
  new_trusted_root = λ c t a r. ok (length a);
  marshal = λ n. ok (n ∷ []);
}

construct_trusted_root-Reorder_example :
    construct_trusted_root crypto 7 roots targets
    ≡ construct_trusted_root crypto 7 roots (
        file_target (leaf_name tsa) 0
        ∷ file_target (root_name tsa) 3
        ∷ log_key
        ∷ file_target (intermediate_name tsa 0) 1
        ∷ file_target (intermediate_name tsa 1) 2
        ∷ [])
construct_trusted_root-Reorder_example =
    construct_trusted_root-Reorder crypto 7 roots (swap _ _ _ root-ne-leaf)
