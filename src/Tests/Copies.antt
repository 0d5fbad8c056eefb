-- ===== src/Tests/Copies.antt =====
-- A tree that is written to an archive and read into files in memory.
use scaffolding.Base.{
  ℕ, ◌≡◌, ◌≢◌, refl, Bytes, false, none, some, List, [], ◌∷◌, ◌++◌, codes, ok, arith, bytes_dec,
  has_prefix, has_suffix, contains,
}
use scaffolding.Base.Dict.{Dict, lookup, insert, lookup-insert, index}
use scaffolding.Files.{
  KeepsFiles, ReadsFiles, FileSystem, FileCall, mkdir, mkdir_all, open_file, write, close,
  write_file, path_of,
}
use scaffolding.Repo.Archive.{
  Entries, entry, end_of_archive, at_end, more, type_reg, type_dir, uncompress,
}
use scaffolding.Repo.Archive.Unpack.{Unpacks, Unpacked}
use scaffolding.Repo.Compress.{Node, plain, directory, no_nodes, node, is_skipped, compress_fs}
use scaffolding.Repo.Compress.Listing.{tape, tape-KeepsItems, readable}
use scaffolding.Tests.Logs.{is_distinct-Distinct}
use scaffolding.Repo.Compress.Copied.{entries_of, tree_entries}
use scaffolding.Repo.Paths.Names.{IsName}
use scaffolding.Repo.Compress.Named.{IsNamed}
use scaffolding.Repo.Compress.Places.{uncompress-compress_fs_named}

unfoldable pub act : FileCall → Dict Bytes → Dict Bytes
act (open_file p m) σ = insert p [] σ
act (write p s) σ = insert p (index σ p ++ s) σ
act (write_file p s) σ = insert p s σ
act (mkdir p) σ = σ
act (mkdir_all p) σ = σ
act (close p) σ = σ

abbrev pub files : FileSystem
files = record { State = Dict Bytes; exists = λ p σ. false; run = λ c σ. (none, act c σ) }

pub act_others :
    (c : FileCall) (q : Bytes) (σ : Dict Bytes) → q ≢ path_of c → lookup q (act c σ) ≡ lookup q σ
unfolding act
act_others (open_file p m) q σ n = ground (arith, lookup-insert p q [] σ)
act_others (write p s) q σ n = ground (arith, lookup-insert p q (index σ p ++ s) σ)
act_others (write_file p s) q σ n = ground (arith, lookup-insert p q s σ)
act_others (mkdir p) q σ n = refl
act_others (mkdir_all p) q σ n = refl
act_others (close p) q σ n = refl

pub act_appends :
    (p s t : Bytes) (σ : Dict Bytes)
    → lookup p σ ≡ some s
    → lookup p (act (write p t) σ) ≡ some (s ++ t)
unfolding act
act_appends p s t σ h = ground (arith, lookup-insert p p (index σ p ++ t) σ)

pub act_opens : (p : Bytes) (m : ℕ) (σ : Dict Bytes) → lookup p (act (open_file p m) σ) ≡ some []
unfolding act
act_opens p m σ = ground (arith, lookup-insert p p [] σ)

pub files-KeepsFiles : KeepsFiles files
unfolding act
files-KeepsFiles = record {
  read = lookup;
  succeeds = λ c σ. refl;
  opened = act_opens;
  appended = act_appends;
  closed = λ p q σ. refl;
  made = λ p q σ. refl;
  others = act_others;
}

pub files-ReadsFiles : ReadsFiles files
unfolding act
files-ReadsFiles = record {
  read = lookup;
  opened = λ p m σ e. act_opens p m σ;
  appended = λ p s t σ r e. act_appends p s t σ r;
  closed = λ p q σ. refl;
  others = act_others;
}

abbrev pub tree : Node
tree = directory (
    node (codes "keys") (directory (node (codes "root.json") plain no_nodes)) (
      node (codes "root.json") plain
        (node (codes "targets") (directory (node (codes "rekor.pub") plain no_nodes)) no_nodes)))

abbrev pub text : Bytes → Bytes
text p = 1 ∷ p

abbrev skips : List Bytes
skips = codes "keys" ∷ codes "staged" ∷ []

-- The second text is read in two pieces.
abbrev pub read_back : Entries
read_back =
    entry (record { name = codes "repository"; type_flag = type_dir; mode = 493 }) (at_end [])
      (entry (record { name = codes "repository/root.json"; type_flag = type_reg; mode = 420 })
        (at_end (1 ∷ codes "repository/root.json"))
        (entry (record { name = codes "repository/targets"; type_flag = type_dir; mode = 493 })
          (at_end [])
          (entry
            (record {
              name = codes "repository/targets/rekor.pub";
              type_flag = type_reg;
              mode = 420;
            })
            (more (1 ∷ codes "repository/") (at_end (codes "targets/rekor.pub"))) end_of_archive)))

pub unpacks :
    Unpacks (entries_of (compress_fs (readable (some tree) text) tape skips []).1) read_back
unfolding compress_fs bytes_dec is_skipped
unpacks = (
  refl,
  refl,
  (refl, refl, refl, (refl, refl, (refl, refl, (codes "targets/rekor.pub", refl, refl), tt))),
)

keys_name : IsName (codes "keys")
unfolding contains has_prefix has_suffix
keys_name = ((λ e. cc, λ e. cc, λ e. cc), refl, refl, refl)

root_name : IsName (codes "root.json")
unfolding contains has_prefix has_suffix
root_name = ((λ e. cc, λ e. cc, λ e. cc), refl, refl, refl)

targets_name : IsName (codes "targets")
unfolding contains has_prefix has_suffix
targets_name = ((λ e. cc, λ e. cc, λ e. cc), refl, refl, refl)

rekor_name : IsName (codes "rekor.pub")
unfolding contains has_prefix has_suffix
rekor_name = ((λ e. cc, λ e. cc, λ e. cc), refl, refl, refl)

pub named : IsNamed tree
unfolding IsNamed bytes_dec
named = (
  is_distinct-Distinct (codes "keys" ∷ codes "root.json" ∷ codes "targets" ∷ []) refl,
  (
    keys_name,
    (((λ i. i), tt), (root_name, tt, tt)),
    (root_name, tt, (targets_name, (((λ i. i), tt), (rekor_name, tt, tt)), tt)),
  ),
)

uncompress-compress_fs_named_example :
    let entries = tree_entries text skips (codes "repository") (codes "repository") tree in
    ((uncompress files (ok read_back) (codes "/srv") []).0 ≡ ok tt)
    × Unpacked files files-KeepsFiles
        (codes "/srv")
        entries
        []
        (uncompress files (ok read_back) (codes "/srv") []).1
uncompress-compress_fs_named_example =
    uncompress-compress_fs_named files files-KeepsFiles tape tape-KeepsItems (codes "srv") text
      skips tree read_back [] [] named refl unpacks
