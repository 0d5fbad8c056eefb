-- ===== src/Tests/Compress.antt =====
-- A small tree written to an archive.
use scaffolding.Base.{Bytes, some, errorf, List, [], ◌∷◌, codes}
use scaffolding.Repo.Compress.{Node, plain, directory, no_nodes, node, TarWriter}
use scaffolding.Repo.Compress.Listing.{tape}

abbrev pub tree : Node
tree = directory (
    node (codes "keys") (directory (node (codes "root.json") plain no_nodes))
      (node (codes "root.json") plain no_nodes))

abbrev skips : List Bytes
skips = codes "keys" ∷ codes "staged" ∷ []

-- A writer that fails on every header.
abbrev torn : TarWriter
torn = record tape { write_header = λ file is_dir σ. (some (errorf "full"), σ) }
