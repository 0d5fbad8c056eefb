-- ===== src/Database.antt =====
-- tools/trillian/cmd/trillian/createdb/main.go: the tables and the indices of Trillian's database.
pub mod Schema
pub mod Words
pub mod Sql
pub mod Order
pub mod Lawful
pub mod Indexed
pub mod Complete
pub mod Patience
use Prim.Native.String.{String}
use scaffolding.Base.{
  ℕ, zero, suc, Bytes, Bool, true, false, Option, none, some, Error, List, [], ◌∷◌, ◌++◌, codes,
  Result, ok, err, panic, exit, or_panic, has_suffix, eqb, ◌==◌, if◌then◌else◌,
}
use scaffolding.Base.Int.{ℤ, pos, negsuc}
use scaffolding.Base
use scaffolding.Base.Trim.{trim_slash}
use scaffolding.Base.Dict.{Dict, lookup}
use scaffolding.Cluster.{Exec, ◌>>=◌, ◌>>◌, lift, handle, continue}
use scaffolding.Database.Schema.{
  Statement, text_of, create_table_trees, create_table_tree_control, create_table_subtree,
  create_table_tree_head, create_index_tree_head_revision, create_table_leaf_data,
  create_table_sequenced_leaf_data, create_index_sequenced_leaf_merkle, create_table_unsequenced,
  index_check,
}

-- The tables, in the order in which they are made.
abbrev pub tables : List Bytes
tables =
    codes "Trees"
    ∷ codes "TreeControl"
    ∷ codes "Subtree"
    ∷ codes "TreeHead"
    ∷ codes "LeafData"
    ∷ codes "SequencedLeafData"
    ∷ codes "Unsequenced"
    ∷ []

abbrev pub create_tables : Dict Statement
create_tables =
    (codes "Trees", create_table_trees)
    ∷ (codes "TreeControl", create_table_tree_control)
    ∷ (codes "Subtree", create_table_subtree)
    ∷ (codes "TreeHead", create_table_tree_head)
    ∷ (codes "LeafData", create_table_leaf_data)
    ∷ (codes "SequencedLeafData", create_table_sequenced_leaf_data)
    ∷ (codes "Unsequenced", create_table_unsequenced)
    ∷ []

-- `createTables[table]`, where a missing key reads as the empty text
unfoldable pub create_table : Bytes → Bytes
unfolding text_of lookup
create_table table = elim (lookup table create_tables) [ none ↦ [] | some s ↦ text_of s ]

pub record IndexCreate : Type 0 where
  pub table_name : Bytes
  pub create_str : Statement

abbrev pub tree_head_revision : Bytes × IndexCreate
tree_head_revision = (
  codes "TreeHeadRevisionIdx",
  record { table_name = codes "TreeHead"; create_str = create_index_tree_head_revision },
)

abbrev pub sequenced_leaf_merkle : Bytes × IndexCreate
sequenced_leaf_merkle = (
  codes "SequencedLeafMerkleIdx",
  record {
    table_name = codes "SequencedLeafData";
    create_str = create_index_sequenced_leaf_merkle;
  },
)

-- `createIndices`, in the two orders in which an iteration may meet its entries.
pub data CreateIndices : Dict IndexCreate → Type 0 where
  in_order : CreateIndices (tree_head_revision ∷ sequenced_leaf_merkle ∷ [])
  swapped : CreateIndices (sequenced_leaf_merkle ∷ tree_head_revision ∷ [])

-- The database as `database/sql` gives it. The rows of a query are the results of `Scan`.
pub record Db : Type 1 where
  pub State : Type 0
  pub open_db : Bytes → Result (Unit {0})
  -- `none` is a nil error
  pub ping : State → Option Error × State
  pub sleep : ℕ → State → State
  pub show_tables : State → Result (List (Result Bytes))
  pub exec : Bytes → State → Option Error × State
  -- a query of one number, with its three arguments
  pub query_count : Bytes → Bytes → Bytes → Bytes → State → Result (List (Result ℤ))

-- The count of an index, with the names of the database, of the table and of the index.
abbrev pub index_count : (D : Db) → Bytes → Bytes → Bytes → D.State → Result (List (Result ℤ))
index_count D = D.query_count (text_of index_check)

pub record DbFlags : Type 0 where
  pub db_name : Bytes
  pub mysql_uri : Bytes

-- `existingTables`, of which a row that cannot be read makes the empty name true.
unfoldable pub existing_tables : List (Result Bytes) → List Bytes
existing_tables [] = []
existing_tables (ok name ∷ rows) = name ∷ existing_tables rows
existing_tables (_ ∷ rows) = [] ∷ existing_tables rows

unfoldable pub holds : Bytes → List Bytes → Bool
holds name [] = false
holds name (n ∷ ns) = if n == name then true else holds name ns

-- `indexCount`, which keeps its value when a row cannot be read.
unfoldable pub last_count : ℤ → List (Result ℤ) → ℤ
last_count n [] = n
last_count n (ok m ∷ rows) = last_count m rows
last_count n (_ ∷ rows) = last_count n rows

abbrev pub is_pos : ℤ → Bool
is_pos (pos zero) = false
is_pos (pos (suc n)) = true
is_pos (negsuc n) = false

abbrev outcome : Option Error → Result (Unit {0})
outcome none = ok tt
outcome (some e) = err e

module _ (D : Db) where
  -- The loop over `db.Ping()`, for as many rounds.
  unfoldable pub wait_for : ℕ → D.State → D.State
  wait_for zero σ = σ
  wait_for (suc n) σ =
      let (e, σ') = D.ping σ in elim e [ none ↦ σ' | some x ↦ wait_for n (D.sleep 2 σ') ]

  unfoldable pub connect : Exec D.State (Unit {0})
  unfolding wait_for
  connect σ =
      let (e, σ') = D.ping (wait_for 5 σ) in (or_panic "failed to ping db: %v" (outcome e), σ')

  -- An error of a statement is only logged.
  unfoldable pub run_logged : Bytes → D.State → D.State
  run_logged statement σ = (D.exec statement σ).1

  unfoldable pub create_missing : List Bytes → List Bytes → D.State → D.State
  unfolding holds run_logged create_table
  create_missing existing [] σ = σ
  create_missing existing (t ∷ ts) σ =
      create_missing existing ts (if holds t existing then σ else run_logged (create_table t) σ)

  -- `indexExists`
  unfoldable pub index_exists : Bytes → Bytes → Bytes → D.State → Result Bool
  unfolding last_count
  index_exists db_name index_name table σ =
      Base.◌>>=◌
        (or_panic "checking for index failed: %+v" (index_count D db_name table index_name σ))
        (λ rows. ok (is_pos (last_count (pos 0) rows)))

  unfoldable pub add_index : Bytes → IndexCreate → D.State → D.State
  unfolding run_logged text_of
  add_index name i σ = run_logged (text_of i.create_str) σ

  -- The loop over the indices, in the order in which the map gives them.
  unfoldable pub add_indices : Bytes → Dict IndexCreate → Exec D.State (Unit {0})
  unfolding index_exists add_index
  add_indices db_name [] σ = (ok tt, σ)
  add_indices db_name ((name, i) ∷ is) σ =
      continue (index_exists db_name name i.table_name σ)
        (λ exists σ'. add_indices db_name is (if exists then σ' else add_index name i σ')) σ

  -- The checks before the connection.
  unfoldable pub open_checked : DbFlags → Result (Unit {0})
  open_checked flags =
      if flags.mysql_uri == []
      then panic "Need to specify mysql_uri to know where to connect to"
      else if flags.db_name == []
      then panic "Need to specify database name"
      else or_panic "failed to open db connection: %v"
          (D.open_db (trim_slash flags.mysql_uri ++ (b'/' ∷ flags.db_name)))

  -- What is done on the rows of the tables.
  unfoldable pub fill_schema :
      Bytes → Dict IndexCreate → List (Result Bytes) → Exec D.State (Unit {0})
  unfolding create_missing add_indices existing_tables
  fill_schema db_name indices rows σ =
      add_indices db_name indices (create_missing (existing_tables rows) tables σ)

  unfoldable pub add_schema : Bytes → Dict IndexCreate → Exec D.State (Unit {0})
  unfolding fill_schema
  add_schema db_name indices σ =
      continue (or_panic "show tables failed: %+v" (D.show_tables σ)) (fill_schema db_name indices)
        σ

  -- `main`; `indices` is `createIndices` in an order of the iteration.
  unfoldable pub create_db : DbFlags → Dict IndexCreate → Exec D.State (Unit {0})
  unfolding connect open_checked add_schema
  create_db flags indices = do lift (open_checked flags); connect; add_schema flags.db_name indices
