-- ===== src/Database/Order.antt =====
-- What the statements of the schema make, and in which order.
use scaffolding.Base.{
  ◌≡◌, refl, Bytes, Bool, true, false, ◌&&◌, Option, none, some, List, [], ◌∷◌, bytes_dec, ◌==◌,
}
use scaffolding.Base.Dict.{lookup}
use scaffolding.Database.{create_table, holds, tables, IndexCreate}
use scaffolding.Database.Schema.{text_of}
use scaffolding.Database.Sql.{Table, made_table, Index, made_index}

unfoldable pub all_held : List Bytes → List Bytes → Bool
unfolding holds
all_held [] seen = true
all_held (n ∷ ns) seen = holds n seen && all_held ns seen

-- The statement makes the table of its name, and each table that it refers to is one of `seen`.
unfoldable pub makes : Bytes → List Bytes → Option Table → Bool
unfolding all_held bytes_dec
makes t seen none = false
makes t seen (some T) = T.name == t && all_held T.references seen

-- So do the statements of these tables, where each may refer to those before it.
abbrev pub AreOrdered : List Bytes → List Bytes → Type 0
AreOrdered seen [] = Unit
AreOrdered seen (t ∷ ts) =
    ((t == []) ≡ false)
    × (makes t seen (made_table (create_table t)) ≡ true)
    × AreOrdered (t ∷ seen) ts

pub tables-AreOrdered : AreOrdered [] tables
unfolding made_table makes create_table bytes_dec lookup
tables-AreOrdered = (
  refl,
  refl,
  (refl, refl, (refl, refl, (refl, refl, (refl, refl, (refl, refl, (refl, refl, tt)))))),
)

-- The statement makes the index of this name on columns of the table of this name.
unfoldable pub makes_index : Bytes → Bytes → Option Table → Option Index → Bool
unfolding all_held bytes_dec
makes_index name t (some T) (some I) =
    I.name == name && I.table == t && T.name == t && all_held I.columns T.columns
makes_index name t _ _ = false

pub record IsIndex (name : Bytes) (i : IndexCreate) : Type 0 where
  pub makes :
      makes_index name i.table_name
        (made_table (create_table i.table_name))
        (made_index (text_of i.create_str))
      ≡ true
  pub only : made_table (text_of i.create_str) ≡ none
  pub known : holds i.table_name tables ≡ true
