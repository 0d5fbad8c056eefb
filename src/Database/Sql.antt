-- ===== src/Database/Sql.antt =====
-- The part of SQL in which the schema is written: the statements that make a table or an index. A
-- text that is not of this form is refused.
use mathlib.Core.List.{reverse}
use scaffolding.Base.{
  ℕ, suc, ◌-◌, Bytes, Bool, true, false, not, ◌||◌, ◌&&◌, Option, none, some, List, [], ◌∷◌, codes,
  eqb, leb, bytes_dec, length, ◌==◌, if◌then◌else◌,
}
use scaffolding.Database.{holds}
use scaffolding.Database.Words.{outside, words_from}

-- What follows the words.
skip : List Bytes → List Bytes → Option (List Bytes)
unfolding bytes_dec
skip [] ts = some ts
skip (w ∷ ws) [] = none
skip (w ∷ ws) (t ∷ ts) = elim (w == t) [ true ↦ skip ws ts | false ↦ none ]

is_name : Bytes → Bool
is_name [] = false
is_name (c ∷ s) = (leb b'a' c && leb c b'z') || (leb b'A' c && leb c b'Z')

is_number : Bytes → Bool
is_number [] = true
is_number (c ∷ s) = let rest = is_number s in leb b'0' c && leb c b'9' && rest

is_quoted : Bytes → Bool
is_quoted [] = false
is_quoted (c ∷ s) = eqb c 39

-- A list that ends with a closing parenthesis, of words that pass the test, and what follows it.
listed : (Bytes → Bool) → List Bytes → Option (List Bytes × List Bytes)
unfolding bytes_dec
listed ok? [] = none
listed ok? (n ∷ []) = none
listed ok? (n ∷ sep ∷ ts) = elim (ok? n) [
  | false ↦ none
  | true ↦ elim (sep == codes ")") [
    | true ↦ some (n ∷ [], ts)
    | false ↦ elim (sep == codes ",") [
      | false ↦ none
      | true ↦ elim (listed ok? ts) [ none ↦ none | some (ns, rest) ↦ some (n ∷ ns, rest) ]
    ]
  ]
]

names : List Bytes → Option (List Bytes × List Bytes)
unfolding listed is_name
names = listed is_name

-- What follows the type of a column.
after_type : List Bytes → Option (List Bytes)
unfolding skip listed is_quoted is_number holds bytes_dec
after_type [] = none
after_type (t ∷ ts) =
    if holds t (
      codes "BIGINT"
      ∷ codes "INTEGER"
      ∷ codes "BOOLEAN"
      ∷ codes "MEDIUMBLOB"
      ∷ codes "LONGBLOB"
      ∷ [])
    then elim (skip (codes "UNSIGNED" ∷ []) ts) [ none ↦ some ts | some rest ↦ some rest ]
    else if holds t (codes "VARCHAR" ∷ codes "VARBINARY" ∷ [])
    then elim (skip (codes "(" ∷ []) ts) [
      | none ↦ none
      | some rest ↦ elim (listed is_number rest) [ some (n ∷ [], rest') ↦ some rest' | _ ↦ none ]
    ]
    else if t == codes "ENUM"
    then elim (skip (codes "(" ∷ []) ts) [
      | none ↦ none
      | some rest ↦ elim (listed is_quoted rest) [ none ↦ none | some (ns, rest') ↦ some rest' ]
    ]
    else none

-- What may follow the type.
are_options : List Bytes → Bool
unfolding bytes_dec
are_options [] = true
are_options (a ∷ []) = a == codes "UNIQUE"
are_options (a ∷ b ∷ ts) = elim (a == codes "UNIQUE") [
  | true ↦ are_options (b ∷ ts)
  | false ↦
      let rest = are_options ts in
      (a == codes "NOT" || a == codes "DEFAULT") && b == codes "NULL" && rest
]

pub data Item : Type 0 where
  column : Bytes → Item
  primary_key : List Bytes → Item
  foreign_key : List Bytes → Bytes → List Bytes → Item

as_column : List Bytes → Option Item
unfolding is_name after_type are_options
as_column [] = none
as_column (n ∷ ts) = elim (is_name n) [
  | false ↦ none
  | true ↦ elim (after_type ts) [
    | none ↦ none
    | some rest ↦ if are_options rest then some (column n) else none
  ]
]

as_foreign : List Bytes → List Bytes → Option Item
unfolding names skip is_name bytes_dec
as_foreign own [] = none
as_foreign own (t ∷ ts) = elim (skip (codes "(" ∷ []) ts) [
  | none ↦ none
  | some rest ↦ elim (names rest) [
    | none ↦ none
    | some (theirs, []) ↦ if is_name t then some (foreign_key own t theirs) else none
    | some (theirs, more) ↦ elim (skip (codes "ON" ∷ codes "DELETE" ∷ codes "CASCADE" ∷ []) more) [
      | some [] ↦ if is_name t then some (foreign_key own t theirs) else none
      | _ ↦ none
    ]
  ]
]

as_item : List Bytes → Option Item
unfolding skip names as_column as_foreign
as_item ts = elim (skip (codes "PRIMARY" ∷ codes "KEY" ∷ codes "(" ∷ []) ts) [
  | some rest ↦ elim (names rest) [ some (ns, []) ↦ some (primary_key ns) | _ ↦ none ]
  | none ↦ elim (skip (codes "FOREIGN" ∷ codes "KEY" ∷ codes "(" ∷ []) ts) [
    | none ↦ as_column ts
    | some rest ↦ elim (names rest) [
      | none ↦ none
      | some (own, more) ↦ elim (skip (codes "REFERENCES" ∷ []) more) [
        | none ↦ none
        | some theirs ↦ as_foreign own theirs
      ]
    ]
  ]
]

-- The words between the commas that no parenthesis encloses; the depth, and the words so far, the
-- last one first.
split_items : ℕ → List Bytes → List Bytes → List (List Bytes)
unfolding bytes_dec
split_items d cur [] = reverse cur ∷ []
split_items d cur (t ∷ ts) = elim (t == codes "(") [
  | true ↦ split_items (suc d) (t ∷ cur) ts
  | false ↦ elim (t == codes ")") [
    | true ↦ split_items (d - 1) (t ∷ cur) ts
    | false ↦ elim (t == codes "," && eqb d 0) [
      | true ↦ reverse cur ∷ split_items d [] ts
      | false ↦ split_items d (t ∷ cur) ts
    ]
  ]
]

as_items : List (List Bytes) → Option (List Item)
unfolding as_item
as_items [] = some []
as_items (i ∷ is) = elim (as_item i) [
  | none ↦ none
  | some item ↦ elim (as_items is) [ none ↦ none | some items ↦ some (item ∷ items) ]
]

-- The words before the closing parenthesis and the semicolon at the end.
body : List Bytes → Option (List Bytes)
unfolding bytes_dec
body [] = none
body (a ∷ []) = none
body (a ∷ b ∷ []) = if a == codes ")" && b == codes ";" then some [] else none
body (a ∷ b ∷ c ∷ ts) = elim (body (b ∷ c ∷ ts)) [ none ↦ none | some rest ↦ some (a ∷ rest) ]

columns : List Item → List Bytes
columns [] = []
columns (column n ∷ is) = n ∷ columns is
columns (_ ∷ is) = columns is

references : List Item → List Bytes
references [] = []
references (foreign_key own t theirs ∷ is) = t ∷ references is
references (_ ∷ is) = references is

primary_keys : List Item → ℕ
primary_keys [] = 0
primary_keys (primary_key ns ∷ is) = suc (primary_keys is)
primary_keys (_ ∷ is) = primary_keys is

all_among : List Bytes → List Bytes → Bool
unfolding holds
all_among [] cs = true
all_among (n ∷ ns) cs = let rest = all_among ns cs in holds n cs && rest

no_twice : List Bytes → Bool
unfolding holds
no_twice [] = true
no_twice (n ∷ ns) = let rest = no_twice ns in not (holds n ns) && rest

-- The keys are columns of the table, and a foreign key has as many as it refers to.
keys_fit : List Bytes → List Item → Bool
unfolding all_among
keys_fit cs [] = true
keys_fit cs (column n ∷ is) = keys_fit cs is
keys_fit cs (primary_key ns ∷ is) = let rest = keys_fit cs is in all_among ns cs && rest
keys_fit cs (foreign_key own t theirs ∷ is) =
    let rest = keys_fit cs is in all_among own cs && eqb (length own) (length theirs) && rest

pub record Table : Type 0 where
  pub name : Bytes
  pub columns : List Bytes
  pub references : List Bytes

made_of : Bytes → List Item → Option Table
unfolding columns references primary_keys no_twice keys_fit
made_of name is =
    if no_twice (columns is) && keys_fit (columns is) is && eqb (primary_keys is) 1
    then some (record { name = name; columns = columns is; references = references is })
    else none

table_of_words : List Bytes → Option Table
unfolding skip body split_items as_items made_of is_name
table_of_words ts =
    elim (skip (codes "CREATE" ∷ codes "TABLE" ∷ codes "IF" ∷ codes "NOT" ∷ codes "EXISTS" ∷ [])
      ts) [
        | some (name ∷ rest) ↦ elim (skip (codes "(" ∷ []) rest) [
          | none ↦ none
          | some rest' ↦ elim (body rest') [
            | none ↦ none
            | some inside ↦ elim (as_items (split_items 0 [] inside)) [
              | none ↦ none
              | some is ↦ if is_name name then made_of name is else none
            ]
          ]
        ]
        | _ ↦ none
      ]

-- The table that a statement makes, if it is one of this form.
unfoldable pub made_table : Bytes → Option Table
unfolding words_from table_of_words
made_table s = table_of_words (words_from outside s)

pub record Index : Type 0 where
  pub name : Bytes
  pub table : Bytes
  pub columns : List Bytes

index_of_words : Option (List Bytes) → Option Index
unfolding skip names is_name bytes_dec
index_of_words (some (name ∷ on ∷ table ∷ rest)) = elim (skip (codes "(" ∷ []) rest) [
  | none ↦ none
  | some rest' ↦ elim (names rest') [
    | none ↦ none
    | some (cs, more) ↦ elim (skip (codes ";" ∷ []) more) [
      | some [] ↦
          if is_name name && is_name table && on == codes "ON"
          then some (record { name = name; table = table; columns = cs })
          else none
      | _ ↦ none
    ]
  ]
]
index_of_words _ = none

after_create : List Bytes → Option (List Bytes)
unfolding skip
after_create ts = elim (skip (codes "CREATE" ∷ codes "UNIQUE" ∷ codes "INDEX" ∷ []) ts) [
  | some rest ↦ some rest
  | none ↦ skip (codes "CREATE" ∷ codes "INDEX" ∷ []) ts
]

-- The index that a statement makes, if it is one of this form.
unfoldable pub made_index : Bytes → Option Index
unfolding words_from index_of_words after_create
made_index s = index_of_words (after_create (words_from outside s))
