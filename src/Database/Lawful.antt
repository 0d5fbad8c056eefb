-- ===== src/Database/Lawful.antt =====
-- What the tool relies on of the database, and what it reads of it.
use scaffolding.Base.{
  ◌≡◌, refl, sym, ap, Bytes, Bool, true, false, ◌||◌, Bool-cases, ◌⊎◌, inl, inr, Option, none, some,
  List, [], ◌∷◌, Result, ok, err, panic, exit, In, arith, bytes_dec, ==-eq, ◌==◌,
}
use scaffolding.Base.Int.{ℤ, pos}
use scaffolding.Database.{
  Db, IndexCreate, tables, create_table, existing_tables, holds, index_count, last_count, is_pos,
}
use scaffolding.Database.Schema.{text_of}
use scaffolding.Database.Sql.{Table, made_table, Index, made_index}
use scaffolding.Database.Order.{all_held, makes, makes_index, IsIndex}

abbrev is_some : {A : Type 0} → Option A → Bool
is_some none = false
is_some (some a) = true

-- A statement that makes a table or an index, and does nothing else.
unfoldable pub creates : Bytes → Bool
creates s = is_some (made_table s) || is_some (made_index s)

-- What the tool relies on: which tables and indices there are in a state of the database, that the
-- queries tell the truth, that a statement that makes a table or an index has made it when it ends
-- without an error, and that no such statement takes one away.
pub record IsLawful (D : Db) : Type 1 where
  pub HasTable : D.State → Bytes → Type 0
  pub HasIndex : D.State → Bytes → Bytes → Type 0
  pub shown :
      (σ : D.State) (rows : List (Result Bytes)) (t : Bytes)
      → D.show_tables σ ≡ ok rows
      → In (ok t) rows
      → HasTable σ t
  pub counted :
      (σ : D.State) (rows : List (Result ℤ)) (db t name : Bytes) (n : ℤ)
      → index_count D db t name σ ≡ ok rows
      → In (ok n) rows
      → is_pos n ≡ true
      → HasIndex σ t name
  pub makes_table :
      (σ : D.State) (s : Bytes) (T : Table)
      → made_table s ≡ some T
      → (D.exec s σ).0 ≡ none
      → HasTable (D.exec s σ).1 T.name
  pub makes_index :
      (σ : D.State) (s : Bytes) (I : Index)
      → made_index s ≡ some I
      → (D.exec s σ).0 ≡ none
      → HasIndex (D.exec s σ).1 I.table I.name
  pub keeps_table :
      (σ : D.State) (s t : Bytes) → creates s ≡ true → HasTable σ t → HasTable (D.exec s σ).1 t
  pub keeps_index :
      (σ : D.State) (s t name : Bytes)
      → creates s ≡ true
      → HasIndex σ t name
      → HasIndex (D.exec s σ).1 t name

-- The database takes the statements of the tool without an error: that of a table when the tables that
-- it refers to are there, and that of an index when its table is there and the index was not counted.
pub record Takes (D : Db) (L : IsLawful D) : Type 0 where
  pub takes_table :
      (σ : D.State) (t : Bytes) (T : Table)
      → In t tables
      → made_table (create_table t) ≡ some T
      → ((r : Bytes) → In r T.references → L.HasTable σ r)
      → (D.exec (create_table t) σ).0 ≡ none
  pub takes_index :
      (σ : D.State) (db name : Bytes) (i : IndexCreate) (rows : List (Result ℤ))
      → IsIndex name i
      → L.HasTable σ i.table_name
      → index_count D db i.table_name name σ ≡ ok rows
      → is_pos (last_count (pos 0) rows) ≡ false
      → (D.exec (text_of i.create_str) σ).0 ≡ none

pub made_table-creates : (s : Bytes) (T : Table) → made_table s ≡ some T → creates s ≡ true
unfolding creates
made_table-creates s T e = rw e refl

pub made_index-creates : (s : Bytes) (I : Index) → made_index s ≡ some I → creates s ≡ true
unfolding creates
made_index-creates s I e = elim (Bool-cases (is_some (made_table s))) [
  | inl f ↦ rw f refl
  | inr f ↦ rw (f, e) refl
]

-- What the checks of a statement say.
pub makes-made_table :
    (t : Bytes) (seen : List Bytes) (o : Option Table)
    → makes t seen o ≡ true
    → (T : Table) × (o ≡ some T) × (T.name ≡ t) × (all_held T.references seen ≡ true)
unfolding makes
makes-made_table t seen none h = absurd (cc (h))
makes-made_table t seen (some T) h = (T, refl, ==-eq T.name t (ground arith), ground arith)

pub makes_index-made_index :
    (name t : Bytes) (T : Option Table) (o : Option Index)
    → makes_index name t T o ≡ true
    → (I : Index) × (o ≡ some I) × (I.name ≡ name) × (I.table ≡ t)
unfolding makes_index
makes_index-made_index name t none o h = absurd (cc (h))
makes_index-made_index name t (some T) none h = absurd (cc (h))
makes_index-made_index name t (some T) (some I) h =
    (I, refl, ==-eq I.name name (ground arith), ==-eq I.table t (ground arith))

pub holds-In : (t : Bytes) (ns : List Bytes) → holds t ns ≡ true → In t ns
unfolding holds
holds-In t [] h = cc
holds-In t (n ∷ ns) h = ground (arith, holds-In t ns, ==-eq n t)

pub all_held-In : (r : Bytes) (ns seen : List Bytes) → all_held ns seen ≡ true → In r ns → In r seen
unfolding all_held
all_held-In r [] seen h i = absurd i
all_held-In r (n ∷ ns) seen h (inl e) = rw e (holds-In n seen (ground arith))
all_held-In r (n ∷ ns) seen h (inr i) = all_held-In r ns seen (ground arith) i

nil-ne : (t : Bytes) → (t == []) ≡ false → ([] == t) ≡ false
unfolding bytes_dec
nil-ne [] h = cc
nil-ne (c ∷ s) h = refl

-- A name that was read, as the empty one stands for the rows that could not be read.
pub existing_tables-In :
    (t : Bytes) (rows : List (Result Bytes))
    → (t == []) ≡ false
    → holds t (existing_tables rows) ≡ true
    → In (ok t) rows
unfolding existing_tables holds
existing_tables-In t [] n h = cc
existing_tables-In t (ok name ∷ rows) n h = elim (Bool-cases (name == t)) [
  | inl e ↦ inl (ap (λ x. ok x) (sym (==-eq name t e)))
  | inr e ↦ inr (existing_tables-In t rows n (rw e at h))
]
existing_tables-In t (err e ∷ rows) n h = inr (existing_tables-In t rows n (rw (nil-ne t n) at h))
existing_tables-In t (panic e ∷ rows) n h = inr (existing_tables-In t rows n (rw (nil-ne t n) at h))
existing_tables-In t (exit e ∷ rows) n h = inr (existing_tables-In t rows n (rw (nil-ne t n) at h))

-- A positive count is 0 to begin with, or was read.
pub last_count-In :
    (n : ℤ) (rows : List (Result ℤ))
    → is_pos (last_count n rows) ≡ true
    → (is_pos n ≡ true) ⊎ ((m : ℤ) × In (ok m) rows × (is_pos m ≡ true))
unfolding last_count
last_count-In n [] h = inl h
last_count-In n (ok m ∷ rows) h = elim (last_count-In m rows h) [
  | inl p ↦ inr (m, inl refl, p)
  | inr (k, i, p) ↦ inr (k, inr i, p)
]
last_count-In n (err e ∷ rows) h = elim (last_count-In n rows h) [
  | inl p ↦ inl p
  | inr (k, i, p) ↦ inr (k, inr i, p)
]
last_count-In n (panic e ∷ rows) h = elim (last_count-In n rows h) [
  | inl p ↦ inl p
  | inr (k, i, p) ↦ inr (k, inr i, p)
]
last_count-In n (exit e ∷ rows) h = elim (last_count-In n rows h) [
  | inl p ↦ inl p
  | inr (k, i, p) ↦ inr (k, inr i, p)
]
