-- ===== src/Tests/Database.antt =====
-- A database in memory that carries out the statements of the schema.
use scaffolding.Base.{
  ℕ, zero, suc, ◌≤◌, ◌≡◌, refl, Bytes, Bool, true, false, Bool-cases, inl, inr, Option, Error, none,
  some, List, [], ◌∷◌, map, codes, errorf, ok, ok-injective, sym, subst, In, arith, ◌==◌, ◌&&◌,
  if◌then◌else◌,
}
use scaffolding.Base.Int.{ℤ, pos}
use scaffolding.Database.{Db, DbFlags, tree_head_revision, sequenced_leaf_merkle, is_pos, create_db}
use scaffolding.Database.Sql.{Table, made_table, Index, made_index}
use scaffolding.Database.Order.{all_held}
use scaffolding.Database.Lawful.{IsLawful}
use scaffolding.Database.Patience.{Counted, counted, create_db-le}

-- The pings that still fail, the tables, and the indices by table and name.
record Memory : Type 0 where
  away : ℕ
  made : List Bytes
  indices : List (Bytes × Bytes)

holds_pair : Bytes → Bytes → List (Bytes × Bytes) → Bool
holds_pair t n [] = false
holds_pair t n ((u, m) ∷ l) = let rest = holds_pair t n l in if u == t && m == n then true else rest

-- A statement that is not of the schema's form, or refers to a table that is missing, is refused.
refusal : Option Table → Option Index → List Bytes → Option Error
unfolding all_held
refusal (some T) i made = if all_held T.references made then none else some (errorf "no such table")
refusal none (some I) made = none
refusal none none made = some (errorf "syntax error")

with_table : Option Table → List Bytes → List Bytes
unfolding all_held
with_table (some T) made = if all_held T.references made then T.name ∷ made else made
with_table none made = made

with_index : Option Index → List (Bytes × Bytes) → List (Bytes × Bytes)
with_index (some I) indices = (I.table, I.name) ∷ indices
with_index none indices = indices

abbrev carry_out : Bytes → Memory → Memory
carry_out s σ = record σ {
  made = with_table (made_table s) σ.made;
  indices = with_index (made_index s) σ.indices;
}

ping_once : ℕ → ℕ
ping_once zero = zero
ping_once (suc n) = n

abbrev memory_db : Db
memory_db = record {
  State = Memory;
  open_db = λ s. ok tt;
  ping = λ σ. (
    elim σ.away [ zero ↦ none | suc n ↦ some (errorf "refused") ],
    record σ { away = ping_once σ.away },
  );
  sleep = λ n σ. σ;
  show_tables = λ σ. ok (map (λ t. ok t) σ.made);
  exec = λ s σ. (refusal (made_table s) (made_index s) σ.made, carry_out s σ);
  query_count =
      λ q db t name σ. ok (ok (if holds_pair t name σ.indices then pos 1 else pos 0) ∷ []);
}

In-map-ok : (t : Bytes) (l : List Bytes) → In (ok t) (map (λ t. ok t) l) → In t l
In-map-ok t [] i = absurd i
In-map-ok t (u ∷ l) (inl e) = inl (cc (e))
In-map-ok t (u ∷ l) (inr i) = inr (In-map-ok t l i)

holds_pair-In : (t n : Bytes) (l : List (Bytes × Bytes)) → holds_pair t n l ≡ true → In (t, n) l
unfolding holds_pair
holds_pair-In t n [] h = cc
holds_pair-In t n ((u, m) ∷ l) h = ground (arith, holds_pair-In t n l)

counted_lem :
    (t name : Bytes) (n : ℤ) (σ : Memory)
    → In (ok n) (ok (if holds_pair t name σ.indices then pos 1 else pos 0) ∷ [])
    → is_pos n ≡ true
    → In (t, name) σ.indices
counted_lem t name n σ (inl e) p = elim (Bool-cases (holds_pair t name σ.indices)) [
  | inl q ↦ holds_pair-In t name σ.indices q
  | inr q ↦ ground arith
]
counted_lem t name n σ (inr i) p = absurd i

makes_one :
    (T : Table) (i : Option Index) (made : List Bytes)
    → refusal (some T) i made ≡ none
    → In T.name (with_table (some T) made)
unfolding refusal with_table
makes_one T i made h = elim (Bool-cases (all_held T.references made)) [
  | inl e ↦ rw e (inl refl)
  | inr e ↦ absurd (cc (rw e at h))
]

keeps_made :
    (o : Option Table) (t : Bytes) (made : List Bytes) → In t made → In t (with_table o made)
unfolding with_table
keeps_made none t made i = i
keeps_made (some T) t made i = elim (Bool-cases (all_held T.references made)) [
  | inl e ↦ rw e (inr i)
  | inr e ↦ rw e i
]

keeps_index :
    (o : Option Index) (p : Bytes × Bytes) (l : List (Bytes × Bytes))
    → In p l
    → In p (with_index o l)
unfolding with_index
keeps_index none p l i = i
keeps_index (some I) p l i = inr i

memory_db-IsLawful : IsLawful memory_db
unfolding with_index
memory_db-IsLawful = record {
  HasTable = λ σ t. In t σ.made;
  HasIndex = λ σ t n. In (t, n) σ.indices;
  shown = λ σ rows t e i. In-map-ok t σ.made (subst (In (ok t)) (sym (ok-injective e)) i);
  counted = λ σ rows db t name n e i p.
      counted_lem t name n σ (subst (In (ok n)) (sym (ok-injective e)) i) p;
  makes_table = λ σ s T m h. rw m (makes_one T (made_index s) σ.made (rw m at h));
  makes_index = λ σ s I m h. rw m (inl refl);
  keeps_table = λ σ s t c h. keeps_made (made_table s) t σ.made h;
  keeps_index = λ σ s t name c h. keeps_index (made_index s) (t, name) σ.indices h;
}

-- The database is there at the third ping, and one table and one index are there before.
abbrev start : Memory
start = record { away = 2; made = codes "Trees" ∷ []; indices = [] }

abbrev flags : DbFlags
flags = record { db_name = codes "trillian"; mysql_uri = codes "user@tcp(mysql:3306)/" }

create_db-le_example :
    let c : Counted memory_db = record { pings = 0; seconds = 0; state = start } in
    let end =
      (create_db (counted memory_db) flags (sequenced_leaf_merkle ∷ tree_head_revision ∷ []) c).1 in
    (end.pings ≤ 6) × (end.seconds ≤ 10)
create_db-le_example =
    create_db-le memory_db flags (sequenced_leaf_merkle ∷ tree_head_revision ∷ []) start
