-- ===== src/Database/Indexed.antt =====
-- The loop over the indices.
use scaffolding.Base.{
  ◌≡◌, refl, sym, subst, Bytes, Bool, true, false, inl, inr, List, [], ◌∷◌, Result, ok, All,
  All-map, All-In, if◌then◌else◌,
}
use scaffolding.Base.Int.{ℤ, pos}
use scaffolding.Base.Dict.{Dict}
use scaffolding.Database.{
  Db, IndexCreate, tables, index_count, last_count, is_pos, run_logged, index_exists, add_index,
  add_indices,
}
use scaffolding.Database.Order.{IsIndex}
use scaffolding.Database.Lawful.{
  IsLawful, Takes, creates, made_index-creates, makes_index-made_index, holds-In, last_count-In,
}
use scaffolding.Database.Schema.{text_of}

module _ (D : Db) (L : IsLawful D) where
  index_creates :
      (name : Bytes) (i : IndexCreate) → IsIndex name i → creates (text_of i.create_str) ≡ true
  index_creates name i w =
      let (I, e, n, t) = makes_index-made_index name i.table_name _ _ w.makes in
      made_index-creates (text_of i.create_str) I e

  -- Whether the index is there when its round has ended.
  index_exists-HasIndex :
      (db name : Bytes) (i : IndexCreate) (σ : D.State) (rows : List (Result ℤ))
      → index_count D db i.table_name name σ ≡ ok rows
      → is_pos (last_count (pos 0) rows) ≡ true
      → L.HasIndex σ i.table_name name
  index_exists-HasIndex db name i σ rows q p = elim (last_count-In (pos 0) rows p) [
    | inl e ↦ absurd (cc (e))
    | inr (m, k, e) ↦ L.counted σ rows db i.table_name name m q k e
  ]

  -- All the indices of the list, on tables that are there.
  abbrev pub HasIndices : D.State → Dict IndexCreate → Type 0
  HasIndices σ = All (λ p. L.HasIndex σ p.1.table_name p.0)

  -- The state after one round of the loop over the indices.
  index_round : Bool → Bytes → IndexCreate → D.State → D.State
  index_round exists name i σ = if exists then σ else add_index D name i σ

  index_round_keeps_table :
      (exists : Bool) (name t : Bytes) (i : IndexCreate) (σ : D.State)
      → IsIndex name i
      → L.HasTable σ t
      → L.HasTable (index_round exists name i σ) t
  unfolding index_round add_index run_logged
  index_round_keeps_table true name t i σ w h = h
  index_round_keeps_table false name t i σ w h = L.keeps_table σ _ t (index_creates name i w) h

  index_round_keeps_index :
      (exists : Bool) (name t n : Bytes) (i : IndexCreate) (σ : D.State)
      → IsIndex name i
      → L.HasIndex σ t n
      → L.HasIndex (index_round exists name i σ) t n
  unfolding index_round add_index run_logged
  index_round_keeps_index true name t n i σ w h = h
  index_round_keeps_index false name t n i σ w h = L.keeps_index σ _ t n (index_creates name i w) h

  index_round_makes :
      (V : Takes D L) (db : Bytes) (exists : Bool) (name : Bytes) (i : IndexCreate) (σ : D.State)
      (rows : List (Result ℤ))
      → IsIndex name i
      → L.HasTable σ i.table_name
      → index_count D db i.table_name name σ ≡ ok rows
      → is_pos (last_count (pos 0) rows) ≡ exists
      → L.HasIndex (index_round exists name i σ) i.table_name name
  unfolding index_round add_index run_logged
  index_round_makes V db true name i σ rows w t q e = index_exists-HasIndex db name i σ rows q e
  index_round_makes V db false name i σ rows w t q e =
      let (I, m, n, on) = makes_index-made_index name i.table_name _ _ w.makes in
      let made =
        L.makes_index σ (text_of i.create_str) I m (V.takes_index σ db name i rows w t q e) in
      subst (λ x. L.HasIndex (D.exec (text_of i.create_str) σ).1 x name) on
        (subst (L.HasIndex (D.exec (text_of i.create_str) σ).1 I.table) n made)

  -- The count of an index can always be read.
  abbrev pub Counts : Bytes → Type 0
  Counts db =
      (t name : Bytes) (σ : D.State)
      → (rows : List (Result ℤ)) × (index_count D db t name σ ≡ ok rows)

  add_indices-round :
      (db name : Bytes) (i : IndexCreate) (is : Dict IndexCreate) (σ : D.State)
      (rows : List (Result ℤ))
      → index_count D db i.table_name name σ ≡ ok rows
      → add_indices D db ((name, i) ∷ is) σ
        ≡ add_indices D db is (index_round (is_pos (last_count (pos 0) rows)) name i σ)
  unfolding add_indices index_exists index_round
  add_indices-round db name i is σ rows q = rw (q, index_exists) refl

  -- The loop over the indices has ended well, with the tables and these indices there.
  abbrev pub EndsWith : Dict IndexCreate → Dict IndexCreate → Result (Unit {0}) × D.State → Type 0
  EndsWith before is end =
      (end.0 ≡ ok tt)
      × All (L.HasTable end.1) tables
      × HasIndices end.1 before
      × HasIndices end.1 is

  pub add_indices-EndsWith :
      (V : Takes D L) (db : Bytes) (is before : Dict IndexCreate) (σ : D.State)
      → Counts db
      → All (λ p. IsIndex p.0 p.1) is
      → All (L.HasTable σ) tables
      → HasIndices σ before
      → EndsWith before is (add_indices D db is σ)
  unfolding add_indices
  add_indices-EndsWith V db [] before σ c w t b = (refl, t, b, tt)
  add_indices-EndsWith V db ((name, i) ∷ is) before σ c (v, w) t b =
      let (rows, q) = c i.table_name name σ in
      let exists = is_pos (last_count (pos 0) rows) in
      let here =
        index_round_makes V db exists name i σ rows v
          (All-In (L.HasTable σ) i.table_name tables t (holds-In i.table_name tables v.known)) q
          refl in
      let (r, t', b', is') =
        add_indices-EndsWith V db is ((name, i) ∷ before) (index_round exists name i σ) c w
          (All-map _ _ tables (λ u h. index_round_keeps_table exists name u i σ v h) t)
          (
            here,
            All-map _ _ before
                (λ p h. index_round_keeps_index exists name p.1.table_name p.0 i σ v h) b,
          ) in
      subst (EndsWith before ((name, i) ∷ is)) (sym (add_indices-round db name i is σ rows q))
        (r, t', b'.1, (b'.0, is'))
