-- ===== src/Database/Patience.antt =====
-- How often the tool asks the database whether it is there, and how long it sleeps.
use scaffolding.Base.{
  ℕ, zero, suc, ◌+◌, ◌*◌, ◌≤◌, ◌≡◌, refl, Bytes, List, [], ◌∷◌, Result, or_panic, arith,
}
use scaffolding.Base.Dict.{Dict}
use scaffolding.Cluster.{continue-elim, ◌>>◌}
use scaffolding.Database.{
  Db, DbFlags, IndexCreate, tables, create_table, existing_tables, wait_for, connect, run_logged,
  create_missing, add_index, add_indices, open_checked, fill_schema, add_schema, create_db,
}

-- A database with the number of its pings and the seconds that were slept.
pub record Counted (D : Db) : Type 0 where
  pub pings : ℕ
  pub seconds : ℕ
  pub state : D.State

module _ (D : Db) where
  -- The same database, with its calls counted.
  abbrev pub counted : Db
  counted = record {
    State = Counted D;
    open_db = D.open_db;
    ping = λ c. let (e, σ) = D.ping c.state in (e, record c { pings = c.pings + 1; state = σ });
    sleep = λ n c. record c { seconds = c.seconds + n; state = D.sleep n c.state };
    show_tables = λ c. D.show_tables c.state;
    exec = λ s c. let (e, σ) = D.exec s c.state in (e, record c { state = σ });
    query_count = λ q db t name c. D.query_count q db t name c.state;
  }

  wait_for-le :
      (n : ℕ) (c : Counted D)
      → ((wait_for counted n c).pings ≤ c.pings + n)
        × ((wait_for counted n c).seconds ≤ c.seconds + 2 * n)
  unfolding wait_for
  wait_for-le zero c = omega arith
  wait_for-le (suc n) c = ground (arith, wait_for-le n (counted.sleep 2 (counted.ping c).1))

  -- The statements and the queries count for nothing.
  create_missing_counts :
      (existing ts : List Bytes) (c : Counted D)
      → ((create_missing counted existing ts c).pings ≡ c.pings)
        × ((create_missing counted existing ts c).seconds ≡ c.seconds)
  unfolding create_missing run_logged
  create_missing_counts existing [] c = (refl, refl)
  create_missing_counts existing (t ∷ ts) c = ground (
    arith,
    create_missing_counts existing ts c,
    create_missing_counts existing ts (counted.exec (create_table t) c).1,
  )

  add_indices_counts :
      (db : Bytes) (is : Dict IndexCreate) (c : Counted D)
      → ((add_indices counted db is c).1.pings ≡ c.pings)
        × ((add_indices counted db is c).1.seconds ≡ c.seconds)
  unfolding add_indices add_index run_logged
  add_indices_counts db [] c = (refl, refl)
  add_indices_counts db ((name, i) ∷ is) c =
      ground
        (arith, add_indices_counts db is c, add_indices_counts db is (add_index counted name i c))

  connect-le :
      (c : Counted D)
      → ((connect counted c).1.pings ≤ c.pings + 6)
        × ((connect counted c).1.seconds ≤ c.seconds + 10)
  unfolding connect
  connect-le c = ground (arith, wait_for-le 5 c)

-- What holds to begin with, after the connection, and after the schema was filled holds in the end.
create_db_elim :
    (D : Db) (P : D.State → Type 0) (flags : DbFlags) (is : Dict IndexCreate) (σ : D.State)
    → P σ
    → P (connect D σ).1
    → ((rows : List (Result Bytes)) → P (fill_schema D flags.db_name is rows (connect D σ).1).1)
    → P (create_db D flags is σ).1
unfolding create_db add_schema
create_db_elim D P flags is σ p q r =
    let add = add_schema D flags.db_name is in
    let σ1 = (connect D σ).1 in
    let shown = or_panic "show tables failed: %+v" (D.show_tables σ1) in
    continue-elim P (open_checked D flags) (λ _. connect D >> add) σ p
      λ _.
        continue-elim P (connect D σ).0 (λ _. add) σ1 q
          λ _. continue-elim P shown (fill_schema D flags.db_name is) σ1 q r

-- The bounds on what has been counted.
abbrev Within : (D : Db) → Counted D → Type 0
Within D c = (c.pings ≤ 6) × (c.seconds ≤ 10)

fill_schema-le :
    (D : Db) (db : Bytes) (is : Dict IndexCreate) (c : Counted D)
    → Within D c
    → (rows : List (Result Bytes)) → Within D (fill_schema (counted D) db is rows c).1
unfolding fill_schema
fill_schema-le D db is c w rows = omega (
  arith,
  create_missing_counts D (existing_tables rows) tables c,
  add_indices_counts D db is (create_missing (counted D) (existing_tables rows) tables c),
  w,
)

-- Whatever the database answers and however the tool ends, it has asked the database at most six
-- times whether it is there and has slept for at most ten seconds.
pub create_db-le :
    (D : Db) (flags : DbFlags) (is : Dict IndexCreate) (σ : D.State)
    → let c : Counted D = record { pings = 0; seconds = 0; state = σ } in
      ((create_db (counted D) flags is c).1.pings ≤ 6)
      × ((create_db (counted D) flags is c).1.seconds ≤ 10)
create_db-le D flags is σ =
    let c : Counted D = record { pings = 0; seconds = 0; state = σ } in
    create_db_elim (counted D) (Within D) flags is c (omega arith) (omega (arith, connect-le D c))
      (fill_schema-le D flags.db_name is (connect (counted D) c).1 (omega (arith, connect-le D c)))
