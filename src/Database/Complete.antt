-- ===== src/Database/Complete.antt =====
-- The tables and the indices that are there when the tool has ended.
use scaffolding.Base.{Bytes, List, if◌then◌else◌}
use scaffolding.Base.Dict.{Dict}
use scaffolding.Database.{Db, create_table, holds, run_logged}
use scaffolding.Database.Lawful.{IsLawful}

module _ (D : Db) (L : IsLawful D) where
  -- One round of the loop over the tables.
  round : List Bytes → Bytes → D.State → D.State
  round existing t σ = if holds t existing then σ else run_logged D (create_table t) σ
