-- ===== src/Demo/Main/Ending.antt =====
-- src/main.cpp: how main() ends.
use anu_db.Base.{ℕ, ◌≡◌, ◌⊎◌, false, [], ◌++◌, Bytes, codes}
use anu_db.Status.{Status}
use anu_db.Exec.{Exec, returns}
use anu_db.Json.{Json}
use anu_db.RocksDb.{RocksDb}
use anu_db.Demo.{Demo, Outside, newline}

module _ ⦃R : RocksDb⦄ where
  -- The last line on std::cerr is a failure.
  abbrev pub Failed : Demo R → Type 0
  Failed d =
      (before : Bytes) × (text : Bytes) × (d.err
        ≡ before ++ (codes "Failed to " ++ (text ++ newline)))

  abbrev farewell : Bytes → Bytes
  farewell version =
      codes "\nDatabase closed successfully.\n" ++ (codes "C++ version: " ++ (version ++ newline))

  -- The database is closed, without collection objects, and std::cout ends with the farewell.
  abbrev pub Closed : Bytes → Demo R → Type 0
  Closed version d =
      (d.database.is_db_open ≡ false)
      × (d.database.collections ≡ [])
      × ((before : Bytes) × (d.out ≡ before ++ farewell version))

  abbrev Ended : Bytes → ℕ → Demo R → Type 0
  Ended version n d = ((n ≡ 0) × Closed version d) ⊎ ((n ≡ 1) × Failed d)

module _ ⦃R : RocksDb⦄ ⦃J : Json⦄ (env : Outside J) where
  -- An action that ends the program well.
  Ends : Exec (Demo R) ℕ → Type 0
  Ends m = (d d' : Demo R) (n : ℕ) → m d ≡ (returns n, d') → Ended env.cplusplus n d'
