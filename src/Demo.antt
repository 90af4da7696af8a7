-- ===== src/Demo.antt =====
-- src/main.cpp, a program that shows the database at work: what its parts share. The children hold the
-- parts of main() in their order, and Main has main() itself.
pub mod Products
pub mod Filling
pub mod Queries
pub mod Updates
pub mod Main
use anu_db.Base.{
  ℕ, Bool, true, false, List, [], ◌∷◌, ◌++◌, Option, none, some, Bytes, String, codes,
  if◌then◌else◌, find_sub, length,
}
use anu_db.Status.{Status, is_ok}
use anu_db.Exec.{Exec, Try, Result, returns, ◌>>=◌, ◌>>◌, pure, gets, lift}
use anu_db.Json.{Json}
use anu_db.RocksDb.{RocksDb}
use anu_db.Engine.{Engine}
use anu_db.Engine.Export.{Disk}
use anu_db.Document.{Document}
use anu_db.Collection.{Chance}
use anu_db.Collection.Documents.{read_document, empty_document}
use anu_db.Collection.Exporting.{Exporting}
use anu_db.Collection.Find.{find_document}
use anu_db.Collection.Import.{to_string}
use anu_db.Database.{Database}

-- The database, the export thread and files of `products`, std::cout and std::cerr.
pub record Demo (R : RocksDb) : Type 0 where
  pub database : Database R
  pub exporting : Exporting
  pub out : Bytes
  pub err : Bytes

-- What the program takes from outside.
pub record Outside (J : Json) : Type 0 where
  pub fuel : ℕ
  pub chance : ℕ → Chance
  pub disk : Disk
  pub dump_indented : J.Value → Try Bytes
  -- Whether the thread of the export runs before the call that starts it returns.
  pub early : Bool
  -- The text of __cplusplus.
  pub cplusplus : Bytes

abbrev pub newline : Bytes
newline = codes "\n"

-- status.message().find("already exists") != npos
abbrev is_some : Option ℕ → Bool
is_some none = false
is_some (some n) = true

unfoldable pub says_exists : Status → Bool
says_exists status = is_some (find_sub (codes "already exists") status.msg)

module _ ⦃R : RocksDb⦄ where
  abbrev with_database : {A : Type 0} → Result A × Database R → Demo R → Result A × Demo R
  with_database (r, db) d = (r, record d { database = db })

  abbrev pub on_database : {A : Type 0} → Exec (Database R) A → Exec (Demo R) A
  on_database m d = with_database (m d.database) d

  abbrev with_engine : {A : Type 0} → Result A × Engine R → Demo R → Result A × Demo R
  with_engine (r, e) d = (r, record d { database = record d.database { engine = e } })

  -- A call of a collection object.
  abbrev pub on_engine : {A : Type 0} → Exec (Engine R) A → Exec (Demo R) A
  on_engine m d = with_engine (m d.database.engine) d

  abbrev with_exporting : {A : Type 0} → Result A × Exporting → Demo R → Result A × Demo R
  with_exporting (r, x) d = (r, record d { exporting = x })

  abbrev pub on_exporting : {A : Type 0} → Exec Exporting A → Exec (Demo R) A
  on_exporting m d = with_exporting (m d.exporting) d

  -- std::cout << text, std::cerr << text
  abbrev pub print : Bytes → Exec (Demo R) (Unit {0})
  print text d = (returns tt, record d { out = d.out ++ text })

  abbrev pub print_error : Bytes → Exec (Demo R) (Unit {0})
  print_error text d = (returns tt, record d { err = d.err ++ text })

  -- The two branches on a status that only print.
  abbrev pub report : Status → Bytes → Bytes → Exec (Demo R) (Unit {0})
  report status failure success =
      if is_ok status
      then print (success ++ newline)
      else print_error (failure ++ (status.msg ++ newline))

module _ ⦃R : RocksDb⦄ ⦃J : Json⦄ (env : Outside J) where
  -- What comes before the text of the value is printed before dump(4) can throw.
  unfoldable pub print_document : Document J → Exec (Demo R) (Unit {0})
  print_document doc = do
    print (codes "Document ID: " ++ (doc.id ++ codes "\nContent:\n"))
    text ← lift (env.dump_indented doc.data_value)
    print (text ++ codes "\n\n")

  show_found : Bytes → List Bytes → Exec (Demo R) (Unit {0})
  unfolding print_document
  show_found name [] = pure tt
  show_found name (id ∷ ids) = do
    (status, doc) ← on_engine (gets (read_document name id empty_document))
    if is_ok status
        then print_document doc
        else print_error
            (codes "Failed to read document " ++ (id ++ (codes ": " ++ (status.msg ++ newline))))
    show_found name ids

  unfoldable pub execute_query : Bytes → J.Value → Bytes → Exec (Demo R) (Unit {0})
  unfolding show_found to_string
  execute_query name query title = do
    print (codes "\n===== Executing " ++ (title ++ codes " =====\n"))
    ids ← on_engine (find_document name env.fuel query)
    print (codes "Found " ++ (to_string (length ids) ++ codes " document(s)\n"))
    show_found name ids
