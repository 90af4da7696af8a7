-- ===== src/Database.antt =====
-- src/Database.{h,cpp}: the engine, and the collection objects by their names. A collection object
-- holds its name and the engine's address only, so the map is the list of the names it has.
pub mod Dropping
pub mod Objects
pub mod Reading
pub mod Succeeding
use anu_db.Base.{
  ℕ, Bool, true, false, not, List, [], ◌∷◌, ◌++◌, Option, Bytes, codes, if◌then◌else◌, ◌==◌,
  bytes_eq, contains, keep_if,
}
use anu_db.Status
use anu_db.Status.{Status, is_ok}
use anu_db.Engine.Export.{Disk}
use anu_db.Exec.{
  Try, Exec, Result, returns, raises, crashes, stops, ask, ◌>>=◌, ◌>>◌, pure, crash, gets,
}
use anu_db.Json.{Json}
use anu_db.RocksDb.{RocksDb}
use anu_db.Engine
use anu_db.Engine.{Engine, open_engine, close_engine, collection_exists}
use anu_db.Engine.Names.{get_collection_names}
use anu_db.Document.{Document}
use anu_db.Collection.{Chance}
use anu_db.Collection.Documents
use anu_db.Collection.Indexes.{get_index, delete_index, destroy, read_all_documents}
use anu_db.Collection.Exporting.{Exporting, export_all_to_json_async}
use anu_db.Collection.Import.{import_from_json_file}

pub record Database (R : RocksDb) : Type 0 where
  pub is_db_open : Bool
  pub engine : Engine R
  pub collections : List Bytes

module _ ⦃R : RocksDb⦄ where
  abbrev pub back : {A : Type 0} → Database R → Result A × Engine R → Result A × Database R
  back d (r, e) = (r, record d { engine = e })

  -- A call on the engine of the database.
  abbrev pub on_engine : {A : Type 0} → Exec (Engine R) A → Exec (Database R) A
  on_engine m d = back d (m d.engine)

  abbrev with_collections : (List Bytes → List Bytes) → Exec (Database R) (Unit {0})
  with_collections f d = (returns tt, record d { collections = f d.collections })

  abbrev set_open : Bool → Exec (Database R) (Unit {0})
  set_open b d = (returns tt, record d { is_db_open = b })

  unfoldable pub open_database : Exec (Database R) Status
  open_database = do set_open true; on_engine open_engine

  -- collections_.clear() runs the destructor of each collection.
  destroy_all : List Bytes → Exec (Engine R) (Unit {0})
  destroy_all [] = pure tt
  destroy_all (name ∷ names) = destroy name >> destroy_all names

  unfoldable pub close_database : Exec (Database R) Status
  unfolding destroy_all
  close_database = do
    set_open false
    names ← gets (λ d. d.collections)
    on_engine (destroy_all names)
    with_collections (λ names'. [])
    on_engine close_engine

  pub without : Bytes → List Bytes → List Bytes
  without name = keep_if (λ n. not (n == name))

  -- `collections_[name] = make_unique(...)`: an object that is there is destroyed.
  store_object : Bytes → Exec (Database R) (Unit {0})
  unfolding without
  store_object name = do
    held ← gets (λ d. contains d.collections name)
    with_collections (λ names. name ∷ without name names)
    if held then on_engine (destroy name) else pure tt

  unfoldable pub create_collection : Bytes → Exec (Database R) Status
  unfolding store_object
  create_collection name = do
    status ← on_engine (Engine.create_collection name)
    if is_ok status then (store_object name >> pure Status.ok) else pure status

  -- Whether the pointer that getCollection() returns is none to null.
  unfoldable pub get_collection : Bytes → Exec (Database R) Bool
  get_collection name = do
    held ← gets (λ d. contains d.collections name)
    exists ← gets (λ d. collection_exists name d.engine)
    if held
        then pure true
        else (if exists
            then (with_collections (λ names. name ∷ names) >> pure true)
            else pure false)

  -- A status of deleteIndex() is only printed.
  pub delete_each : Bytes → List Bytes → Exec (Engine R) (Unit {0})
  delete_each name [] = pure tt
  delete_each name (index ∷ indexes) =
      delete_index name index >>= λ ignored. delete_each name indexes

  pub erase_object : Bytes → Exec (Database R) (Unit {0})
  unfolding without
  erase_object name = do
    held ← gets (λ d. contains d.collections name)
    with_collections (without name)
    if held then on_engine (destroy name) else pure tt

  -- The pointer is used without a test for null.
  unfoldable pub drop_collection : Bytes → Exec (Database R) Status
  unfolding get_collection delete_each erase_object
  drop_collection name = do
    erase_object name
    found ← get_collection name
    (status, indexes) ← if found then gets (λ d. get_index name [] d.engine) else crash
    on_engine (delete_each name indexes)
    on_engine (Engine.drop_collection name)

  abbrev pub absent : Bytes → Status
  absent name = Status.not_found (codes "Collection not found: " ++ name)

  unfoldable pub collection_names : Database R → List Bytes
  collection_names d = get_collection_names d.engine

  module _ ⦃J : Json⦄ where
    abbrev all_read : Result Status × List (Document J) → Result (Status × List (Document J))
    all_read (returns status, docs) = returns (status, docs)
    all_read (raises m, docs) = raises m
    all_read (crashes, docs) = crashes
    all_read (stops, docs) = stops

    unfoldable pub read_document :
        Bytes → Bytes → Document J → Exec (Database R) (Status × Document J)
    unfolding get_collection
    read_document name id doc = do
      found ← get_collection name
      if found
          then gets (λ d. Documents.read_document name id doc d.engine)
          else pure (absent name, doc)

    -- The default limit of Collection::readAllDocuments is 10.
    unfoldable pub read_all :
        Bytes → List (Document J) → Exec (Database R) (Status × List (Document J))
    unfolding get_collection
    read_all name docs = do
      found ← get_collection name
      if found
          then ask (λ d. all_read (read_all_documents name 10 d.engine docs))
          else pure (absent name, docs)

    unfoldable pub import_file :
        (ℕ → Chance) → Bytes → Bytes → Option Bytes → Exec (Database R) Status
    unfolding get_collection
    import_file chance name path text = do
      found ← get_collection name
      if found then on_engine (import_from_json_file name chance path text) else pure (absent name)

  abbrev first_of :
      {A : Type 0} → Result A × Database R → Exporting → Result A × (Database R × Exporting)
  first_of (r, d) x = (r, (d, x))

  abbrev second_of :
      {A : Type 0} → Result A × Exporting → Database R → Result A × (Database R × Exporting)
  second_of (r, x) d = (r, (d, x))

  abbrev on_database : {A : Type 0} → Exec (Database R) A → Exec (Database R × Exporting) A
  on_database m (d, x) = first_of (m d) x

  abbrev on_thread : {A : Type 0} → Exec Exporting A → Exec (Database R × Exporting) A
  on_thread m (d, x) = second_of (m x) d

  module _ ⦃J : Json⦄ where
    -- The second part of the state is the thread of the object that is found, and its files. `early`
    -- says whether the thread runs at once.
    unfoldable pub export_async :
        (J.Value → Try Bytes)
        → ℕ
        → Disk
        → Bool
        → Bytes
        → Bytes
        → Exec (Database R × Exporting) Status
    unfolding get_collection
    export_async dump_indented fuel disk early name path = do
      found ← on_database (get_collection name)
      e ← gets (λ s. s.0.engine)
      if found
          then on_thread (export_all_to_json_async dump_indented fuel e name disk early path)
          else pure (absent name)
