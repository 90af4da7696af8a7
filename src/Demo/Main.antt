-- ===== src/Demo/Main.antt =====
-- src/main.cpp: main(). The result is the exit code.
pub mod Ending
use anu_db.Base.{ℕ, Bool, true, false, List, [], ◌∷◌, ◌++◌, Bytes, codes, if◌then◌else◌}
use anu_db.Status.{is_ok}
use anu_db.Exec.{Exec, Result, ◌>>=◌, ◌>>◌, pure, gets, lift, for_each}
use anu_db.Json.{Json}
use anu_db.RocksDb.{RocksDb}
use anu_db.Collection.Documents.{delete_document}
use anu_db.Collection.Exporting.{Exporting, wait_for_export_operation}
use anu_db.Collection.Indexes.{delete_index}
use anu_db.Database.{
  Database, open_database, close_database, create_collection, get_collection, export_async,
  import_file, read_all, collection_names, drop_collection,
}
use anu_db.Demo.{
  Demo, Outside, newline, says_exists, print, print_error, report, on_database, on_engine,
  on_exporting,
}
use anu_db.Demo.Filling.{insert_documents, make_indexes}
use anu_db.Demo.Queries.{show_queries}
use anu_db.Demo.Updates.{show_updates}

abbrev deleted_fields : List Bytes
deleted_fields = codes "stock" ∷ codes "rating" ∷ codes "available" ∷ []

module _ ⦃R : RocksDb⦄ ⦃J : Json⦄ (env : Outside J) where
  abbrev with_both : {A : Type 0} → Result A × (Database R × Exporting) → Demo R → Result A × Demo R
  with_both (r, (db, x)) d = (r, record d { database = db; exporting = x })

  abbrev on_both : {A : Type 0} → Exec (Database R × Exporting) A → Exec (Demo R) A
  on_both m d = with_both (m (d.database, d.exporting)) d

  -- Whether the program goes on: the collection was made, or is there already.
  make_collection : Bytes → Exec (Demo R) Bool
  unfolding says_exists
  make_collection name =
      let continue =
        print (codes "Collection 'products' already exists, continuing...\n") >> pure true in
      let made =
        print (codes "Collection '" ++ (name ++ codes "' created successfully.\n")) >> pure true in
      on_database (create_collection name) >>= λ status.
      let failed =
        print_error (codes "Failed to create collection: " ++ (status.msg ++ newline))
        >> pure false in
      if is_ok status then made else (if says_exists status then continue else failed)

  export_and_wait : Exec (Demo R) (Unit {0})
  export_and_wait = do
    print (codes "\n===== Exporting Documents =====\n")
    status ← on_both (
        export_async env.dump_indented env.fuel env.disk env.early (codes "products")
          (codes "./product_export/"))
    report status (codes "Failed to export documents: ")
        (codes "Documents exported successfully to ./product_export/")
    e ← gets (λ d. d.database.engine)
    on_exporting
        (wait_for_export_operation env.dump_indented env.fuel e (codes "products") env.disk)

  -- The file is the one that the export has left.
  import_and_show : Exec (Demo R) (Unit {0})
  import_and_show = do
    file ← gets (λ d. d.exporting.files.final_file)
    status ← on_database (
        import_file ⦃J = J⦄ env.chance (codes "products_import")
          (codes "./product_export/products.json") file)
    report status (codes "Failed to import documents: ")
        (codes "Documents imported successfully to products_import collection")
    (read, docs) ← on_database (read_all ⦃J = J⦄ (codes "products_import") [])
    report read (codes "Failed to import documents: ")
        (codes "Documents imported successfully to products_import collection")
    for_each docs
        (λ doc. lift (env.dump_indented doc.data_value) >>= λ text. print (text ++ newline))

  drop_index : Bytes → Exec (Demo R) (Unit {0})
  drop_index field = do
    status ← on_engine (delete_index (codes "products") field)
    report status (codes "Failed to delete index on " ++ (field ++ codes ": "))
        (codes "Index on " ++ (field ++ codes " deleted successfully."))

  clean_up : Exec (Demo R) (Unit {0})
  unfolding drop_index
  clean_up = do
    print (codes "\n===== Cleanup Operations =====\n")
    deleted ← on_engine (delete_document ⦃J = J⦄ (codes "products") (codes "prod004"))
    report deleted (codes "Failed to delete document prod004: ")
        (codes "Document prod004 deleted successfully.")
    for_each deleted_fields drop_index
    print (codes "\n===== Collections in Database =====\n")
    names ← gets (λ d. collection_names d.database)
    for_each names (λ name. print (codes "- " ++ (name ++ newline)))
    print (codes "\nDropping collection 'products'\n")
    dropped ← on_database (drop_collection (codes "products"))
    report dropped (codes "Failed to drop collection: ") (codes "Collection dropped successfully.")

  close_at_end : Exec (Demo R) ℕ
  close_at_end =
      let closed = do
        print (codes "\nDatabase closed successfully.\n")
        print (codes "C++ version: " ++ (env.cplusplus ++ newline))
        pure 0
      in on_database close_database >>= λ status.
      let failed =
        print_error (codes "Failed to close database: " ++ (status.msg ++ newline)) >> pure 1 in
      if is_ok status then closed else failed

  -- From the import on.
  second_half : Exec (Demo R) ℕ
  unfolding make_collection import_and_show clean_up close_at_end
  second_half = do
    made ← make_collection (codes "products_import")
    let rest = do import_and_show; clean_up; close_at_end
    if made then rest else pure 1

  -- With the collection `products`.
  with_products : Exec (Demo R) ℕ
  unfolding export_and_wait second_half
  with_products = do
    insert_documents env
    make_indexes env
    show_queries env
    show_updates env
    export_and_wait
    second_half

  opened_main : Exec (Demo R) ℕ
  unfolding make_collection with_products
  opened_main = do
    print (codes "Database opened successfully.\n")
    made ← make_collection (codes "products")
    let got = do
      found ← on_database (get_collection (codes "products"))
      let missing = print_error (codes "Failed to get collection.\n") >> pure 1
      if found then with_products else missing
    if made then got else pure 1

  -- What the destructors of the database do when main() has returned is left out.
  unfoldable pub main : Exec (Demo R) ℕ
  unfolding opened_main
  main = do
    status ← on_database open_database
    let failed =
        print_error (codes "Failed to open database: " ++ (status.msg ++ newline)) >> pure 1
    if is_ok status then opened_main else failed
