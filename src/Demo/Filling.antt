-- ===== src/Demo/Filling.antt =====
-- src/main.cpp: the documents and the indexes that main() makes.
use anu_db.Base.{false, List, [], ◌∷◌, ◌++◌, Bytes, codes, if◌then◌else◌}
use anu_db.Status.{is_ok}
use anu_db.Exec.{Exec, ◌>>=◌, ◌>>◌, for_each}
use anu_db.Json.{Json}
use anu_db.RocksDb.{RocksDb}
use anu_db.Document.{Document}
use anu_db.Collection.Documents.{create_document, update_document}
use anu_db.Collection.Indexes.{create_index}
use anu_db.Demo.{Demo, Outside, newline, says_exists, print, print_error, report, on_engine}
use anu_db.Demo.Products.{documents}

abbrev indexed_fields : List Bytes
indexed_fields =
    codes "price"
    ∷ codes "stock"
    ∷ codes "category"
    ∷ codes "rating"
    ∷ codes "available"
    ∷ codes "name"
    ∷ []

module _ ⦃R : RocksDb⦄ ⦃J : Json⦄ (env : Outside J) where
  replace_document : Document J → Exec (Demo R) (Unit {0})
  replace_document doc = do
    print (codes "Document " ++ (doc.id ++ codes " already exists, updating instead...\n"))
    status ← on_engine (
        update_document (codes "products") (env.chance 0) doc.id
          (J.object_value ((codes "$set", doc.data_value) ∷ [])) false)
    report status (codes "Failed to update existing document " ++ (doc.id ++ codes ": "))
        (codes "Document " ++ (doc.id ++ codes " updated."))

  insert_document : Document J → Exec (Demo R) (Unit {0})
  unfolding replace_document says_exists
  insert_document doc = do
    (status, doc') ← on_engine (create_document (codes "products") (env.chance 0) doc)
    if is_ok status
        then print (codes "Document " ++ (doc'.id ++ codes " created successfully.\n"))
        else (if says_exists status
            then replace_document doc'
            else print_error (
                codes "Failed to create document "
                ++ (doc'.id ++ (codes ": " ++ (status.msg ++ newline)))))

  make_index : Bytes → Exec (Demo R) (Unit {0})
  unfolding says_exists
  make_index field = do
    status ← on_engine (create_index ⦃J = J⦄ (codes "products") env.fuel field)
    if is_ok status
        then print (codes "Index on '" ++ (field ++ codes "' created successfully.\n"))
        else (if says_exists status
            then print (codes "Index on '" ++ (field ++ codes "' already exists.\n"))
            else print_error (
                codes "Failed to create index on "
                ++ (field ++ (codes ": " ++ (status.msg ++ newline)))))

  unfoldable pub insert_documents : Exec (Demo R) (Unit {0})
  unfolding insert_document
  insert_documents = for_each documents insert_document

  unfoldable pub make_indexes : Exec (Demo R) (Unit {0})
  unfolding make_index
  make_indexes =
      print (codes "\n===== Creating Indexes =====\n") >> for_each indexed_fields make_index
