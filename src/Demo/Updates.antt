-- ===== src/Demo/Updates.antt =====
-- src/main.cpp: the updates of main(). Each shows its document after it, in the variable that the earlier
-- ones of the same document used.
use anu_db.Base.{Bool, true, false, [], ◌∷◌, Bytes, codes, if◌then◌else◌}
use anu_db.Status.{is_ok}
use anu_db.Exec.{Exec, ◌>>=◌, ◌>>◌, pure, gets}
use anu_db.Json.{Json}
use anu_db.RocksDb.{RocksDb}
use anu_db.Document.{Document}
use anu_db.Collection.Documents.{read_document, update_document, empty_document}
use anu_db.Demo.{Demo, Outside, print, report, print_document, on_engine}
use anu_db.Demo.Products.{text, int, double, bool}

module _ ⦃J : Json⦄ where
  set_top_level : J.Value
  set_top_level = J.object_value (
      (
        codes "$set",
        J.object_value (
            (codes "price", double 0x4095dff5c28f5c29)
            ∷ (codes "stock", int 50)
            ∷ (codes "rating", double 0x4013333333333333)
            ∷ (codes "promotion", text "Summer Sale")
            ∷ []),
      )
      ∷ [])

  set_nested : J.Value
  set_nested = J.object_value (
      (
        codes "$set",
        J.object_value (
            (codes "specs.processor", text "i9-12900K")
            ∷ (codes "specs.ram", text "64GB")
            ∷ (codes "specs.storage", text "2TB SSD")
            ∷ []),
      )
      ∷ [])

  unset_top_level : J.Value
  unset_top_level = J.object_value (
      (
        codes "$unset",
        J.object_value ((codes "promotion", text "") ∷ (codes "available", text "") ∷ []),
      )
      ∷ [])

  unset_nested : J.Value
  unset_nested = J.object_value (
      (
        codes "$unset",
        J.object_value
            ((codes "specs.storage", text "") ∷ (codes "dimensions.height", text "") ∷ []),
      )
      ∷ [])

  push_top_level : J.Value
  push_top_level = J.object_value (
      (
        codes "$push",
        J.object_value (
            (codes "tags", text "limited-edition")
            ∷ (codes "specs", J.object_value ((codes "storage", text "2 GB") ∷ []))
            ∷ []),
      )
      ∷ [])

  pull_top_level : J.Value
  pull_top_level =
      J.object_value
        ((codes "$pull", J.object_value ((codes "tags", text "limited-edition") ∷ [])) ∷ [])

  set_smartphone : J.Value
  set_smartphone = J.object_value (
      (
        codes "$set",
        J.object_value (
            (codes "features.waterproof", text "IP68")
            ∷ (codes "price", double 0x408a8feb851eb852)
            ∷ []),
      )
      ∷ [])

  push_review : J.Value
  push_review = J.object_value (
      (
        codes "$push",
        J.object_value (
            (
              codes "reviews",
              J.object_value (
                  (codes "user", text "mobile_fan")
                  ∷ (codes "rating", int 5)
                  ∷ (codes "comment", text "Best smartphone I've ever owned!")
                  ∷ []),
            )
            ∷ []),
      )
      ∷ [])

  update_book : J.Value
  update_book = J.object_value (
      (
        codes "$set",
        J.object_value (
            (codes "edition", text "Second Edition")
            ∷ (codes "price", double 0x4043feb851eb851f)
            ∷ (codes "stock", int 100)
            ∷ []),
      )
      ∷ [])

  update_food : J.Value
  update_food = J.object_value (
      (
        codes "$set",
        J.object_value (
            (codes "available", bool true)
            ∷ (
              codes "certifications",
              J.array_value (text "Organic" ∷ text "Fair Trade" ∷ text "Rainforest Alliance" ∷ []),
            )
            ∷ []),
      )
      ∷ [])

module _ ⦃R : RocksDb⦄ ⦃J : Json⦄ (env : Outside J) where
  -- readDocument into a variable, printed after a line if it succeeds.
  show_document : Bytes → Bytes → Document J → Exec (Demo R) (Document J)
  show_document id line doc = do
    (status, doc') ← on_engine (gets (read_document (codes "products") id doc))
    if is_ok status then (print line >> print_document env doc') else pure tt
    pure doc'

  -- An update with its report, and the document after it.
  update_and_show : Bytes → J.Value → Bool → Bytes → Bytes → Document J → Exec (Demo R) (Document J)
  unfolding show_document
  update_and_show id change upsert failure success doc = do
    status ← on_engine (update_document (codes "products") (env.chance 0) id change upsert)
    report status failure success
    if is_ok status then show_document id [] doc else pure doc

  unfoldable pub show_updates : Exec (Demo R) (Unit {0})
  unfolding update_and_show set_top_level set_nested unset_top_level unset_nested push_top_level
      pull_top_level set_smartphone push_review update_book update_food
  show_updates = do
    print (codes "\n===== Update Operations =====\n")
    print (codes "\n----- $set Operation: Top-level Fields -----\n")
    a0 ← show_document (codes "prod001") (codes "Original document:\n") empty_document
    a1 ←
        update_and_show (codes "prod001") set_top_level false (codes "Failed to update document: ")
          (codes "Document updated with $set operator (top-level fields)") a0
    print (codes "\n----- $set Operation: Nested Fields -----\n")
    a2 ←
        update_and_show (codes "prod001") set_nested false (codes "Failed to update document: ")
          (codes "Document updated with $set operator (nested fields)") a1
    print (codes "\n----- $unset Operation: Top-level Fields -----\n")
    a3 ←
        update_and_show (codes "prod001") unset_top_level false
          (codes "Failed to update document: ")
          (codes "Document updated with $unset operator (top-level fields)") a2
    print (codes "\n----- $unset Operation: Nested Fields -----\n")
    a4 ←
        update_and_show (codes "prod001") unset_nested false (codes "Failed to update document: ")
          (codes "Document updated with $unset operator (nested fields)") a3
    print (codes "\n----- $push Operation: Top-level Array Fields -----\n")
    b0 ← show_document (codes "prod001") (codes "Before $push operation:\n") empty_document
    b1 ←
        update_and_show (codes "prod001") push_top_level true (codes "Failed to update document: ")
          (codes "Document updated with $push operator") b0
    print (codes "\n----- $pull Operation: Top-level Array Fields -----\n")
    b2 ←
        update_and_show (codes "prod001") pull_top_level false (codes "Failed to update document: ")
          (codes "Document updated with $pull operator") b1
    print (codes "\n----- Updating Smartphone Document -----\n")
    c0 ← show_document (codes "prod002") (codes "Original smartphone document:\n") empty_document
    c1 ←
        update_and_show (codes "prod002") set_smartphone false
          (codes "Failed to update smartphone document: ")
          (codes "Smartphone document updated with new features") c0
    c2 ←
        update_and_show (codes "prod002") push_review true (codes "Failed to add review: ")
          (codes "Review added to smartphone document") c1
    print (codes "\n----- Updating Book Document -----\n")
    d0 ← show_document (codes "prod003") (codes "Original book document:\n") empty_document
    d1 ←
        update_and_show (codes "prod003") update_book false
          (codes "Failed to update book document: ") (codes "Book document updated") d0
    print (codes "\n----- Updating Food Document -----\n")
    e0 ← show_document (codes "prod004") (codes "Original food document:\n") empty_document
    e1 ←
        update_and_show (codes "prod004") update_food false
          (codes "Failed to update food document: ") (codes "Food document updated") e0
    pure tt
