-- ===== src/Demo/Queries.antt =====
-- src/main.cpp: the queries of main().
use anu_db.Base.{true, [], ◌∷◌, codes}
use anu_db.Exec.{Exec, ◌>>◌}
use anu_db.Json.{Json}
use anu_db.RocksDb.{RocksDb}
use anu_db.Demo.{Demo, Outside, print, execute_query}
use anu_db.Demo.Products.{text, int, double, bool}

module _ ⦃J : Json⦄ where
  order_by_price : J.Value
  order_by_price =
      J.object_value ((codes "$orderBy", J.object_value ((codes "price", text "asc") ∷ [])) ∷ [])

  order_by_rating : J.Value
  order_by_rating =
      J.object_value ((codes "$orderBy", J.object_value ((codes "rating", text "desc") ∷ [])) ∷ [])

  eq_category : J.Value
  eq_category =
      J.object_value
        ((codes "$eq", J.object_value ((codes "category", text "Electronics") ∷ [])) ∷ [])

  eq_available : J.Value
  eq_available =
      J.object_value ((codes "$eq", J.object_value ((codes "available", bool true) ∷ [])) ∷ [])

  gt_price : J.Value
  gt_price =
      J.object_value
        ((codes "$gt", J.object_value ((codes "price", double 0x4049000000000000) ∷ [])) ∷ [])

  gt_rating : J.Value
  gt_rating =
      J.object_value
        ((codes "$gt", J.object_value ((codes "rating", double 0x4012000000000000) ∷ [])) ∷ [])

  lt_stock : J.Value
  lt_stock = J.object_value ((codes "$lt", J.object_value ((codes "stock", int 100) ∷ [])) ∷ [])

  lt_price : J.Value
  lt_price =
      J.object_value
        ((codes "$lt", J.object_value ((codes "price", double 0x407f400000000000) ∷ [])) ∷ [])

  and_price_rating : J.Value
  and_price_rating = J.object_value (
      (
        codes "$and",
        J.array_value (
            J.object_value
              ((codes "$gt", J.object_value ((codes "price", double 0x4059000000000000) ∷ [])) ∷ [])
            ∷ J.object_value (
                (codes "$lt", J.object_value ((codes "price", double 0x408f400000000000) ∷ []))
                ∷ [])
            ∷ []),
      )
      ∷ [])

  and_category_available : J.Value
  and_category_available = J.object_value (
      (
        codes "$and",
        J.array_value (
            J.object_value
              ((codes "$eq", J.object_value ((codes "category", text "Electronics") ∷ [])) ∷ [])
            ∷ J.object_value
                ((codes "$eq", J.object_value ((codes "available", bool true) ∷ [])) ∷ [])
            ∷ []),
      )
      ∷ [])

  or_categories : J.Value
  or_categories = J.object_value (
      (
        codes "$or",
        J.array_value (
            J.object_value
              ((codes "$eq", J.object_value ((codes "category", text "Books") ∷ [])) ∷ [])
            ∷ J.object_value
                ((codes "$eq", J.object_value ((codes "category", text "Food") ∷ [])) ∷ [])
            ∷ []),
      )
      ∷ [])

  or_rating_stock : J.Value
  or_rating_stock = J.object_value (
      (
        codes "$or",
        J.array_value (
            J.object_value (
              (codes "$gt", J.object_value ((codes "rating", double 0x4012cccccccccccd) ∷ [])) ∷ [])
            ∷ J.object_value ((codes "$gt", J.object_value ((codes "stock", int 150) ∷ [])) ∷ [])
            ∷ []),
      )
      ∷ [])

module _ ⦃R : RocksDb⦄ ⦃J : Json⦄ (env : Outside J) where
  unfoldable pub show_queries : Exec (Demo R) (Unit {0})
  unfolding order_by_price order_by_rating eq_category eq_available gt_price gt_rating lt_stock
      lt_price and_price_rating and_category_available or_categories or_rating_stock
  show_queries = do
    print (codes "\n===== OrderBy Queries =====\n")
    execute_query env (codes "products") order_by_price (codes "Order By Price (Ascending)")
    execute_query env (codes "products") order_by_rating (codes "Order By Rating (Descending)")
    print (codes "\n===== Equality Queries =====\n")
    execute_query env (codes "products") eq_category (codes "Equal Category: Electronics")
    execute_query env (codes "products") eq_available (codes "Equal Available: true")
    print (codes "\n===== Greater Than Queries =====\n")
    execute_query env (codes "products") gt_price (codes "Price > 50.0")
    execute_query env (codes "products") gt_rating (codes "Rating > 4.5")
    print (codes "\n===== Less Than Queries =====\n")
    execute_query env (codes "products") lt_stock (codes "Stock < 100")
    execute_query env (codes "products") lt_price (codes "Price < 500.0")
    print (codes "\n===== AND Queries =====\n")
    execute_query env (codes "products") and_price_rating (codes "100 < Price < 1000")
    execute_query env (codes "products") and_category_available
        (codes "Category = Electronics AND Available = true")
    print (codes "\n===== OR Queries =====\n")
    execute_query env (codes "products") or_categories (codes "Category = Books OR Category = Food")
    execute_query env (codes "products") or_rating_stock (codes "Rating > 4.7 OR Stock > 150")
