-- ===== src/Demo/Products.antt =====
-- src/main.cpp: the four products. Doubles are given by their patterns.
use anu_db.Base.{ℕ, Bool, true, false, [], ◌∷◌, List, String, codes}
use anu_db.Json.{Json}
use anu_db.Document.{Document}

module _ ⦃J : Json⦄ where
  abbrev pub text : String → J.Value
  text t = J.string_value (codes t)

  abbrev pub int : ℕ → J.Value
  int n = J.integer_value n

  abbrev pub double : ℕ → J.Value
  double pattern_bits = J.double_value pattern_bits

  abbrev pub bool : Bool → J.Value
  bool b = J.bool_value b

  product_1 : J.Value
  product_1 = J.object_value (
      (codes "name", text "Laptop")
      ∷ (codes "price", double 0x40944ff5c28f5c29)
      ∷ (codes "stock", int 45)
      ∷ (codes "category", text "Electronics")
      ∷ (codes "rating", double 0x4012cccccccccccd)
      ∷ (codes "brand", text "TechMaster")
      ∷ (
        codes "specs",
        J.object_value (
            (codes "processor", text "i9")
            ∷ (codes "ram", text "32GB")
            ∷ (codes "storage", text "1TB SSD")
            ∷ []),
      )
      ∷ (codes "tags", J.array_value (text "laptop" ∷ text "gaming" ∷ text "high-performance" ∷ []))
      ∷ (
        codes "dimensions",
        J.object_value (
            (codes "length", double 0x4041e66666666666)
            ∷ (codes "width", double 0x4038b33333333333)
            ∷ (codes "height", double 0x3ffe666666666666)
            ∷ []),
      )
      ∷ (codes "available", bool true)
      ∷ [])

  product_2 : J.Value
  product_2 = J.object_value (
      (codes "name", text "Smartphone")
      ∷ (codes "price", double 0x4088ffeb851eb852)
      ∷ (codes "stock", int 160)
      ∷ (codes "category", text "Electronics")
      ∷ (codes "rating", double 0x4012000000000000)
      ∷ (codes "brand", text "MobiTech")
      ∷ (codes "colors", J.array_value (text "Black" ∷ text "Silver" ∷ text "Blue" ∷ []))
      ∷ (
        codes "features",
        J.object_value (
            (codes "camera", text "48MP")
            ∷ (codes "display", text "AMOLED")
            ∷ (codes "battery", text "5000mAh")
            ∷ []),
      )
      ∷ (
        codes "reviews",
        J.array_value (
            J.object_value (
              (codes "user", text "user123")
              ∷ (codes "rating", int 5)
              ∷ (codes "comment", text "Great phone!")
              ∷ [])
            ∷ J.object_value (
                (codes "user", text "tech_reviewer")
                ∷ (codes "rating", int 4)
                ∷ (codes "comment", text "Good performance but battery drains quickly")
                ∷ [])
            ∷ []),
      )
      ∷ (codes "available", bool true)
      ∷ [])

  product_3 : J.Value
  product_3 = J.object_value (
      (codes "name", text "Programming in C++")
      ∷ (codes "price", double 0x4048feb851eb851f)
      ∷ (codes "stock", int 75)
      ∷ (codes "category", text "Books")
      ∷ (codes "rating", double 0x4010cccccccccccd)
      ∷ (codes "author", text "John Smith")
      ∷ (codes "publisher", text "Tech Books Inc")
      ∷ (codes "pages", int 450)
      ∷ (codes "isbn", text "978-3-16-148410-0")
      ∷ (codes "published_date", text "2023-03-15")
      ∷ (codes "available", bool true)
      ∷ [])

  product_4 : J.Value
  product_4 = J.object_value (
      (codes "name", text "Organic Coffee")
      ∷ (codes "price", double 0x402ffae147ae147b)
      ∷ (codes "stock", int 200)
      ∷ (codes "category", text "Food")
      ∷ (codes "rating", double 0x4013333333333333)
      ∷ (codes "brand", text "BeanMaster")
      ∷ (codes "weight", text "500g")
      ∷ (codes "origin", text "Colombia")
      ∷ (codes "expiry_date", text "2025-06-30")
      ∷ (
        codes "nutritional_info",
        J.object_value (
            (codes "calories", int 0)
            ∷ (codes "fat", text "0g")
            ∷ (codes "caffeine", text "95mg per serving")
            ∷ []),
      )
      ∷ (codes "available", bool false)
      ∷ [])

  unfoldable pub documents : List (Document J)
  unfolding product_1 product_2 product_3 product_4
  documents =
      record { id = codes "prod001"; data_value = product_1 }
      ∷ record { id = codes "prod002"; data_value = product_2 }
      ∷ record { id = codes "prod003"; data_value = product_3 }
      ∷ record { id = codes "prod004"; data_value = product_4 }
      ∷ []
