-- ===== src/Collection/Import.antt =====
-- src/Collection.cpp: importFromJsonFile. What the file holds is an argument; `none` is a file that
-- cannot be opened.
pub mod Contents
use anu_db.Base.{
  ℕ, zero, suc, ◌+◌, ◌/◌, ◌%◌, List, [], ◌∷◌, ◌++◌, Option, none, some, Bytes, codes, if◌then◌else◌,
  ltb,
}
use anu_db.Status
use anu_db.Status.{Status, is_ok}
use anu_db.Exec.{Exec, ◌>>=◌, pure, lift, try_catch}
use anu_db.Json.{Json, Kind}
use anu_db.RocksDb.{RocksDb}
use anu_db.Engine.{Engine}
use anu_db.Collection.{Chance}
use anu_db.Collection.Documents.{create_document}

-- std::to_string of a count, with a digit for each unit of fuel at most; an `int` has ten.
digits_of : ℕ → ℕ → Bytes
digits_of zero n = []
digits_of (suc fuel) n =
    let more = digits_of fuel (n / 10) ++ (b'0' + n % 10) ∷ [] in
    if ltb n 10 then (b'0' + n) ∷ [] else more

unfoldable pub to_string : ℕ → Bytes
unfolding digits_of
to_string n = digits_of 10 n

-- successCount and failureCount.
pub record Counts : Type 0 where
  pub successes : ℕ
  pub failures : ℕ

abbrev failure : Counts → Counts
failure c = record c { failures = c.failures + 1 }

abbrev counted : Status → Counts → Counts
counted status c = if is_ok status then record c { successes = c.successes + 1 } else failure c

module _ ⦃R : RocksDb⦄ ⦃J : Json⦄ (name : Bytes) where
  -- The identifier of an item: its "_id", which must be a string, or one made of the counts.
  item_id : Option J.Value → Counts → Exec (Engine R) Bytes
  unfolding to_string
  item_id (some x) counts = lift (J.get_string x)
  item_id none counts = pure (codes "doc_" ++ to_string (counts.successes + counts.failures))

  -- Each call takes the time and the draws of rand() that it meets.
  import_object : (ℕ → Chance) → Counts → J.Value → Exec (Engine R) Counts
  unfolding create_document item_id
  import_object chance counts item = do
    id ← item_id (J.find item (codes "_id")) counts
    (status, doc) ←
        create_document name (chance (counts.successes + counts.failures))
          (record { id = id; data_value = item })
    pure (counted status counts)

  -- An item that is no object is skipped as a failure.
  import_item : (ℕ → Chance) → Counts → J.Value → Exec (Engine R) Counts
  unfolding import_object
  import_item chance counts item = elim (J.kind item) [
    | Kind.object ↦ import_object chance counts item
    | _ ↦ pure (failure counts)
  ]

  unfoldable pub import_items : (ℕ → Chance) → List J.Value → Counts → Exec (Engine R) Counts
  unfolding import_item
  import_items chance [] counts = pure counts
  import_items chance (item ∷ items) counts =
      import_item chance counts item >>= λ counts'. import_items chance items counts'

  import_json : (ℕ → Chance) → Bytes → J.Value → Exec (Engine R) Status
  unfolding import_items
  import_json chance path json = elim (J.kind json) [
    | Kind.array ↦
        import_items chance (J.elements json) (record { successes = 0; failures = 0 }) >>= λ counts.
        pure Status.ok
    | _ ↦ pure (Status.not_supported (codes "File must contain a JSON array of objects: " ++ path))
  ]

  unfoldable pub import_from_json_file :
      (ℕ → Chance) → Bytes → Option Bytes → Exec (Engine R) Status
  unfolding import_json
  import_from_json_file chance path none =
      pure (Status.io_error (codes "Could not open file: " ++ path))
  import_from_json_file chance path (some text) =
      try_catch (do json ← lift (J.parse text); import_json chance path json)
        (λ m. pure (Status.internal_error (codes "JSON import error: " ++ m)))
