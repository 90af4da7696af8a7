-- ===== src/Database/Dropping.antt =====
-- src/Database.cpp: dropCollection of a collection that does not exist.
use anu_db.Base.{
  ◌≡◌, refl, false, List, [], ◌∷◌, Bytes, ◌==◌, bytes_eq, contains, keep_if, arith, Bool-cases, inl,
  inr,
}
use anu_db.Exec.{crashes}
use anu_db.RocksDb.{RocksDb}
use anu_db.Engine.{collection_exists}
use anu_db.Database.{Database, drop_collection, get_collection, erase_object, without}

module _ ⦃R : RocksDb⦄ where
  pub contains-without :
      (name : Bytes) (names : List Bytes) → contains (without name names) name ≡ false
  unfolding without keep_if
  contains-without name [] = refl
  contains-without name (n ∷ names) = elim (Bool-cases (n == name)) [
    | inl same ↦ rw same (contains-without name names)
    | inr other ↦ rw other (ground (arith, contains-without name names))
  ]

  -- Without an object and a family of its name, dropCollection dereferences the null pointer of
  -- getCollection.
  pub drop_collection_crashes :
      (name : Bytes) (d : Database R)
      → contains d.collections name ≡ false
      → collection_exists name d.engine ≡ false
      → (drop_collection name d).0 ≡ crashes
  unfolding drop_collection erase_object get_collection
  drop_collection_crashes name d free absent =
      rw (free, contains-without name d.collections, absent)
