-- ===== src/Database/Reading.antt =====
-- src/Database.cpp: reading the documents of a collection through the database.
use anu_db.Base.{
  ◌≡◌, refl, ◌||◌, List, ◌++◌, Bytes, bytes_eq, contains, if◌then◌else◌, Bool-cases, inl, inr,
}
use anu_db.Exec.{returns}
use anu_db.Json.{Json}
use anu_db.RocksDb.{RocksDb}
use anu_db.RocksDb.Contract.{IsLawful}
use anu_db.Engine.{collection_exists}
use anu_db.Engine.Tables.{IsConsistent, table_of, entries_of}
use anu_db.Document.{Document}
use anu_db.Collection.Indexes.Reading.{first_documents, read_status, read_all_documents_lem}
use anu_db.Database.{Database, read_all, absent}

module _ ⦃R : RocksDb⦄ ⦃J : Json⦄ (L : IsLawful R) where
  -- Over a consistent engine, readAllDocuments of a collection that has an object or a family
  -- appends the documents of the first ten entries of its table, in key order, and returns OK; it
  -- stops at an entry that does not decode, with Corruption. Of any other collection it returns
  -- NotFound and appends nothing. The engine stays as it is.
  pub read_all_lem :
      (name : Bytes) (docs : List (Document J)) (d : Database R)
      → IsConsistent L d.engine
      → let read = first_documents 10 (entries_of (table_of L name d.engine)) in
        ((read_all name docs d).0 ≡ (
          if contains d.collections name || collection_exists name d.engine
          then returns (read_status read.0, docs ++ read.1)
          else returns (absent name, docs)))
        × ((read_all name docs d).1.engine ≡ d.engine)
  unfolding read_all
  read_all_lem name docs d c =
      let read_is = read_all_documents_lem L name 10 d.engine docs c in
      elim (Bool-cases (contains d.collections name)) [
        | inl held ↦ rw (held, read_is) (refl, refl)
        | inr free ↦ elim (Bool-cases (collection_exists name d.engine)) [
          | inl there ↦ rw (free, there, read_is) (refl, refl)
          | inr gone ↦ rw (free, gone) (refl, refl)
        ]
      ]
