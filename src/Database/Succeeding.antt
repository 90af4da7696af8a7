-- ===== src/Database/Succeeding.antt =====
-- src/Database.cpp: dropCollection where RocksDB drops every column family that it is asked to drop.
use anu_db.Base.{
  ◌+◌, ◌≡◌, ◌∙◌, refl, ap, ◌⊎◌, inl, inr, true, false, some, List, [], ◌∷◌, ◌++◌, Bytes, ◌==◌,
  bytes_eq, lookup, length, length-append, Bool-cases, Option-cases, eq_sound, arith,
}
use anu_db.Status
use anu_db.Status.{Status, is_ok}
use anu_db.Exec.{returns, crashes}
use anu_db.RocksDb.{RocksDb}
use anu_db.Engine
use anu_db.Engine.{Engine, collection_exists, index_delimiter}
use anu_db.Engine.Dropping.{Drops, lookup-drop_collection, drop_collection-fine}
use anu_db.Engine.Families.{drop_collection-returns}
use anu_db.Engine.Names.{get_index_names}
use anu_db.Collection.{index_cf_name}
use anu_db.Collection.Indexes.{delete_index, get_index}
use anu_db.Database.{Database, drop_collection, get_collection, delete_each, without}
use anu_db.Database.Dropping.{contains-without}
use anu_db.Database.Objects.{erase_object-returns, delete_each-returns}

-- The family of an index is not the collection's own.
index_differs : (name index : Bytes) → (name == index_cf_name name index) ≡ false
unfolding index_cf_name
index_differs name index = elim (Bool-cases (name == index_cf_name name index)) [
  | inl same ↦
      let e = eq_sound name (index_cf_name name index) same in
      let l : length name ≡ length name + length (index_delimiter ++ index) =
        ap length e ∙ length-append name (index_delimiter ++ index) in
      absurd (omega arith)
  | inr other ↦ other
]

module _ ⦃R : RocksDb⦄ where
  lookup-delete_each :
      (name : Bytes) (indexes : List Bytes) (e : Engine R)
      → lookup name (delete_each name indexes e).1.column_families ≡ lookup name e.column_families
  unfolding delete_each delete_index
  lookup-delete_each name [] e = refl
  lookup-delete_each name (i ∷ is) e =
      let (t, dropped) = drop_collection-returns (index_cf_name name i) e in
      rw dropped (
        lookup-delete_each name is (Engine.drop_collection (index_cf_name name i) e).1
        ∙ lookup-drop_collection name (index_cf_name name i) e (index_differs name i))

  exists_cases :
      (name : Bytes) (e : Engine R)
      → ((h : R.Handle) × (lookup name e.column_families ≡ some h)
          × (collection_exists name e ≡ true))
        ⊎ (collection_exists name e ≡ false)
  unfolding collection_exists
  exists_cases name e = elim (Option-cases (lookup name e.column_families)) [
    | inl absent ↦ inr (ground arith)
    | inr (h, there) ↦ inl (h, there, ground arith)
  ]

  -- Then dropCollection succeeds, with a new object under its name beside the others, or crashes.
  pub drop_collection-succeeds :
      (name : Bytes) (d : Database R)
      → Drops
      → ((e' : Engine R) × (drop_collection name d ≡ (
        returns Status.ok,
        record d { engine = e'; collections = name ∷ without name d.collections },
      )))
        ⊎ ((drop_collection name d).0 ≡ crashes)
  unfolding drop_collection get_collection get_index
  drop_collection-succeeds name d drops =
      let (e1, erased) = erase_object-returns name d in
      let free = contains-without name d.collections in
      elim (exists_cases name e1) [
        | inl (h, there, held) ↦
            let names = get_index_names name e1 in
            let e2 = (delete_each name names e1).1 in
            let deleted = delete_each-returns name names e1 in
            let dropped =
              drop_collection-fine name h e2 drops (lookup-delete_each name names e1 ∙ there) in
            inl ((Engine.drop_collection name e2).1, rw (erased, free, held, deleted, dropped))
        | inr gone ↦ inr (rw (erased, free, gone))
      ]
