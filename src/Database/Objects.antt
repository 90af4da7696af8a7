-- ===== src/Database/Objects.antt =====
-- src/Database.cpp: the map of the collection objects after the calls that change it.
use anu_db.Base.{
  ◌≡◌, refl, ◌⊎◌, inl, inr, true, false, List, [], ◌∷◌, Bytes, ◌==◌, bytes_eq, contains, keep_if,
  Bool-cases, eq_sound,
}
use anu_db.Status
use anu_db.Status.{Status, is_ok}
use anu_db.Exec.{returns, crashes}
use anu_db.RocksDb.{RocksDb}
use anu_db.Engine.{Engine, collection_exists}
use anu_db.Engine
use anu_db.Engine.Opening.{close_engine-returns, open_engine-returns}
use anu_db.Engine.Families.{drop_collection-returns}
use anu_db.Engine.Dropping.{create_collection-ends}
use anu_db.Engine.Names.{get_index_names}
use anu_db.Collection.Indexes.{destroy, delete_indexes, delete_index}
use anu_db.Collection.{index_cf_name}
use anu_db.Database.{
  close_database, open_database, destroy_all, Database, create_collection, get_collection,
  erase_object, store_object, without, delete_each,
}

module _ ⦃R : RocksDb⦄ where
  pub contains-without_other :
      (name n : Bytes) (names : List Bytes)
      → (n == name) ≡ false
      → contains (without name names) n ≡ contains names n
  unfolding without keep_if
  contains-without_other name n [] other = refl
  contains-without_other name n (m ∷ names) other = elim (Bool-cases (m == name)) [
    | inl same ↦
        let m_is = eq_sound m name same in
        let differ : (n == m) ≡ false = rw m_is other in
        rw (same, differ) (contains-without_other name n names other)
    | inr differ ↦ rw (differ, contains-without_other name n names other)
  ]

  -- getCollection: an object that is there, a new one, or null.
  pub get_collection_cases :
      (name : Bytes) (d : Database R)
      → ((contains d.collections name ≡ true) × (get_collection name d ≡ (returns true, d)))
        ⊎ (get_collection name d ≡ (returns true, record d { collections = name ∷ d.collections }))
        ⊎ (get_collection name d ≡ (returns false, d))
  unfolding get_collection
  get_collection_cases name d = elim (Bool-cases (contains d.collections name)) [
    | inl held ↦ inl (held, rw held)
    | inr free ↦ elim (Bool-cases (collection_exists name d.engine)) [
      | inl there ↦ inr (inl (rw (free, there)))
      | inr absent ↦ inr (inr (rw (free, absent)))
    ]
  ]

  delete_indexes-returns :
      (name : Bytes) (indexes : List Bytes) (e : Engine R)
      → (delete_indexes name indexes e).0 ≡ returns tt
  unfolding delete_indexes delete_index
  delete_indexes-returns name [] e = refl
  delete_indexes-returns name (i ∷ is) e =
      let (t, dropped) = drop_collection-returns (index_cf_name name i) e in
      rw dropped
        (delete_indexes-returns name is (Engine.drop_collection (index_cf_name name i) e).1)

  -- The destructor of a collection returns.
  pub destroy-returns : (name : Bytes) (e : Engine R) → (destroy name e).0 ≡ returns tt
  unfolding destroy
  destroy-returns name e = delete_indexes-returns name (get_index_names name e) e

  pub delete_each-returns :
      (name : Bytes) (indexes : List Bytes) (e : Engine R)
      → (delete_each name indexes e).0 ≡ returns tt
  unfolding delete_each delete_index
  delete_each-returns name [] e = refl
  delete_each-returns name (i ∷ is) e =
      let (t, dropped) = drop_collection-returns (index_cf_name name i) e in
      rw dropped (delete_each-returns name is (Engine.drop_collection (index_cf_name name i) e).1)

  pub erase_object-returns :
      (name : Bytes) (d : Database R)
      → (e' : Engine R) × (erase_object name d
          ≡ (returns tt, record d { engine = e'; collections = without name d.collections }))
  unfolding erase_object
  erase_object-returns name d = elim (Bool-cases (contains d.collections name)) [
    | inl held ↦
        let gone = destroy-returns name d.engine in ((destroy name d.engine).1, rw (held, gone))
    | inr free ↦ (d.engine, rw free)
  ]

  -- createCollection returns an error and leaves the objects, or OK with a new one beside those of
  -- other names, or crashes.
  pub create_collection_cases :
      (name : Bytes) (d : Database R)
      → ((t : Status) × (d' : Database R) × (is_ok t ≡ false)
          × (d'.collections ≡ d.collections)
          × (create_collection name d ≡ (returns t, d')))
        ⊎ ((d' : Database R) × (d'.collections ≡ name ∷ without name d.collections)
            × (create_collection name d ≡ (returns Status.ok, d')))
        ⊎ ((create_collection name d).0 ≡ crashes)
  unfolding create_collection store_object
  create_collection_cases name d = elim (create_collection-ends name d.engine) [
    | inl (t, e1, q) ↦ elim (Bool-cases (is_ok t)) [
      | inl good ↦ elim (Bool-cases (contains d.collections name)) [
        | inl held ↦
            let gone = destroy-returns name e1 in
            inr (
              inl (
                record d {
                  engine = (destroy name e1).1;
                  collections = name ∷ without name d.collections;
                },
                refl,
                rw (q, good, held, gone),
              ))
        | inr free ↦ inr (
            inl (
              record d { engine = e1; collections = name ∷ without name d.collections },
              refl,
              rw (q, good, free),
            ))
      ]
      | inr bad ↦ inl (t, record d { engine = e1 }, bad, refl, rw (q, bad))
    ]
    | inr crashed ↦ inr (inr (rw crashed))
  ]

  destroy_all-returns : (names : List Bytes) (e : Engine R) → (destroy_all names e).0 ≡ returns tt
  unfolding destroy_all
  destroy_all-returns [] e = refl
  destroy_all-returns (n ∷ names) e =
      let gone = destroy-returns n e in rw gone (destroy_all-returns names (destroy n e).1)

  -- close() returns and leaves no objects.
  pub close_database-returns :
      (d : Database R)
      → (t : Status) × (e' : Engine R) × (close_database d
          ≡ (returns t, record { is_db_open = false; engine = e'; collections = [] }))
  unfolding close_database
  close_database-returns d =
      let gone = destroy_all-returns d.collections d.engine in
      let e1 = (destroy_all d.collections d.engine).1 in
      let (t, closed) = close_engine-returns e1 in
      (t, (Engine.close_engine e1).1, rw (gone, closed))

  -- open() returns and leaves the objects.
  pub open_database-returns :
      (d : Database R)
      → (t : Status) × ((Engine.open_engine d.engine).0 ≡ returns t)
        × (open_database d
            ≡ (returns t, record d { is_db_open = true; engine = (Engine.open_engine d.engine).1 }))
  unfolding open_database
  open_database-returns d = let (t, opened) = open_engine-returns d.engine in (t, opened, rw opened)
