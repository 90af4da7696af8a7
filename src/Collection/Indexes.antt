-- ===== src/Collection/Indexes.antt =====
-- src/Collection.cpp: createIndex, deleteIndex, getIndex, readAllDocuments and the destructor. The loop
-- of createIndex takes fuel: one more than the documents of the collection is enough.
pub mod Building
pub mod Complete
pub mod Ending
pub mod Sourced
pub mod Reading
use anu_db.Base.{ℕ, zero, suc, List, [], ◌∷◌, ◌++◌, Bytes, codes, if◌then◌else◌}
use anu_db.Status
use anu_db.Status.{Status, is_ok}
use anu_db.Exec.{Exec, returns, stops, ◌>>=◌, ◌>>◌, pure, gets, from_result, try_catch}
use anu_db.Json.{Json}
use anu_db.RocksDb.{RocksDb}
use anu_db.Engine.{Engine, create_collection, drop_collection}
use anu_db.Engine.Names.{get_index_names}
use anu_db.Cursor.{Cursor, create_cursor, current, next}
use anu_db.Document.{Document, has_field}
use anu_db.Collection.{index_cf_name}
use anu_db.Collection.Documents.{empty_document, insert_if_index_field_exists}

-- docIds.push_back(doc)
abbrev push : {A : Type 0} → A → Exec (List A) (Unit {0})
push a as_ = (returns tt, as_ ++ a ∷ [])

abbrev undecoded : Bytes → Status
undecoded m = Status.corruption (codes "Failed to deserialize document: " ++ m)

module _ ⦃R : RocksDb⦄ ⦃J : Json⦄ (name : Bytes) where
  -- One round of the loop of createIndex, with the rest of the loop.
  index_one : Bytes → Status × Document J → Exec (Engine R) Status → Exec (Engine R) Status
  unfolding has_field
  index_one index (status, doc) rest =
      let inserted = insert_if_index_field_exists name doc index >>= λ status'.
      if is_ok status' then rest else pure status' in
      if is_ok status then (if has_field index doc then inserted else rest) else pure status

  pub index_all : ℕ → Bytes → Cursor R → Exec (Engine R) Status
  unfolding index_one
  index_all zero index cursor = from_result stops
  index_all (suc fuel) index cursor =
      let rest = index_all fuel index (next cursor) in
      let round =
        from_result (current cursor empty_document) >>= λ read. index_one index read rest in
      if cursor.is_valid then round else pure Status.ok

  -- The status of creating the family is not looked at.
  unfoldable pub create_index : ℕ → Bytes → Exec (Engine R) Status
  unfolding index_all
  create_index fuel index = do
    ignored ← create_collection (index_cf_name name index)
    try_catch (do cursor ← gets (create_cursor name); index_all fuel index cursor)
        (λ m. pure (undecoded m))

  -- The loop of readAllDocuments with `limit - cnt` rounds left; its state is the output vector.
  read_rounds : ℕ → Cursor R → Exec (List (Document J)) Status
  read_rounds zero cursor = pure Status.ok
  read_rounds (suc left) cursor =
      let rest = read_rounds left (next cursor) in
      let round = do
        (status, doc) ← from_result (current cursor empty_document)
        if is_ok status then push doc >> rest else rest
      in if cursor.is_valid then round else pure Status.ok

  unfoldable pub read_all_documents : ℕ → Engine R → Exec (List (Document J)) Status
  unfolding read_rounds
  read_all_documents limit e =
      try_catch (read_rounds limit (create_cursor name e)) (λ m. pure (undecoded m))

module _ ⦃R : RocksDb⦄ (name : Bytes) where
  unfoldable pub delete_index : Bytes → Exec (Engine R) Status
  delete_index index = drop_collection (index_cf_name name index)

  -- getIndex() appends the names and returns OK.
  unfoldable pub get_index : List Bytes → Engine R → Status × List Bytes
  get_index list e = (Status.ok, list ++ get_index_names name e)

  unfoldable pub delete_indexes : List Bytes → Exec (Engine R) (Unit {0})
  unfolding delete_index
  delete_indexes [] = pure tt
  delete_indexes (index ∷ indexes) = delete_index index >>= λ ignored. delete_indexes indexes

  -- ~Collection() drops every index of the collection, then waits for an export.
  unfoldable pub destroy : Exec (Engine R) (Unit {0})
  unfolding delete_indexes
  destroy = do indexes ← gets (get_index_names name); delete_indexes indexes
