-- ===== src/Collection/Documents.antt =====
-- src/Collection.cpp: createDocument, deleteDocument, readDocument, updateDocument and the entries that
-- they keep in the indexes.
pub mod Indexing
pub mod Storing
pub mod Rereading
pub mod Deleting
pub mod Edits
pub mod Holding
pub mod Replay
use anu_db.Base.{
  Bool, true, false, List, [], ◌∷◌, ◌++◌, Option, none, some, Bytes, codes, if◌then◌else◌,
}
use anu_db.Status
use anu_db.Status.{Status, is_ok, is_not_found}
use anu_db.Exec.{
  Exec, Result, returns, raises, crashes, stops, Try, gives, throws, ◌>>?◌, ◌>>=◌, ◌>>◌, pure,
  crash, lift, gets, from_result,
}
use anu_db.Json.{Json}
use anu_db.RocksDb.{RocksDb}
use anu_db.Engine.{Engine, put, put_index, remove, get}
use anu_db.Engine.Names.{get_index_names}
use anu_db.Document.{Document, has_field, set_value, to_msgpack, from_msgpack}
use anu_db.Document.Update.{apply_update}
use anu_db.Collection.{Chance, generate_id, index_cf_name, index_key}

-- A default-constructed document.
abbrev pub empty_document : ⦃J : Json⦄ → Document J
empty_document ⦃J⦄ = record { id = []; data_value = J.null_value }

module _ ⦃R : RocksDb⦄ ⦃J : Json⦄ (name : Bytes) where
  -- The value of an indexed field: the const operator[] needs the field to be there.
  pub insert_entry : Option J.Value → Bytes → Bytes → Exec (Engine R) Status
  insert_entry none index id = crash
  insert_entry (some x) index id = do
    key ← lift (index_key x id)
    put_index (index_cf_name name index) key id

  unfoldable pub insert_if_index_field_exists : Document J → Bytes → Exec (Engine R) Status
  unfolding insert_entry
  insert_if_index_field_exists doc index = insert_entry (J.find doc.data_value index) index doc.id

  pub delete_entry : Option J.Value → Bytes → Bytes → Exec (Engine R) Status
  delete_entry none index id = crash
  delete_entry (some x) index id = do
    key ← lift (index_key x id)
    remove (index_cf_name name index) key

  unfoldable pub delete_if_index_field_exists : Document J → Bytes → Exec (Engine R) Status
  unfolding delete_entry
  delete_if_index_field_exists doc index = delete_entry (J.find doc.data_value index) index doc.id

  -- for (index : indexes) if (hasIndexField(doc.data(), index)) ...; an error ends the loop.
  unfoldable pub for_indexes :
      (Document J → Bytes → Exec (Engine R) Status)
      → Document J
      → List Bytes
      → Exec (Engine R) Status
  unfolding has_field
  for_indexes op doc [] = pure Status.ok
  for_indexes op doc (index ∷ indexes) =
      let rest = for_indexes op doc indexes in
      let step = op doc index >>= λ status. if is_ok status then rest else pure status in
      if has_field index doc then step else rest

  -- The document with an identifier and with the field "_id".
  unfoldable pub identified : Chance → Document J → Try (Document J)
  identified chance doc =
      let named : Document J = elim (doc.id) [
        | [] ↦ record doc { id = generate_id chance }
        | c ∷ cs ↦ doc
      ] in
      if has_field (codes "_id") named
      then gives named
      else set_value (codes "_id") (J.string_value named.id) named

  -- `doc` is an input and an output: the document that is stored is returned with the status.
  unfoldable pub create_document : Chance → Document J → Exec (Engine R) (Status × Document J)
  unfolding identified for_indexes insert_if_index_field_exists
  create_document chance doc = do
    doc' ← lift (identified chance doc)
    indexes ← gets (get_index_names name)
    status ← for_indexes insert_if_index_field_exists doc' indexes
    status' ← if is_ok status then put name doc'.id (to_msgpack doc') else pure status
    pure (status', doc')

  -- An exception of the decoder becomes a Corruption, and `doc` stays as it was.
  decoded : Try (Document J) → Document J → Status × Document J
  decoded (gives d) doc = (Status.ok, d)
  decoded (throws m) doc = (Status.corruption (codes "Failed to deserialize document: " ++ m), doc)

  read_got : Status × Bytes → Document J → Status × Document J
  unfolding decoded
  read_got (status, bytes) doc =
      if is_ok status then decoded (from_msgpack bytes) doc else (status, doc)

  unfoldable pub read_document : Bytes → Document J → Engine R → Status × Document J
  unfolding read_got
  read_document id doc e = read_got (get name id e) doc

  -- The rest of deleteDocument, from the document read.
  delete_read : Bytes → Document J → Exec (Engine R) Status
  unfolding for_indexes delete_if_index_field_exists
  delete_read id doc = do
    indexes ← gets (get_index_names name)
    status ← for_indexes delete_if_index_field_exists doc indexes
    if is_ok status then remove name id else pure status

  unfoldable pub delete_document : Bytes → Exec (Engine R) Status
  unfolding read_document delete_read
  delete_document id = do
    (status, doc) ← gets (read_document id empty_document)
    if is_ok status then delete_read id doc else pure status

  -- applyUpdate on the local document; what it threw leaves updateDocument.
  abbrev pub updated : Result (Unit {0}) × J.Value → Document J → Result (Document J)
  updated (returns u, v) doc = returns (record doc { data_value = v })
  updated (raises m, v) doc = raises m
  updated (crashes, v) doc = crashes
  updated (stops, v) doc = stops

  store_updated : Chance → J.Value → Document J → Exec (Engine R) Status
  unfolding create_document
  store_updated chance update doc = do
    doc' ← from_result (updated (apply_update update doc.data_value) doc)
    (status, stored) ← create_document chance doc'
    pure status

  -- A document that was not found is made with its identifier alone.
  upserted : Chance → Bytes → J.Value → Exec (Engine R) Status
  unfolding store_updated
  upserted chance id update = do
    doc ← lift (
        set_value (codes "_id") (J.string_value id)
          (record { id = id; data_value = J.object_value [] }))
    store_updated chance update doc

  -- The mutex makes one call of it one step. The last argument is `upsert`.
  unfoldable pub update_document : Chance → Bytes → J.Value → Bool → Exec (Engine R) Status
  unfolding store_updated read_document upserted
  update_document chance id update upsert = do
    (status, doc) ← gets (read_document id empty_document)
    if is_not_found status
        then (if upsert then upserted chance id update else pure status)
        else (if is_ok status then store_updated chance update doc else pure status)
