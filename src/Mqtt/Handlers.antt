-- ===== src/Mqtt/Handlers.antt =====
-- mqtt/AnuDBMqttClient.cpp: the handlers of the commands on documents.
pub mod Collections
pub mod Storing
pub mod Removing
pub mod Tracking
use anu_db.Base.{
  ℕ, zero, suc, ◌^◌, ◌-◌, Bool, true, false, List, [], ◌∷◌, ◌++◌, Option, none, some, Bytes, codes,
  if◌then◌else◌,
}
use anu_db.Status.{Status, is_ok}
use anu_db.Exec.{Exec, Result, returns, ◌>>=◌, ◌>>◌, ◌>>?◌, pure, gets, lift, from_result}
use anu_db.Json.{Json}
use anu_db.RocksDb.{RocksDb}
use anu_db.Cursor.{Cursor, create_cursor, current, next}
use anu_db.Document.{Document, is_found}
use anu_db.Collection.Documents.{create_document, delete_document, read_document, empty_document}
use anu_db.Collection.Find.{find_document}
use anu_db.Mqtt.Session.{
  Session, Surroundings, on_collection, find_collection, guarded, say, answer, text_at, send,
  set_resp,
}

module _ ⦃R : RocksDb⦄ ⦃J : Json⦄ (env : Surroundings J) where
  -- The status of createDocument and the document as it was stored.
  created : Bytes → Status × Document J → Exec (Session R J) (Unit {0})
  created name (status, doc) =
      let stored = do
        answer (codes "status") (codes "success")
        answer (codes "docId") doc.id
        answer (codes "message") (codes "Document added in collection " ++ name)
      in if is_ok status
        then stored
        else say (codes "error while adding document in collection " ++ name) status.msg

  create_in : Bytes → J.Value → Exec (Session R J) (Unit {0})
  unfolding created
  create_in name req = do
    id ←
        if is_found (J.find req (codes "document_id"))
        then text_at req (codes "document_id")
        else pure []
    content ← lift (J.at_key req (codes "content"))
    result ←
        on_collection name
          (create_document name env.chance (record { id = id; data_value = content }))
    created name result

  unfoldable pub handle_create_document : J.Value → Exec (Session R J) (Unit {0})
  unfolding create_in
  handle_create_document req = guarded (do
    name ← text_at req (codes "collection_name")
    found ← find_collection name
    if found then create_in name req else pure tt)

  deleted : Bytes → Bytes → Status → Exec (Session R J) (Unit {0})
  deleted name id status =
      let gone = do
        answer (codes "status") (codes "success")
        answer (codes "docId") id
        answer (codes "message") (codes "Document deleted from collection " ++ name)
      in if is_ok status
        then gone
        else say (codes "error while deleting document in collection " ++ name) status.msg

  delete_in : Bytes → J.Value → Exec (Session R J) (Unit {0})
  unfolding deleted
  delete_in name req = do
    id ← text_at req (codes "document_id")
    status ← on_collection name (delete_document ⦃J = J⦄ name id)
    deleted name id status

  unfoldable pub handle_delete_document : J.Value → Exec (Session R J) (Unit {0})
  unfolding delete_in
  handle_delete_document req = guarded (do
    name ← text_at req (codes "collection_name")
    found ← find_collection name
    let named = is_found (J.find req (codes "document_id"))
    if found then (if named then delete_in name req else pure tt) else pure tt)

  -- The response becomes the document's value.
  read_one : Bytes → J.Value → Exec (Session R J) (Unit {0})
  read_one name req = do
    id ← text_at req (codes "document_id")
    (status, doc) ← on_collection name (gets (read_document name id empty_document))
    if is_ok status
        then set_resp doc.data_value
        else say (codes "failed to read document") status.msg

  -- send_response(doc.data().dump(), work, response_topic)
  abbrev send_text : Bytes → J.Value → Exec (Session R J) (Unit {0})
  send_text topic v = lift (J.dump v) >>= λ text. send topic text

  -- The loop over the cursor with `limit - cnt` rounds left.
  send_rounds : Bytes → ℕ → Cursor R → Exec (Session R J) (Unit {0})
  send_rounds topic zero cursor = pure tt
  send_rounds topic (suc left) cursor =
      let rest = send_rounds topic left (next cursor) in
      let round = do
        (status, doc) ← from_result (current cursor empty_document)
        if is_ok status then send_text topic doc.data_value >> rest else rest
      in if cursor.is_valid then round else pure tt

  -- UINT32_MAX documents are read if the request has no limit.
  read_limit : J.Value → Exec (Session R J) ℕ
  read_limit req =
      if is_found (J.find req (codes "limit"))
      then lift (J.at_key req (codes "limit") >>? λ v. J.get_uint32 v)
      else pure (2 ^ 32 - 1)

  read_all : Bytes → Bytes → J.Value → Exec (Session R J) (Unit {0})
  unfolding send_rounds read_limit
  read_all topic name req = do
    limit ← read_limit req
    cursor ← on_collection name (gets (create_cursor name))
    send_rounds topic limit cursor

  unfoldable pub handle_read_document : Bytes → J.Value → Exec (Session R J) (Unit {0})
  unfolding read_one read_all
  handle_read_document topic req = guarded (do
    name ← text_at req (codes "collection_name")
    found ← find_collection name
    let named = is_found (J.find req (codes "document_id"))
    if found then (if named then read_one name req else read_all topic name req) else pure tt)

  -- A document that cannot be read is only reported on the console.
  send_found : Bytes → Bytes → List Bytes → Exec (Session R J) (Unit {0})
  send_found topic name [] = pure tt
  send_found topic name (id ∷ ids) =
      on_collection name (gets (read_document name id empty_document)) >>= λ (status, doc).
      (if is_ok status then send_text topic doc.data_value else pure tt)
      >> send_found topic name ids

  find_in : Bytes → Bytes → J.Value → Exec (Session R J) (Unit {0})
  unfolding send_found
  find_in topic name req = do
    request_id ← text_at req (codes "request_id")
    query ← lift (J.at_key req (codes "query"))
    ids ← on_collection name (find_document name env.fuel query)
    send_found topic name ids

  unfoldable pub handle_find_documents : Bytes → J.Value → Exec (Session R J) (Unit {0})
  unfolding find_in
  handle_find_documents topic req = guarded (do
    name ← text_at req (codes "collection_name")
    found ← find_collection name
    if found then find_in topic name req else pure tt)
