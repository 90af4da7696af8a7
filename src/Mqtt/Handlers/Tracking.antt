-- ===== src/Mqtt/Handlers/Tracking.antt =====
-- mqtt/AnuDBMqttClient.cpp: the pointers of collMap_ through the handlers of the commands on documents.
use anu_db.Base.{ℕ, zero, suc, ◌^◌, ◌-◌, List, [], ◌∷◌, Bytes, codes, if◌then◌else◌}
use anu_db.Status.{is_ok}
use anu_db.Exec.{◌>>◌, pure}
use anu_db.Json.{Json}
use anu_db.RocksDb.{RocksDb}
use anu_db.Cursor.{Cursor, current, next}
use anu_db.Document.{is_found}
use anu_db.Collection.Documents.{empty_document}
use anu_db.Mqtt.Session.{Surroundings, answer, set_resp}
use anu_db.Mqtt.Session.Pointers.{
  Keeps, bind-Keeps, then-Keeps, if-Keeps, pure-Keeps, lift-Keeps, from_result-Keeps, answer-Keeps,
  say-Keeps, send-Keeps, on_collection-Keeps, text_at-Keeps, handler-Keeps,
}
use anu_db.Mqtt.Handlers.{
  created, create_in, handle_create_document, deleted, delete_in, handle_delete_document, read_one,
  send_text, send_rounds, read_limit, read_all, handle_read_document, send_found, find_in,
  handle_find_documents,
}

module _ ⦃R : RocksDb⦄ ⦃J : Json⦄ (env : Surroundings J) where
  -- The three answers of a success.
  answers-Keeps : (a b c x y z : Bytes) → Keeps (answer ⦃R = R⦄ a x >> (answer b y >> answer c z))
  answers-Keeps a b c x y z =
      then-Keeps (answer a x) (answer b y >> answer c z) (answer-Keeps a x)
        (then-Keeps (answer b y) (answer c z) (answer-Keeps b y) (answer-Keeps c z))

  create_in-Keeps : (name : Bytes) (req : J.Value) → Keeps (create_in env name req)
  unfolding create_in created
  create_in-Keeps name req =
      bind-Keeps _ _
        (if-Keeps (is_found (J.find req (codes "document_id"))) _ _
          (text_at-Keeps req (codes "document_id")) (pure-Keeps {A = Bytes} []))
        (λ id. bind-Keeps _ _ (lift-Keeps _) (λ content.
          bind-Keeps _ _ (on_collection-Keeps name _) (λ (status, doc).
            if-Keeps (is_ok status) _ _ (answers-Keeps _ _ _ _ _ _) (say-Keeps _ _))))

  pub handle_create_document-Keeps : (req : J.Value) → Keeps (handle_create_document env req)
  unfolding handle_create_document
  handle_create_document-Keeps req =
      handler-Keeps req (λ name. create_in env name req) (λ name. create_in-Keeps name req)

  delete_in-Keeps : (name : Bytes) (req : J.Value) → Keeps (delete_in env name req)
  unfolding delete_in deleted
  delete_in-Keeps name req = bind-Keeps _ _ (text_at-Keeps req (codes "document_id")) (λ id.
      bind-Keeps _ _ (on_collection-Keeps name _)
        (λ status. if-Keeps (is_ok status) _ _ (answers-Keeps _ _ _ _ _ _) (say-Keeps _ _)))

  pub handle_delete_document-Keeps : (req : J.Value) → Keeps (handle_delete_document env req)
  unfolding handle_delete_document
  handle_delete_document-Keeps req =
      let named = is_found (J.find req (codes "document_id")) in
      handler-Keeps req (λ name. if named then delete_in env name req else pure tt)
        (λ name. if-Keeps named _ _ (delete_in-Keeps name req) (pure-Keeps tt))

  set_resp-Keeps : (v : J.Value) → Keeps (set_resp ⦃R = R⦄ v)
  set_resp-Keeps v s t = t

  read_one-Keeps : (name : Bytes) (req : J.Value) → Keeps (read_one env name req)
  unfolding read_one
  read_one-Keeps name req = bind-Keeps _ _ (text_at-Keeps req (codes "document_id")) (λ id.
      bind-Keeps _ _ (on_collection-Keeps name _) (λ (status, doc).
        if-Keeps (is_ok status) _ _ (set_resp-Keeps doc.data_value) (say-Keeps _ _)))

  send_text-Keeps : (topic : Bytes) (v : J.Value) → Keeps (send_text ⦃R = R⦄ env topic v)
  send_text-Keeps topic v = bind-Keeps _ _ (lift-Keeps (J.dump v)) (λ text. send-Keeps topic text)

  send_rounds-Keeps :
      (topic : Bytes) (left : ℕ) (cursor : Cursor R) → Keeps (send_rounds env topic left cursor)
  unfolding send_rounds
  send_rounds-Keeps topic zero cursor = pure-Keeps tt
  send_rounds-Keeps topic (suc left) cursor =
      let rest = send_rounds-Keeps topic left (next cursor) in
      if-Keeps cursor.is_valid _ _
        (bind-Keeps _ _ (from_result-Keeps (current cursor empty_document)) (λ (status, doc).
          if-Keeps (is_ok status) _ _
            (then-Keeps (send_text env topic doc.data_value) _
              (send_text-Keeps topic doc.data_value) rest)
            rest))
        (pure-Keeps tt)

  read_all-Keeps : (topic name : Bytes) (req : J.Value) → Keeps (read_all env topic name req)
  unfolding read_all read_limit
  read_all-Keeps topic name req =
      bind-Keeps _ _
        (if-Keeps (is_found (J.find req (codes "limit"))) _ _ (lift-Keeps _)
          (pure-Keeps (2 ^ 32 - 1)))
        (λ limit.
          bind-Keeps _ _ (on_collection-Keeps name _)
            (λ cursor. send_rounds-Keeps topic limit cursor))

  pub handle_read_document-Keeps :
      (topic : Bytes) (req : J.Value) → Keeps (handle_read_document env topic req)
  unfolding handle_read_document
  handle_read_document-Keeps topic req =
      let named = is_found (J.find req (codes "document_id")) in
      handler-Keeps req
        (λ name. if named then read_one env name req else read_all env topic name req)
        (λ name. if-Keeps named _ _ (read_one-Keeps name req) (read_all-Keeps topic name req))

  send_found-Keeps : (topic name : Bytes) (ids : List Bytes) → Keeps (send_found env topic name ids)
  unfolding send_found
  send_found-Keeps topic name [] = pure-Keeps tt
  send_found-Keeps topic name (id ∷ ids) =
      bind-Keeps _ _ (on_collection-Keeps name _) (λ (status, doc).
        then-Keeps _ _
          (if-Keeps (is_ok status) _ _ (send_text-Keeps topic doc.data_value) (pure-Keeps tt))
          (send_found-Keeps topic name ids))

  find_in-Keeps : (topic name : Bytes) (req : J.Value) → Keeps (find_in env topic name req)
  unfolding find_in
  find_in-Keeps topic name req = bind-Keeps _ _ (text_at-Keeps req (codes "request_id")) (λ id.
      bind-Keeps _ _ (lift-Keeps _) (λ query.
        bind-Keeps _ _ (on_collection-Keeps name _) (λ ids. send_found-Keeps topic name ids)))

  pub handle_find_documents-Keeps :
      (topic : Bytes) (req : J.Value) → Keeps (handle_find_documents env topic req)
  unfolding handle_find_documents
  handle_find_documents-Keeps topic req =
      handler-Keeps req (λ name. find_in env topic name req) (λ name. find_in-Keeps topic name req)
