-- ===== src/Mqtt/Requests/Tracking.antt =====
-- mqtt/AnuDBMqttClient.cpp: the pointers of collMap_ through handle_request.
use anu_db.Base.{◌++◌, Bytes, codes, ◌==◌, bytes_eq}
use anu_db.Exec.{Exec, Try, gives, throws, ◌>>=◌, ◌>>◌, pure, gets, lift}
use anu_db.Json.{Json}
use anu_db.RocksDb.{RocksDb}
use anu_db.Engine.Dropping.{Drops}
use anu_db.Mqtt.Session.{Session, Surroundings, set_resp, answer}
use anu_db.Mqtt.Session.Pointers.{
  Tracks, Left, Keeps, bind-Keeps, lift-Keeps, then-Keeps, if-Keeps, answer-Keeps, say-Keeps,
  try_catch-Keeps,
}
use anu_db.Mqtt.Handlers.Tracking.{
  handle_create_document-Keeps, handle_delete_document-Keeps, handle_read_document-Keeps,
  handle_find_documents-Keeps,
}
use anu_db.Mqtt.Handlers.Collections.Owning.{
  handle_create_collection-Keeps, handle_delete_collection-Keeps, handle_get_collections-Keeps,
  handle_get_indexes-Keeps, handle_export_collection-Keeps, handle_create_index-Keeps,
  handle_delete_index-Keeps,
}
use anu_db.Mqtt.Requests.{parsed, dispatch, failed, topic_of, run, handle_request, response_topic}

module _ ⦃R : RocksDb⦄ ⦃J : Json⦄ (drops : Drops) (env : Surroundings J) where
  answered-Keeps :
      (m : Exec (Session R J) (Unit {0}))
      → Keeps m
      → Keeps (m >> answer (codes "status") (codes "success"))
  answered-Keeps m k =
      then-Keeps m (answer (codes "status") (codes "success")) k
        (answer-Keeps (codes "status") (codes "success"))

  dispatch-Keeps : (command topic : Bytes) (req : J.Value) → Keeps (dispatch env command topic req)
  unfolding dispatch
  dispatch-Keeps command topic req =
      if-Keeps (command == codes "create_collection") _ _ (handle_create_collection-Keeps req) (
        if-Keeps (command == codes "delete_collection") _ _
          (handle_delete_collection-Keeps drops req)
          (if-Keeps (command == codes "get_collections") _ _ handle_get_collections-Keeps (
            if-Keeps (command == codes "create_document") _ _ (handle_create_document-Keeps env req)
              (if-Keeps (command == codes "delete_document") _ _
                (handle_delete_document-Keeps env req)
                (if-Keeps (command == codes "read_document") _ _
                  (answered-Keeps _ (handle_read_document-Keeps env topic req))
                  (if-Keeps (command == codes "create_index") _ _
                    (handle_create_index-Keeps env req)
                    (if-Keeps (command == codes "delete_index") _ _
                      (handle_delete_index-Keeps env req)
                      (if-Keeps (command == codes "get_indexes") _ _ (handle_get_indexes-Keeps req)
                        (if-Keeps (command == codes "find_documents") _ _
                          (answered-Keeps _ (handle_find_documents-Keeps env topic req))
                          (if-Keeps (command == codes "export_collection") _ _
                            (handle_export_collection-Keeps env req) (say-Keeps _ _)))))))))))

  run-Keeps : (x : Try (J.Value × Bytes × Bytes)) → Keeps (run env x)
  unfolding run failed
  run-Keeps (throws m) = say-Keeps (codes "error") (codes "Exception :" ++ m)
  run-Keeps (gives (req, command, id)) =
      try_catch-Keeps _ _ (dispatch-Keeps command (response_topic ++ id) req)
        (λ m. say-Keeps (codes "error") (codes "Exception :" ++ m))

  -- Where RocksDB drops every family that it is asked to drop, and every pointer of collMap_ is to the
  -- object that the database has under its name, handle_request of any payload that returns or
  -- throws leaves it so.
  pub handle_request-Tracks :
      (payload : Bytes) (s : Session R J) → Tracks s → Left (handle_request env payload s)
  unfolding handle_request
  handle_request-Tracks payload =
      let reply : Bytes → Exec (Session R J) (Bytes × Bytes) =
        λ text. pure (topic_of env (parsed payload), text) in
      then-Keeps (set_resp J.null_value) _ (λ s t. t)
        (then-Keeps (run env (parsed payload))
          (gets (λ s. s.resp) >>= λ resp. lift (J.dump resp) >>= reply) (run-Keeps (parsed payload))
          (λ s t.
            bind-Keeps (lift (J.dump s.resp)) reply (lift-Keeps (J.dump s.resp)) (λ text s' t'. t')
              s t))
