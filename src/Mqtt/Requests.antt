-- ===== src/Mqtt/Requests.antt =====
-- mqtt/AnuDBMqttClient.cpp: handle_request, and a worker's turn with it. The mutex makes one request
-- one step.
pub mod Answering
pub mod Crashing
pub mod Tracking
use anu_db.Base.{
  List, [], ◌∷◌, ◌++◌, Option, none, some, Bytes, codes, if◌then◌else◌, ◌==◌, bytes_eq,
}
use anu_db.Exec.{
  Exec, Try, gives, throws, ◌>>=◌, ◌>>◌, ◌>>?◌, pure, gets, lift, from_result, try_catch,
}
use anu_db.Json.{Json}
use anu_db.RocksDb.{RocksDb}
use anu_db.Mqtt.Session.{Session, Surroundings, say, answer, set_resp}
use anu_db.Mqtt.Handlers.{
  handle_create_document, handle_delete_document, handle_read_document, handle_find_documents,
}
use anu_db.Mqtt.Handlers.Collections.{
  handle_create_collection, handle_delete_collection, handle_get_collections, handle_get_indexes,
  handle_export_collection, handle_create_index, handle_delete_index,
}
use anu_db.Mqtt.Worker.{State, Message, Work, Call, Outcome, client_cb}

-- ANUDB_RESPONSE_TOPIC
abbrev pub response_topic : Bytes
response_topic = codes "anudb/response/"

module _ ⦃J : Json⦄ where
  -- What a payload parses to, with its command and its identifier.
  unfoldable pub parsed : Bytes → Try (J.Value × Bytes × Bytes)
  parsed payload = J.parse payload >>? λ req. J.at_key req (codes "command") >>? λ c.
      J.get_string c >>? λ command.
      J.at_key req (codes "request_id") >>? λ r. J.get_string r >>? λ id. gives (req, command, id)

module _ ⦃R : RocksDb⦄ ⦃J : Json⦄ (env : Surroundings J) where
  -- The chain of tests of the command.
  unfoldable pub dispatch : Bytes → Bytes → J.Value → Exec (Session R J) (Unit {0})
  dispatch command topic req =
      if command == codes "create_collection"
      then handle_create_collection req
      else if command == codes "delete_collection"
      then handle_delete_collection req
      else if command == codes "get_collections"
      then handle_get_collections
      else if command == codes "create_document"
      then handle_create_document env req
      else if command == codes "delete_document"
      then handle_delete_document env req
      else if command == codes "read_document"
      then (handle_read_document env topic req >> answer (codes "status") (codes "success"))
      else if command == codes "create_index"
      then handle_create_index env req
      else if command == codes "delete_index"
      then handle_delete_index env req
      else if command == codes "get_indexes"
      then handle_get_indexes req
      else if command == codes "find_documents"
      then (handle_find_documents env topic req >> answer (codes "status") (codes "success"))
      else if command == codes "export_collection"
      then handle_export_collection env req
      else say (codes "error") (codes "Unknown command: " ++ command)

  failed : Bytes → Exec (Session R J) (Unit {0})
  failed m = say (codes "error") (codes "Exception :" ++ m)

  -- The topic of the answer: without an identifier it is the prefix alone.
  topic_of : Try (J.Value × Bytes × Bytes) → Bytes
  topic_of (throws m) = response_topic
  topic_of (gives (req, command, id)) = response_topic ++ id

  run : Try (J.Value × Bytes × Bytes) → Exec (Session R J) (Unit {0})
  unfolding failed
  run (throws m) = failed m
  run (gives (req, command, id)) = try_catch (dispatch command (response_topic ++ id) req) failed

  -- The topic, which the worker keeps as `requestid`, and the text of the response. No block catches
  -- what its dump() throws.
  unfoldable pub handle_request : Bytes → Exec (Session R J) (Bytes × Bytes)
  unfolding topic_of run
  handle_request payload = do
    set_resp J.null_value
    run (parsed payload)
    resp ← gets (λ s. s.resp)
    text ← lift (J.dump resp)
    pure (topic_of (parsed payload), text)

  -- The request that a turn of the worker hands to handle_request.
  unfoldable pub asked : State → Option Message → Option Bytes
  asked State.wait (some m) = elim (m.payload) [ [] ↦ none | c ∷ cs ↦ some (c ∷ cs) ]
  asked _ _ = none

  unfoldable pub turn_asking : Option Bytes → Outcome → Work → Exec (Session R J) (Work × List Call)
  turn_asking none o w = from_result (client_cb (λ t p. ([], [])) o w)
  turn_asking (some payload) o w =
      handle_request payload >>= λ reply. from_result (client_cb (λ t p. reply) o w)

  -- client_cb with the handler at its place.
  unfoldable pub worker_turn : Outcome → Work → Exec (Session R J) (Work × List Call)
  unfolding asked turn_asking
  worker_turn o w = turn_asking (asked w.state w.msg) o w
