-- ===== src/Mqtt/Requests/Crashing.antt =====
-- mqtt/AnuDBMqttClient.cpp: a request to delete a collection that does not exist.
use anu_db.Base.{◌≡◌, false, Bytes, codes, bytes_eq, contains}
use anu_db.Exec.{crashes, gives, ◌>>?◌}
use anu_db.Json.{Json}
use anu_db.RocksDb.{RocksDb}
use anu_db.Engine.{collection_exists}
use anu_db.Database.{drop_collection}
use anu_db.Database.Dropping.{drop_collection_crashes}
use anu_db.Mqtt.Session.{Session, Surroundings}
use anu_db.Mqtt.Handlers.Collections.{handle_delete_collection}
use anu_db.Mqtt.Requests.{parsed, dispatch, run, handle_request}

module _ ⦃R : RocksDb⦄ ⦃J : Json⦄ where
  handle_delete_collection_crashes :
      (req : J.Value) (name : Bytes) (s : Session R J)
      → (J.at_key req (codes "collection_name") >>? λ v. J.get_string v) ≡ gives name
      → (drop_collection name s.database).0 ≡ crashes
      → (handle_delete_collection req s).0 ≡ crashes
  unfolding handle_delete_collection
  handle_delete_collection_crashes req name s named c = rw (named, c)

  -- Handle_request of a payload with the command "delete_collection" and the name of a collection
  -- that neither has an object nor is in the engine ends in the dereference of a null pointer.
  pub handle_request-delete_collection_crashes :
      (env : Surroundings J) (payload id name : Bytes) (req : J.Value) (s : Session R J)
      → parsed payload ≡ gives (req, codes "delete_collection", id)
      → (J.at_key req (codes "collection_name") >>? λ v. J.get_string v) ≡ gives name
      → contains s.database.collections name ≡ false
      → collection_exists name s.database.engine ≡ false
      → (handle_request env payload s).0 ≡ crashes
  unfolding handle_request run dispatch bytes_eq
  handle_request-delete_collection_crashes env payload id name req s p named free absent = rw (
    p,
    handle_delete_collection_crashes req name (record s { resp = J.null_value }) named
        (drop_collection_crashes name s.database free absent),
  )
