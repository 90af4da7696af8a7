-- ===== src/Mqtt/Handlers/Collections.antt =====
-- mqtt/AnuDBMqttClient.cpp: the handlers of the commands on collections and indexes.
pub mod Owning
use anu_db.Base.{List, [], ◌∷◌, ◌++◌, Bytes, codes, erase, insert, if◌then◌else◌}
use anu_db.Status.{Status, is_ok}
use anu_db.Exec.{Exec, Result, returns, raises, crashes, stops, ◌>>=◌, ◌>>◌, pure, gets}
use anu_db.Json.{Json}
use anu_db.RocksDb.{RocksDb}
use anu_db.Engine.{Engine}
use anu_db.Collection.Exporting.{
  Thread, Exporting, export_all_to_json_async, wait_for_export_operation,
}
use anu_db.Database
use anu_db.Collection.Indexes.{create_index, get_index}
use anu_db.Mqtt.Session.{
  Session, Surroundings, Pointer, on_database, on_collection, find_collection, guarded, say, answer,
  text_at, set_coll_map, expire,
}

-- for (name : names) text += name + ",";
joined : List Bytes → Bytes
joined [] = []
joined (n ∷ ns) = n ++ (codes "," ++ joined ns)

module _ ⦃R : RocksDb⦄ ⦃J : Json⦄ where
  -- collMap_[collectionName] = db_->getCollection(collectionName)
  bind_collection : Bytes → Exec (Session R J) (Unit {0})
  bind_collection name = do
    found ← on_database (Database.get_collection name)
    set_coll_map (λ m. insert name (if found then Pointer.live else Pointer.null) m)

  unfoldable pub handle_create_collection : J.Value → Exec (Session R J) (Unit {0})
  unfolding bind_collection
  handle_create_collection req = guarded (do
    name ← text_at req (codes "collection_name")
    status ← on_database (Database.create_collection name)
    let made = do
      bind_collection name
      say (codes "success") (name ++ codes " collection created successfully in AnuDB.")
    if is_ok status then made else say (codes "error while creating collection") status.msg)

  -- After dropCollection, the pointer that was to the collection's object dangles.
  unfoldable pub handle_delete_collection : J.Value → Exec (Session R J) (Unit {0})
  handle_delete_collection req = guarded (do
    name ← text_at req (codes "collection_name")
    status ← on_database (Database.drop_collection name)
    expire name
    let gone = do
      set_coll_map (λ m. erase name m)
      say (codes "success") (name ++ codes " collection deleted successfully in AnuDB.")
    if is_ok status then gone else say (codes "error while deleting collection") status.msg)

  -- This handler has no try block.
  unfoldable pub handle_get_collections : Exec (Session R J) (Unit {0})
  unfolding joined
  handle_get_collections = do
    names ← gets (λ s. Database.collection_names s.database)
    answer (codes "Collections") (joined names)

  list_indexes : Bytes → Exec (Session R J) (Unit {0})
  unfolding joined
  list_indexes name = do
    (status, indexes) ← on_collection name (gets (get_index name []))
    answer (codes "collection") name
    answer (codes "indexList") (joined indexes)

  unfoldable pub handle_get_indexes : J.Value → Exec (Session R J) (Unit {0})
  unfolding list_indexes
  handle_get_indexes req = guarded (do
    name ← text_at req (codes "collection_name")
    found ← find_collection name
    if found then list_indexes name else pure tt)

  -- The files after an export. Its thread is idle then, since each request waits for it.
  exported : Session R J → Result (Unit {0}) × Exporting → Result (Unit {0}) × Session R J
  exported s (r, x) = (r, record s { files = x.files })

  module _ (env : Surroundings J) where
    run_export : Bytes → Bytes → Engine R → Exec (Session R J) (Unit {0})
    unfolding exported
    run_export name dir e s =
        let waited =
          export_all_to_json_async env.dump_indented env.fuel e name env.disk env.early dir
          >>= λ status. wait_for_export_operation env.dump_indented env.fuel e name env.disk in
        exported s (waited (record { thread = Thread.idle; files = s.files }))

    export_to : Bytes → J.Value → Exec (Session R J) (Unit {0})
    unfolding run_export
    export_to name req = do
      dir ← text_at req (codes "dest_dir")
      e ← on_collection name (gets (λ e. e))
      run_export name dir e
      say (codes "success")
          (codes "Collection: " ++ (name ++ (codes " exported successfully to " ++ dir)))

    unfoldable pub handle_export_collection : J.Value → Exec (Session R J) (Unit {0})
    unfolding export_to
    handle_export_collection req = guarded (do
      name ← text_at req (codes "collection_name")
      found ← find_collection name
      if found then export_to name req else pure tt)

    index_on : Bytes → Bytes → Bytes → J.Value → Exec (Session R J) (Unit {0})
    index_on failure success name req = do
      field ← text_at req (codes "field")
      status ← on_collection name (create_index ⦃J = J⦄ name env.fuel field)
      if is_ok status
          then say (codes "success") (success ++ field)
          else say (failure ++ name) status.msg

    unfoldable pub handle_create_index : J.Value → Exec (Session R J) (Unit {0})
    unfolding index_on
    handle_create_index req = guarded (do
      name ← text_at req (codes "collection_name")
      found ← find_collection name
      if found
          then index_on (codes "error while creating index in collection ")
              (codes "Index created on field name: ") name req
          else pure tt)

    -- It calls createIndex, as the handler above does.
    unfoldable pub handle_delete_index : J.Value → Exec (Session R J) (Unit {0})
    unfolding index_on
    handle_delete_index req = guarded (do
      name ← text_at req (codes "collection_name")
      found ← find_collection name
      if found
          then index_on (codes "error while deleting index in collection ")
              (codes "Index deleted on field name: ") name req
          else pure tt)
