-- ===== src/Mqtt/Handlers/Collections/Owning.antt =====
-- mqtt/AnuDBMqttClient.cpp: the pointers of collMap_ through the handlers of the commands on collections
-- and indexes.
use anu_db.Base.{
  arith, ◌≡◌, refl, inl, inr, true, false, ◌∷◌, Option, none, some, Bytes, codes, ◌==◌, bytes_eq,
  Bool-cases, contains, lookup, lookup-insert, lookup-erase, eq_self, erase,
}
use anu_db.Status.{is_ok}
use anu_db.Exec.{Exec, Result, returns, raises, crashes, stops, ◌>>=◌, ◌>>◌, gets}
use anu_db.Json.{Json}
use anu_db.RocksDb.{RocksDb}
use anu_db.Engine.{Engine}
use anu_db.Collection.Exporting.{
  Thread, Exporting, export_all_to_json_async, wait_for_export_operation,
}
use anu_db.Database.{Database, create_collection, drop_collection, without}
use anu_db.Engine.Dropping.{Drops}
use anu_db.Database
use anu_db.Database.Objects.{create_collection_cases, contains-without_other}
use anu_db.Database.Succeeding.{drop_collection-succeeds}
use anu_db.Mqtt.Session.{Session, Surroundings, Pointer, live, dangling, null, answer, expired}
use anu_db.Mqtt.Session.Pointers.{
  Tracks, Left, Keeps, bind-Keeps, then-Keeps, if-Keeps, answer-Keeps, say-Keeps,
  on_collection-Keeps, text_at-Keeps, handler-Keeps, guarded-Keeps, bound,
}
use anu_db.Mqtt.Handlers.Collections.{
  joined, bind_collection, handle_create_collection, handle_delete_collection,
  handle_get_collections, list_indexes, handle_get_indexes, exported, run_export, export_to,
  handle_export_collection, index_on, handle_create_index, handle_delete_index,
}

module _ ⦃R : RocksDb⦄ ⦃J : Json⦄ where
  -- The objects after a new one took its place beside the others.
  renewed :
      (name : Bytes) (s : Session R J) (d : Database R)
      → Tracks s
      → d.collections ≡ name ∷ without name s.database.collections
      → Tracks (record s { database = d })
  renewed name s d t same n p q = elim (Bool-cases (n == name)) [
    | inl this ↦ ((t n p q).0, rw (same, this))
    | inr other ↦
        let kept = contains-without_other name n s.database.collections other in
        let (l, held) = t n p q in (l, rw (same, other, kept, held))
  ]

  -- A collection that is there is bound to its object.
  bind_collection-Left :
      (name : Bytes) (k : Exec (Session R J) (Unit {0})) (s : Session R J)
      → Keeps k
      → Tracks s
      → contains s.database.collections name ≡ true
      → Left ((bind_collection name >> k) s)
  unfolding bind_collection Database.get_collection
  bind_collection-Left name k s keeps t held = rw held (keeps _ (bound name s t held))

  pub handle_create_collection-Keeps : (req : J.Value) → Keeps (handle_create_collection req)
  unfolding handle_create_collection
  handle_create_collection-Keeps req = guarded-Keeps _ (
      bind-Keeps _ _ (text_at-Keeps req (codes "collection_name")) (λ name s t.
        elim (create_collection_cases name s.database) [
          | inl (status, d, bad, same, q) ↦
              rw (q, bad) (say-Keeps _ _ _ (λ n p l. rw same (t n p l)))
          | inr (inl (d, new, q)) ↦ rw q (
              bind_collection-Left name _ _ (say-Keeps _ _) (renewed name s d t new)
                (rw (new, eq_self name)))
          | inr (inr crashed) ↦ rw crashed tt
        ]))

  pub handle_get_collections-Keeps : Keeps handle_get_collections
  unfolding handle_get_collections
  handle_get_collections-Keeps s t = answer-Keeps (codes "Collections") _ s t

  list_indexes-Keeps : (name : Bytes) → Keeps (list_indexes name)
  unfolding list_indexes
  list_indexes-Keeps name = bind-Keeps _ _ (on_collection-Keeps name _) (λ (status, indexes).
      then-Keeps (answer (codes "collection") name) (answer (codes "indexList") (joined indexes))
        (answer-Keeps (codes "collection") name)
        (answer-Keeps (codes "indexList") (joined indexes)))

  pub handle_get_indexes-Keeps : (req : J.Value) → Keeps (handle_get_indexes req)
  unfolding handle_get_indexes
  handle_get_indexes-Keeps req = handler-Keeps req (λ name. list_indexes name) list_indexes-Keeps

  -- dropCollection replaces the object; the pointer to the old one dangles until it is erased.
  replaced-Tracks :
      (name : Bytes) (s : Session R J) (d : Database R)
      → Tracks s
      → d.collections ≡ name ∷ without name s.database.collections
      → Tracks (record s {
        database = d;
        coll_map = erase name (expired (lookup name s.coll_map) name s.coll_map);
      })
  replaced-Tracks name s d t same n p q = elim (Bool-cases (n == name)) [
    | inl this ↦ absurd (let f : none ≡ some p = rw (lookup-erase, this) at q in ground (arith, f))
    | inr other ↦
        renewed name s d t same n p
          (kept (lookup name s.coll_map) other (rw (lookup-erase, other) at q))
  ]
    where
      kept :
          (o : Option Pointer)
          → (n == name) ≡ false
          → lookup n (expired o name s.coll_map) ≡ some p
          → lookup n s.coll_map ≡ some p
      kept (some live) other q2 = rw (lookup-insert, other) at q2
      kept (some dangling) other q2 = q2
      kept (some null) other q2 = q2
      kept none other q2 = q2

  pub handle_delete_collection-Keeps :
      Drops → (req : J.Value) → Keeps (handle_delete_collection req)
  unfolding handle_delete_collection
  handle_delete_collection-Keeps drops req = guarded-Keeps _ (
      bind-Keeps _ _ (text_at-Keeps req (codes "collection_name")) (λ name s t.
        elim (drop_collection-succeeds name s.database drops) [
          | inl (e, q) ↦
              let d : Database R = record s.database {
                engine = e;
                collections = name ∷ without name s.database.collections;
              } in
              rw q (say-Keeps _ _ _ (replaced-Tracks name s d t refl))
          | inr crashed ↦ rw crashed tt
        ]))

  exported-Left :
      (p : Result (Unit {0}) × Exporting) (s : Session R J) → Tracks s → Left (exported s p)
  unfolding exported
  exported-Left (returns u, x) s t = t
  exported-Left (raises m, x) s t = t
  exported-Left (crashes, x) s t = tt
  exported-Left (stops, x) s t = tt

  module _ (env : Surroundings J) where
    run_export-Keeps : (name dir : Bytes) (e : Engine R) → Keeps (run_export env name dir e)
    unfolding run_export
    run_export-Keeps name dir e s t =
        let waited =
          export_all_to_json_async env.dump_indented env.fuel e name env.disk env.early dir
          >>= λ status. wait_for_export_operation env.dump_indented env.fuel e name env.disk in
        exported-Left (waited (record { thread = Thread.idle; files = s.files })) s t

    export_to-Keeps : (name : Bytes) (req : J.Value) → Keeps (export_to env name req)
    unfolding export_to
    export_to-Keeps name req = bind-Keeps _ _ (text_at-Keeps req (codes "dest_dir")) (λ dir.
        bind-Keeps _ _ (on_collection-Keeps name (gets (λ e. e))) (λ e.
          then-Keeps (run_export env name dir e) _ (run_export-Keeps name dir e) (say-Keeps _ _)))

    pub handle_export_collection-Keeps : (req : J.Value) → Keeps (handle_export_collection env req)
    unfolding handle_export_collection
    handle_export_collection-Keeps req =
        handler-Keeps req (λ name. export_to env name req) (λ name. export_to-Keeps name req)

    index_on-Keeps :
        (failure success name : Bytes) (req : J.Value)
        → Keeps (index_on env failure success name req)
    unfolding index_on
    index_on-Keeps failure success name req =
        bind-Keeps _ _ (text_at-Keeps req (codes "field")) (λ field.
          bind-Keeps _ _ (on_collection-Keeps name _)
            (λ status. if-Keeps (is_ok status) _ _ (say-Keeps _ _) (say-Keeps _ _)))

    pub handle_create_index-Keeps : (req : J.Value) → Keeps (handle_create_index env req)
    unfolding handle_create_index
    handle_create_index-Keeps req = handler-Keeps req _ (λ name.
        index_on-Keeps (codes "error while creating index in collection ")
          (codes "Index created on field name: ") name req)

    pub handle_delete_index-Keeps : (req : J.Value) → Keeps (handle_delete_index env req)
    unfolding handle_delete_index
    handle_delete_index-Keeps req = handler-Keeps req _ (λ name.
        index_on-Keeps (codes "error while deleting index in collection ")
          (codes "Index deleted on field name: ") name req)
