-- ===== src/Mqtt/Handlers/Removing.antt =====
-- mqtt/AnuDBMqttClient.cpp: what a request to delete a document did, when its response says "success".
use anu_db.Base.{
  ◌≡◌, ap, inl, inr, true, ◌++◌, none, Bytes, codes, if◌then◌else◌, bytes_eq, Bool-cases,
}
use anu_db.Status.{Status, is_ok}
use anu_db.Exec.{Exec, returns, gives, ◌>>=◌, ◌>>?◌, pure, and_then-returns, lift-returns}
use anu_db.Json.{Json}
use anu_db.Json.Contract
use anu_db.RocksDb.{RocksDb}
use anu_db.RocksDb.Contract.{IsLawful}
use anu_db.Engine.Tables.{IsConsistent}
use anu_db.Engine.Entries.{entry}
use anu_db.Document.{is_found}
use anu_db.Collection.Documents.{delete_document}
use anu_db.Collection.Documents.Deleting.{delete_document_removes}
use anu_db.Mqtt.Session.{Session, Surroundings, text_at, on_collection}
use anu_db.Mqtt.Session.Answers.{
  Says, success-returns, say-returns, Says-one, handler_success, on_collection-returns,
}
use anu_db.Mqtt.Handlers.{deleted, delete_in, handle_delete_document}

module _ ⦃R : RocksDb⦄ ⦃J : Json⦄ (L : IsLawful R) (LJ : Contract.IsLawful J)
    (env : Surroundings J) where
  -- Nothing is stored in the collection under the identifier of the response.
  abbrev pub Gone : Bytes → Bytes → Session R J → Type 0
  Gone name id s =
      IsConsistent L s.database.engine
      × (entry L name id s.database.engine ≡ none)
      × Says LJ (codes "docId") id s

  deleted_success :
      (name id : Bytes) (status : Status) (s s' : Session R J)
      → deleted env name id status s ≡ (returns tt, s')
      → Says LJ (codes "status") (codes "success") s'
      → (is_ok status ≡ true) × (s'.database ≡ s.database) × Says LJ (codes "docId") id s'
  unfolding deleted
  deleted_success name id status s s' r h = elim (Bool-cases (is_ok status)) [
    | inl good ↦
        let message = codes "Document deleted from collection " ++ name in
        let (d, says) = success-returns LJ id message s s' (rw good at r) in (good, d, says)
    | inr bad ↦
        let failure = codes "error while deleting document in collection " ++ name in
        let (d, f) = say-returns LJ failure status.msg s s' (rw bad at r) in
        absurd (let e : failure ≡ codes "success" = Says-one LJ failure s' f h in cc)
  ]

  -- deleteDocument through the pointer, and then the response.
  remove-Gone :
      (name id : Bytes) (status : Status) (s s1 s' : Session R J)
      → IsConsistent L s.database.engine
      → on_collection name (delete_document ⦃J = J⦄ name id) s ≡ (returns status, s1)
      → deleted env name id status s1 ≡ (returns tt, s')
      → Says LJ (codes "status") (codes "success") s'
      → Gone name id s'
  remove-Gone name id status s s1 s' c r after h =
      let (made, resp_is) =
        on_collection-returns LJ name (delete_document ⦃J = J⦄ name id) s s1 status r in
      let (good, database_is, says) = deleted_success name id status s1 s' after h in
      let engine_is : s'.database.engine ≡ s1.database.engine = ap (λ d. d.engine) database_is in
      let (was, c1, gone, unindexed) =
        delete_document_removes ⦃J = J⦄ L name id status s.database.engine s1.database.engine c made
          good in
      (rw engine_is c1, rw engine_is gone, says)

  delete_in-removes :
      (name : Bytes) (req : J.Value) (s s' : Session R J)
      → IsConsistent L s.database.engine
      → delete_in env name req s ≡ (returns tt, s')
      → Says LJ (codes "status") (codes "success") s'
      → (id : Bytes) × ((J.at_key req (codes "document_id") >>? λ v. J.get_string v) ≡ gives id)
        × Gone name id s'
  unfolding delete_in
  delete_in-removes name req s s' c r h =
      let rest : Bytes → Exec (Session R J) (Unit {0}) =
        λ id. on_collection name (delete_document ⦃J = J⦄ name id) >>= deleted env name id in
      let (id, s1, r1, t1) = and_then-returns (text_at req (codes "document_id") s) rest tt s' r in
      let (read, s1_is) =
        lift-returns (J.at_key req (codes "document_id") >>? λ v. J.get_string v) id s s1 r1 in
      let (status, s2, r2, t2) =
        and_then-returns (on_collection name (delete_document ⦃J = J⦄ name id) s1)
          (deleted env name id) tt s' t1 in
      (id, read, remove-Gone name id status s1 s2 s' (rw s1_is at c) r2 t2 h)

  -- A document that a response of success names is deleted: where handle_delete_document returns and
  -- leaves "success" as the status, which it was not before, over a consistent engine, nothing is
  -- stored under the request's identifier in the collection that it names, the response gives that
  -- identifier as `docId`, and the engine is consistent.
  pub handle_delete_document-removes :
      (req : J.Value) (s s' : Session R J)
      → IsConsistent L s.database.engine
      → ¬ Says LJ (codes "status") (codes "success") s
      → handle_delete_document env req s ≡ (returns tt, s')
      → Says LJ (codes "status") (codes "success") s'
      → (name : Bytes) × (id : Bytes) × ((J.at_key req (codes "collection_name") >>? λ v.
            J.get_string v)
          ≡ gives name)
        × ((J.at_key req (codes "document_id") >>? λ v. J.get_string v) ≡ gives id)
        × Gone name id s'
  unfolding handle_delete_document
  handle_delete_document-removes req s s' c fresh r h =
      let named = is_found (J.find req (codes "document_id")) in
      let (name, s1, coll, engine_is, resp_is, body) =
        handler_success LJ req (λ name. if named then delete_in env name req else pure tt) s s' r
          h in
      elim (Bool-cases named) [
        | inl there ↦
            let (id, given, gone) =
              delete_in-removes name req s1 s' (rw engine_is c) (rw there at body) h in
            (name, id, coll, given, gone)
        | inr absent ↦
            let same : s1 ≡ s' = ap (λ x. x.1) (rw absent at body) in
            absurd (fresh (rw (← resp_is, same) h))
      ]
