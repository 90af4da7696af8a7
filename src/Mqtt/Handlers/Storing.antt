-- ===== src/Mqtt/Handlers/Storing.antt =====
-- mqtt/AnuDBMqttClient.cpp: what a request to create or to delete a document did, when its response says
-- "success".
use anu_db.Base.{
  ◌≡◌, ap, ◌∙◌, ◌≢◌, inl, inr, Bool, true, false, [], ◌∷◌, ◌++◌, some, Bytes, codes, if◌then◌else◌,
  bytes_eq, arith, Bool-cases,
}
use anu_db.Status.{Status, is_ok}
use anu_db.Exec.{
  Exec, Try, returns, gives, ◌>>=◌, ◌>>?◌, pure, and_then-returns, lift-returns, lift, Try-cases,
}
use anu_db.Json.{Json}
use anu_db.Json.Contract
use anu_db.RocksDb.{RocksDb}
use anu_db.RocksDb.Contract.{IsLawful}
use anu_db.Engine.Tables.{IsConsistent}
use anu_db.Engine.Entries.{entry}
use anu_db.Document.{Document, is_found, to_msgpack, has_field, set_value}
use anu_db.Collection.{generate_id}
use anu_db.Collection.Documents.{create_document, identified}
use anu_db.Collection.Documents.Storing.{create_document_stores, create_ok}
use anu_db.Mqtt.Session.{Session, Surroundings, text_at, on_collection}
use anu_db.Mqtt.Session.Answers.{
  Says, success-returns, say-returns, Says-one, handler_success, on_collection-returns,
}
use anu_db.Mqtt.Handlers.{created, create_in, handle_create_document}

module _ ⦃R : RocksDb⦄ ⦃J : Json⦄ (L : IsLawful R) (LJ : Contract.IsLawful J)
    (env : Surroundings J) where
  -- createDocument adds "_id" at most: the other fields are those of the content.
  set_id_keeps :
      (id : Bytes) (doc d : Document J) (k : Bytes)
      → (if is_found (J.find doc.data_value (codes "_id"))
          then gives doc
          else (J.set_member doc.data_value (codes "_id") (J.string_value id) >>? λ v.
              gives (record doc { data_value = v })))
        ≡ gives d
      → k ≢ codes "_id"
      → J.find d.data_value k ≡ J.find doc.data_value k
  set_id_keeps id doc d k g other =
      elim (Bool-cases (is_found (J.find doc.data_value (codes "_id")))) [
        | inl there ↦
            let same : gives doc ≡ gives d = rw there at g in
            let d_is : d ≡ doc = ground arith in ap (λ (x : Document J). J.find x.data_value k) d_is
        | inr absent ↦
            elim (Try-cases (J.set_member doc.data_value (codes "_id") (J.string_value id))) [
              | inl (v, q) ↦
                  let made : gives (record doc { data_value = v }) ≡ gives d =
                    rw (absent, q) at g in
                  let d_is : d ≡ record doc { data_value = v } = ground arith in
                  rw d_is (
                    LJ.find-set_member doc.data_value (codes "_id") k (J.string_value id) v q
                    ∙ ground (arith, other))
              | inr (m, q) ↦ absurd (let g' = rw (absent, q) at g in ground arith)
            ]
      ]

  identified_keeps :
      (name id : Bytes) (content : J.Value) (d : Document J) (k : Bytes)
      → identified name env.chance (record { id = id; data_value = content }) ≡ gives d
      → k ≢ codes "_id"
      → J.find d.data_value k ≡ J.find content k
  unfolding identified set_value has_field
  identified_keeps name [] content d k g other =
      let id = generate_id env.chance in
      set_id_keeps id (record { id = id; data_value = content }) d k g other
  identified_keeps name (c ∷ cs) content d k g other =
      set_id_keeps (c ∷ cs) (record { id = c ∷ cs; data_value = content }) d k g other

  -- The collection holds a document with the content, under the identifier of the response.
  abbrev pub Stored : Bytes → J.Value → Document J → Session R J → Type 0
  Stored name content doc s =
      ((k : Bytes) → k ≢ codes "_id" → J.find doc.data_value k ≡ J.find content k)
      × IsConsistent L s.database.engine
      × (entry L name doc.id s.database.engine ≡ some (to_msgpack doc))
      × Says LJ (codes "docId") doc.id s

  created_success :
      (name : Bytes) (status : Status) (doc : Document J) (s s' : Session R J)
      → created env name (status, doc) s ≡ (returns tt, s')
      → Says LJ (codes "status") (codes "success") s'
      → (is_ok status ≡ true) × (s'.database ≡ s.database) × Says LJ (codes "docId") doc.id s'
  unfolding created
  created_success name status doc s s' r h = elim (Bool-cases (is_ok status)) [
    | inl good ↦
        let message = codes "Document added in collection " ++ name in
        let (d, says) = success-returns LJ doc.id message s s' (rw good at r) in (good, d, says)
    | inr bad ↦
        let failure = codes "error while adding document in collection " ++ name in
        let (d, f) = say-returns LJ failure status.msg s s' (rw bad at r) in
        absurd (let e : failure ≡ codes "success" = Says-one LJ failure s' f h in cc)
  ]

  -- createDocument through the pointer, and then the response.
  make_stores :
      (name id : Bytes) (content : J.Value) (status : Status) (doc : Document J)
      (s s1 s' : Session R J)
      → IsConsistent L s.database.engine
      → on_collection name
          (create_document name env.chance (record { id = id; data_value = content }))
          s
        ≡ (returns (status, doc), s1)
      → created env name (status, doc) s1 ≡ (returns tt, s')
      → Says LJ (codes "status") (codes "success") s'
      → Stored name content doc s'
  make_stores name id content status doc s s1 s' c r after h =
      let given : Document J = record { id = id; data_value = content } in
      let (made, resp_is) =
        on_collection-returns LJ name (create_document name env.chance given) s s1 (status, doc)
          r in
      let (good, database_is, says) = created_success name status doc s1 s' after h in
      let engine_is : s'.database.engine ≡ s1.database.engine = ap (λ d. d.engine) database_is in
      let (c1, stored, indexed) =
        create_document_stores L name env.chance given doc status s.database.engine
          s1.database.engine c made good in
      let (g, _, _, _) =
        create_ok name env.chance given doc status s.database.engine s1.database.engine made good in
      (
        λ k other. identified_keeps name id content doc k g other,
        rw engine_is c1,
        rw engine_is stored,
        says,
      )

  create_in-stores :
      (name : Bytes) (req : J.Value) (s s' : Session R J)
      → IsConsistent L s.database.engine
      → create_in env name req s ≡ (returns tt, s')
      → Says LJ (codes "status") (codes "success") s'
      → (content : J.Value) × (doc : Document J) × (J.at_key req (codes "content") ≡ gives content)
        × Stored name content doc s'
  unfolding create_in
  create_in-stores name req s s' c r h =
      let (id, s1, r1, t1) = and_then-returns (read_id s) after_id tt s' r in
      let s1_is = read_id-returns (is_found (J.find req (codes "document_id"))) id s s1 r1 in
      let (content, s2, r2, t2) =
        and_then-returns (lift read_content s1) (after_content id) tt s' t1 in
      let (read, s2_is) = lift-returns read_content content s1 s2 r2 in
      let ((status, doc), s3, r3, t3) =
        and_then-returns
          (on_collection name
            (create_document name env.chance (record { id = id; data_value = content })) s2)
          (created env name) tt s' t2 in
      let c2 : IsConsistent L s2.database.engine = rw (s1_is ∙ s2_is) at c in
      (content, doc, read, make_stores name id content status doc s2 s3 s' c2 r3 t3 h)
    where
      read_id : Exec (Session R J) Bytes
      read_id =
          if is_found (J.find req (codes "document_id"))
          then text_at req (codes "document_id")
          else pure []

      read_content : Try J.Value
      read_content = J.at_key req (codes "content")

      after_content : Bytes → J.Value → Exec (Session R J) (Unit {0})
      after_content id content =
          on_collection name
            (create_document name env.chance (record { id = id; data_value = content }))
          >>= created env name

      after_id : Bytes → Exec (Session R J) (Unit {0})
      after_id id = lift read_content >>= after_content id

      read_id-returns :
          (named : Bool) (id : Bytes) (s s1 : Session R J)
          → (if named then text_at req (codes "document_id") else pure []) s ≡ (returns id, s1)
          → s ≡ s1
      read_id-returns true id s s1 r' =
          (lift-returns (J.at_key req (codes "document_id") >>? λ v. J.get_string v) id s s1 r').1
      read_id-returns false id s s1 r' = ap (λ x. x.1) r'

  -- A document that a response of success names is stored: where handle_create_document returns and
  -- leaves "success" as the status, over a consistent engine, the collection that the request names
  -- holds a document under the identifier that the response gives as `docId`, its fields but "_id" are
  -- those of the request's content, and the engine is consistent.
  pub handle_create_document-stores :
      (req : J.Value) (s s' : Session R J)
      → IsConsistent L s.database.engine
      → handle_create_document env req s ≡ (returns tt, s')
      → Says LJ (codes "status") (codes "success") s'
      → (name : Bytes) × (content : J.Value) × (doc : Document J) × ((J.at_key req
              (codes "collection_name")
            >>? λ v. J.get_string v)
          ≡ gives name)
        × (J.at_key req (codes "content") ≡ gives content)
        × Stored name content doc s'
  unfolding handle_create_document
  handle_create_document-stores req s s' c r h =
      let (name, s1, named, engine_is, resp_is, body) =
        handler_success LJ req (λ name. create_in env name req) s s' r h in
      let (content, doc, given, stored) = create_in-stores name req s1 s' (rw engine_is c) body h in
      (name, content, doc, named, given, stored)
