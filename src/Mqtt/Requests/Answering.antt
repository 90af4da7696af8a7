-- ===== src/Mqtt/Requests/Answering.antt =====
-- mqtt/AnuDBMqttClient.cpp: where handle_request answers, and what a request did that it answers with
-- "success".
use anu_db.Base.{◌≡◌, ap, ◌∙◌, sym, ◌++◌, Bytes, codes, [], bytes_eq}
use anu_db.Exec.{
  Result, Exec, returns, gives, ◌>>=◌, ◌>>?◌, pure, gets, lift, and_then-returns, lift-returns,
}
use anu_db.Json.{Json, null, object}
use anu_db.Json.Contract
use anu_db.RocksDb.{RocksDb}
use anu_db.RocksDb.Contract.{IsLawful}
use anu_db.Engine.Tables.{IsConsistent}
use anu_db.Document.{Document}
use anu_db.Mqtt.Session.{Session, Surroundings}
use anu_db.Mqtt.Session.Answers.{Says, caught_success}
use anu_db.Mqtt.Handlers.Storing.{Stored, handle_create_document-stores}
use anu_db.Mqtt.Handlers.Removing.{Gone, handle_delete_document-removes}
use anu_db.Mqtt.Requests.{parsed, dispatch, failed, topic_of, run, handle_request, response_topic}

module _ ⦃R : RocksDb⦄ ⦃J : Json⦄ (env : Surroundings J) where
  -- The steps of handle_request that returned: the commands work on a null response, and the answer is
  -- the text of what they leave.
  handle_request-returns :
      (payload topic text : Bytes) (s s' : Session R J)
      → handle_request env payload s ≡ (returns (topic, text), s')
      → (run env (parsed payload) (record s { resp = J.null_value }) ≡ (returns tt, s'))
        × (topic ≡ topic_of env (parsed payload))
        × (J.dump s'.resp ≡ gives text)
  unfolding handle_request
  handle_request-returns payload topic text s s' r =
      let fresh : Session R J = record s { resp = J.null_value } in
      let reply : Bytes → Exec (Session R J) (Bytes × Bytes) =
        λ t. pure (topic_of env (parsed payload), t) in
      let (u, s1, ran, after) =
        and_then-returns (run env (parsed payload) fresh)
          (λ u. gets (λ x. x.resp) >>= λ resp. lift (J.dump resp) >>= reply) (topic, text) s' r in
      let (t, s2, dumped, replied) =
        and_then-returns (lift (J.dump s1.resp) s1) reply (topic, text) s' after in
      let (given, same) = lift-returns (J.dump s1.resp) t s1 s2 dumped in
      let s_is : s1 ≡ s' = same ∙ ap (λ x. x.1) replied in
      (
        ran ∙ ap (λ x. (returns tt, x)) s_is,
        ap topic_in (sym replied),
        ap (λ (x : Session R J). J.dump x.resp) (sym s_is) ∙ given ∙ ap gives (ap text_in replied),
      )
    where
      topic_in : Result (Bytes × Bytes) × Session R J → Bytes
      topic_in (returns (t, x), s1) = t
      topic_in (_, s1) = []

      text_in : Result (Bytes × Bytes) × Session R J → Bytes
      text_in (returns (t, x), s1) = x
      text_in (_, s1) = []

  -- A request that is understood is answered on the topic of its identifier, with the text of the
  -- response that its command left.
  understood :
      (payload topic text command id : Bytes) (req : J.Value) (s s' : Session R J)
      → parsed payload ≡ gives (req, command, id)
      → handle_request env payload s ≡ (returns (topic, text), s')
      → (LJ : Contract.IsLawful J) → Says LJ (codes "status") (codes "success") s'
      → (dispatch env command (response_topic ++ id) req (record s { resp = J.null_value })
          ≡ (returns tt, s'))
        × (topic ≡ response_topic ++ id)
        × (J.dump s'.resp ≡ gives text)
  unfolding run topic_of failed
  understood payload topic text command id req s s' p r LJ h =
      let (ran, topic_is, text_is) = handle_request-returns payload topic text s s' r in
      (
        caught_success LJ (dispatch env command (response_topic ++ id) req)
            (λ m. codes "Exception :" ++ m) (record s { resp = J.null_value }) s' (rw p at ran) h,
        rw p at topic_is,
        text_is,
      )

module _ ⦃R : RocksDb⦄ ⦃J : Json⦄ (L : IsLawful R) (LJ : Contract.IsLawful J)
    (env : Surroundings J) where
  -- Where handle_request returns for a payload with the command "create_document", over a
  -- consistent engine, and the status of the response is "success", the answer is the text of that
  -- response, on the topic of the request's identifier, the collection that the request names holds
  -- a document under the identifier that the response gives as `docId`, its fields but "_id" are
  -- those of the request's content, and the engine is consistent.
  pub handle_request-create_document :
      (payload topic text id : Bytes) (req : J.Value) (s s' : Session R J)
      → IsConsistent L s.database.engine
      → parsed payload ≡ gives (req, codes "create_document", id)
      → handle_request env payload s ≡ (returns (topic, text), s')
      → Says LJ (codes "status") (codes "success") s'
      → (topic ≡ response_topic ++ id)
        × (J.dump s'.resp ≡ gives text)
        × ((name : Bytes) × (content : J.Value) × (doc : Document J) × ((J.at_key req
                  (codes "collection_name")
                >>? λ v. J.get_string v)
              ≡ gives name)
            × (J.at_key req (codes "content") ≡ gives content)
            × Stored L LJ env name content doc s')
  unfolding dispatch bytes_eq
  handle_request-create_document payload topic text id req s s' c p r h =
      let (done, topic_is, text_is) =
        understood env payload topic text (codes "create_document") id req s s' p r LJ h in
      (
        topic_is,
        text_is,
        handle_create_document-stores L LJ env req (record s { resp = J.null_value }) s' c done h,
      )

  null-Says_nothing :
      (s : Session R J)
      → ¬ Says LJ (codes "status") (codes "success") (record s { resp = J.null_value })
  null-Says_nothing s h =
      let k = LJ.find_object J.null_value (codes "status") (J.string_value (codes "success")) h in
      let e : null ≡ object = sym LJ.kind-null_value ∙ k in cc

  -- Where handle_request returns for a payload with the command "delete_document", over a
  -- consistent engine, and the status of the response is "success", the answer is the text of that
  -- response, on the topic of the request's identifier, the collection that the request names has
  -- nothing under the request's `document_id`, the response gives that as `docId`, and the engine
  -- is consistent.
  pub handle_request-delete_document :
      (payload topic text id : Bytes) (req : J.Value) (s s' : Session R J)
      → IsConsistent L s.database.engine
      → parsed payload ≡ gives (req, codes "delete_document", id)
      → handle_request env payload s ≡ (returns (topic, text), s')
      → Says LJ (codes "status") (codes "success") s'
      → (topic ≡ response_topic ++ id)
        × (J.dump s'.resp ≡ gives text)
        × ((name : Bytes) × (doc_id : Bytes) × ((J.at_key req (codes "collection_name") >>? λ v.
                J.get_string v)
              ≡ gives name)
            × ((J.at_key req (codes "document_id") >>? λ v. J.get_string v) ≡ gives doc_id)
            × Gone L LJ env name doc_id s')
  unfolding dispatch bytes_eq
  handle_request-delete_document payload topic text id req s s' c p r h =
      let (done, topic_is, text_is) =
        understood env payload topic text (codes "delete_document") id req s s' p r LJ h in
      (
        topic_is,
        text_is,
        handle_delete_document-removes L LJ env req (record s { resp = J.null_value }) s' c
            (null-Says_nothing s) done h,
      )
