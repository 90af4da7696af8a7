-- ===== src/Tests/Requests.antt =====
-- Requests that create and delete a document, as the MQTT client gets them.
use anu_db.Base.{
  ◌≡◌, refl, ap, true, false, [], ◌∷◌, none, some, Bytes, codes, bytes_eq, insert, lookup, keys,
  find_sub, set_insert,
}
use anu_db.Exec.{Result, returns, crashes, gives, ◌>>?◌}
use anu_db.Json.{Json}
use anu_db.RocksDb.{RocksDb}
use anu_db.Engine.Export.{Stat}
use anu_db.Mqtt.Session.{Session, Surroundings}
use anu_db.Mqtt.Requests.{handle_request, parsed, dispatch}
use anu_db.Mqtt.Handlers.{handle_create_document, handle_delete_document}
use anu_db.Database.{get_collection}
use anu_db.Engine.{collection_exists, create_collection, put, put_index, get, remove}
use anu_db.Engine.Names.{get_index_names}
use anu_db.Collection.{index_cf_name, index_key}
use anu_db.Collection.Documents.{create_document, delete_document, read_document}
use anu_db.Document.{Document, set_value, from_msgpack, to_msgpack}
use anu_db.Mqtt.Handlers.Storing.{Stored}
use anu_db.Mqtt.Handlers.Removing.{Gone}
use anu_db.Mqtt.Requests.Crashing.{handle_request-delete_collection_crashes}
use anu_db.Mqtt.Requests.Answering.{handle_request-create_document, handle_request-delete_document}
use anu_db.Tests.Stores.{with_index, with_index-IsConsistent}
use anu_db.Tests.Documents.{chance, document, with_document, document_stored}
use anu_db.Tests.Memory.{memory, answer, changed}
use anu_db.RocksDb.Table.{put_entry}
use anu_db.Tests.MemoryLaws.{memory-IsLawful}
use anu_db.Tests.Values.{values, values-IsLawful, when_kind, object_of, or_null, find_in, set_in}

instance abbrev R : RocksDb
R = memory

instance abbrev J : Json
J = values

abbrev pub surroundings : Surroundings values
surroundings = record {
  fuel = 9;
  chance = chance;
  disk = record {
    stat_of = λ p. Stat.directory;
    can_make = λ p. true;
    can_open = λ p. true;
    cut = λ old text. none;
    iterator_ok = true;
    can_rename = true;
  };
  dump_indented = values.dump;
  early = true;
}

abbrev pub session : Session memory values
session = record {
  database = record { is_db_open = true; engine = with_index; collections = [] };
  coll_map = [];
  resp = values.null_value;
  sent = [];
  files = record { dump_file = none; final_file = none; bad = false };
}

-- {"command": "create_document", "request_id": "r", "collection_name": "c", "document_id": "7",
--  "content": {"f": "x"}}
abbrev request : Bytes
request = values.object_value (
    (codes "command", values.string_value (codes "create_document"))
    ∷ (codes "request_id", values.string_value (codes "r"))
    ∷ (codes "collection_name", values.string_value (codes "c"))
    ∷ (codes "document_id", values.string_value (codes "7"))
    ∷ (codes "content", document.data_value)
    ∷ [])

abbrev created : Result (Bytes × Bytes) × Session memory values
created = handle_request surroundings request session

parsed-request : parsed request ≡ gives (request, codes "create_document", codes "r")
unfolding parsed when_kind object_of or_null find_in bytes_eq
parsed-request = refl

request_answered : created.0 ≡ returns (codes "anudb/response/r", created.1.resp)
unfolding handle_request parsed dispatch handle_create_document get_collection collection_exists
    create_collection create_document set_value get_index_names when_kind object_of or_null find_in
    set_in bytes_eq insert lookup keys find_sub set_insert index_key put_index index_cf_name put
request_answered = refl

request_succeeded :
    values.find created.1.resp (codes "status") ≡ some (values.string_value (codes "success"))
unfolding handle_request parsed dispatch handle_create_document get_collection collection_exists
    create_collection create_document set_value get_index_names when_kind object_of or_null find_in
    set_in bytes_eq insert lookup keys find_sub set_insert index_key put_index index_cf_name put
request_succeeded = refl

answered_with : created ≡ (returns (codes "anudb/response/r", created.1.resp), created.1)
answered_with = ap (λ r. (r, created.1)) request_answered

handle_request-create_document_example :
    (codes "anudb/response/r" ≡ codes "anudb/response/r")
    × (values.dump created.1.resp ≡ gives created.1.resp)
    × ((name content : Bytes) × (doc : Document values) × ((values.at_key request
              (codes "collection_name")
            >>? λ v. values.get_string v)
          ≡ gives name)
        × (values.at_key request (codes "content") ≡ gives content)
        × Stored memory-IsLawful values-IsLawful surroundings name content doc created.1)
handle_request-create_document_example =
    handle_request-create_document memory-IsLawful values-IsLawful surroundings request
      (codes "anudb/response/r") created.1.resp (codes "r") request session created.1
      with_index-IsConsistent parsed-request answered_with request_succeeded

-- {"command": "delete_document", "request_id": "q", "collection_name": "c", "document_id": "7"}, after
-- the request above.
abbrev removal : Bytes
removal = values.object_value (
    (codes "command", values.string_value (codes "delete_document"))
    ∷ (codes "request_id", values.string_value (codes "q"))
    ∷ (codes "collection_name", values.string_value (codes "c"))
    ∷ (codes "document_id", values.string_value (codes "7"))
    ∷ [])

abbrev started : Session memory values
started = record session {
  database = record { is_db_open = true; engine = with_document; collections = [] };
}

abbrev removed : Result (Bytes × Bytes) × Session memory values
removed = handle_request surroundings removal started

parsed-removal : parsed removal ≡ gives (removal, codes "delete_document", codes "q")
unfolding parsed when_kind object_of or_null find_in bytes_eq
parsed-removal = refl

abbrev removal_text : Bytes
removal_text = values.object_value (
    (codes "status", values.string_value (codes "success"))
    ∷ (codes "docId", values.string_value (codes "7"))
    ∷ (codes "message", values.string_value (codes "Document deleted from collection c"))
    ∷ [])

removal_answered : removed.0 ≡ returns (codes "anudb/response/q", removal_text)
unfolding handle_request parsed dispatch handle_delete_document get_collection collection_exists
    create_collection create_document set_value get_index_names when_kind object_of or_null find_in
    set_in bytes_eq insert lookup keys find_sub set_insert index_key put_index index_cf_name put
    delete_document read_document get remove answer changed put_entry from_msgpack to_msgpack
removal_answered = refl

removal_succeeded :
    values.find removed.1.resp (codes "status") ≡ some (values.string_value (codes "success"))
unfolding handle_request parsed dispatch handle_delete_document get_collection collection_exists
    create_collection create_document set_value get_index_names when_kind object_of or_null find_in
    set_in bytes_eq insert lookup keys find_sub set_insert index_key put_index index_cf_name put
    delete_document read_document get remove answer changed put_entry from_msgpack to_msgpack
removal_succeeded = refl

removal_answered_with : removed ≡ (returns (codes "anudb/response/q", removal_text), removed.1)
removal_answered_with = ap (λ r. (r, removed.1)) removal_answered

handle_request-delete_document_example :
    (codes "anudb/response/q" ≡ codes "anudb/response/q")
    × (values.dump removed.1.resp ≡ gives removal_text)
    × ((name id : Bytes) × ((values.at_key removal (codes "collection_name") >>? λ v.
            values.get_string v)
          ≡ gives name)
        × ((values.at_key removal (codes "document_id") >>? λ v. values.get_string v) ≡ gives id)
        × Gone memory-IsLawful values-IsLawful surroundings name id removed.1)
handle_request-delete_document_example =
    handle_request-delete_document memory-IsLawful values-IsLawful surroundings removal
      (codes "anudb/response/q") removal_text (codes "q") removal started removed.1
      document_stored.0 parsed-removal removal_answered_with removal_succeeded

-- {"command": "delete_collection", "request_id": "p", "collection_name": "d"}
abbrev wrong_drop : Bytes
wrong_drop = values.object_value (
    (codes "command", values.string_value (codes "delete_collection"))
    ∷ (codes "request_id", values.string_value (codes "p"))
    ∷ (codes "collection_name", values.string_value (codes "d"))
    ∷ [])

parsed-wrong_drop : parsed wrong_drop ≡ gives (wrong_drop, codes "delete_collection", codes "p")
unfolding parsed when_kind object_of or_null find_in bytes_eq
parsed-wrong_drop = refl

wrong_drop_name :
    (values.at_key wrong_drop (codes "collection_name") >>? λ v. values.get_string v)
    ≡ gives (codes "d")
unfolding parsed when_kind object_of or_null find_in bytes_eq
wrong_drop_name = refl

d_absent : collection_exists (codes "d") with_index ≡ false
unfolding collection_exists create_collection insert lookup bytes_eq
d_absent = refl

handle_request-delete_collection_crashes_example :
    (handle_request surroundings wrong_drop session).0 ≡ crashes
handle_request-delete_collection_crashes_example =
    handle_request-delete_collection_crashes surroundings wrong_drop (codes "p") (codes "d")
      wrong_drop session parsed-wrong_drop wrong_drop_name refl d_absent
