-- ===== src/Tests/Documents.antt =====
-- A document that is created, stored and read in a small store in memory.
use anu_db.Base.{
  ◌≡◌, refl, true, [], ◌∷◌, some, Bytes, codes, lookup, bytes_eq, find_sub, keys, set_insert,
  insert, contains,
}
use anu_db.Status
use anu_db.Status.{Status, is_ok}
use anu_db.Exec.{returns, gives}
use anu_db.Json.{Json}
use anu_db.RocksDb.{RocksDb}
use anu_db.Engine.{Engine, create_collection, put, put_index}
use anu_db.Engine.Names.{get_index_names}
use anu_db.Engine.Tables.{IsConsistent}
use anu_db.Engine.Entries.{entry}
use anu_db.Document.{Document, has_field, to_msgpack, from_msgpack, set_value}
use anu_db.Document.Stored.{from_msgpack-to_msgpack}
use anu_db.Collection.{Chance, index_cf_name, index_key}
use anu_db.Collection.Documents.{create_document}
use anu_db.Collection.Documents.Storing.{Indexed, create_document_stores}
use anu_db.Tests.Stores.{with_index, with_index-IsConsistent}
use anu_db.Tests.Memory.{memory}
use anu_db.Tests.Stores.{with_index, with_index-IsConsistent}
use anu_db.Tests.MemoryLaws.{memory-IsLawful}
use anu_db.Tests.Values.{values, values-IsLawful, find_in, object_of, set_in, when_kind}

instance abbrev R : RocksDb
R = memory

instance abbrev J : Json
J = values

-- A document with the field "f", before and after it has its "_id".
abbrev pub document : Document values
document = record {
  id = codes "7";
  data_value = J.object_value ((codes "f", J.string_value (codes "x")) ∷ []);
}

abbrev pub stored_document : Document values
stored_document = record {
  id = codes "7";
  data_value =
      J.object_value
        ((codes "f", J.string_value (codes "x")) ∷ (codes "_id", J.string_value (codes "7")) ∷ []);
}

abbrev pub chance : Chance
chance = record { seconds = 0; draw_a = 0; draw_b = 0; draw_c = 0; draw_d = 0 }

abbrev pub with_document : Engine memory
with_document = (create_document (codes "c") chance document with_index).1

pub document_created :
    create_document (codes "c") chance document with_index
    ≡ (returns (Status.ok, stored_document), with_document)
unfolding create_document find_in object_of bytes_eq set_value set_in get_index_names keys
    create_collection find_sub set_insert index_key when_kind put_index index_cf_name put
document_created = refl

create_document_stores_example :
    IsConsistent memory-IsLawful with_document
    × (entry memory-IsLawful (codes "c") (codes "7") with_document
        ≡ some (to_msgpack stored_document))
    × ((i : Bytes)
        → contains (get_index_names (codes "c") with_index) i ≡ true
        → has_field i stored_document ≡ true
        → Indexed memory-IsLawful (codes "c") stored_document i with_document)
create_document_stores_example =
    create_document_stores memory-IsLawful (codes "c") chance document stored_document Status.ok
      with_index with_document with_index-IsConsistent document_created refl

-- The index "f" is one of those that the last part is about.
index_names : get_index_names (codes "c") with_index ≡ codes "f" ∷ []
unfolding get_index_names keys create_collection find_sub set_insert bytes_eq lookup insert
index_names = refl

pub document_stored :
    IsConsistent memory-IsLawful with_document
    × (entry memory-IsLawful (codes "c") (codes "7") with_document
        ≡ some (to_msgpack stored_document))
document_stored =
    let (c, s, _) =
      create_document_stores memory-IsLawful (codes "c") chance document stored_document Status.ok
        with_index with_document with_index-IsConsistent document_created refl in
    (c, s)

from_msgpack-to_msgpack_example : from_msgpack (to_msgpack stored_document) ≡ gives stored_document
unfolding values-IsLawful
from_msgpack-to_msgpack_example = from_msgpack-to_msgpack values-IsLawful stored_document
