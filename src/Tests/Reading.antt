-- ===== src/Tests/Reading.antt =====
-- Reading the documents of a collection of one document.
use anu_db.Base.{◌≡◌, true, [], ◌∷◌, codes, bytes_eq, insert, lookup, keys, find_sub, set_insert}
use anu_db.Status
use anu_db.Exec.{returns}
use anu_db.Json.{Json}
use anu_db.RocksDb.{RocksDb}
use anu_db.RocksDb.Table.{put_entry}
use anu_db.Engine.{create_collection, collection_exists, put, put_index}
use anu_db.Engine.Names.{get_index_names}
use anu_db.Document.{set_value, from_msgpack, to_msgpack}
use anu_db.Collection.{index_cf_name, index_key}
use anu_db.Collection.Documents.{create_document}
use anu_db.Database.{Database, read_all}
use anu_db.Database.Reading.{read_all_lem}
use anu_db.Tests.Documents.{with_document, stored_document, document_stored}
use anu_db.Tests.Memory.{memory, answer, changed}
use anu_db.Tests.MemoryLaws.{memory-IsLawful}
use anu_db.Tests.Values.{values, when_kind, object_of, or_null, find_in, set_in}

instance abbrev R : RocksDb
R = memory

instance abbrev J : Json
J = values

abbrev database : Database memory
database = record { is_db_open = true; engine = with_document; collections = [] }

read_all_lem_example :
    ((read_all (codes "c") [] database).0 ≡ returns (Status.ok, stored_document ∷ []))
    × ((read_all (codes "c") [] database).1.engine ≡ with_document)
unfolding create_collection create_document set_value get_index_names when_kind object_of or_null
    find_in set_in bytes_eq insert lookup keys find_sub set_insert index_key put_index index_cf_name
    put answer changed put_entry to_msgpack from_msgpack collection_exists memory-IsLawful
read_all_lem_example = read_all_lem memory-IsLawful (codes "c") [] database document_stored.0
