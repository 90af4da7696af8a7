-- ===== src/Tests/Clients.antt =====
-- A client that creates a document, updates and deletes it, and makes it again by an update.
use anu_db.Base.{
  ◌≡◌, refl, true, false, List, [], ◌∷◌, Bytes, codes, bytes_eq, insert, lookup, keys, find_sub,
  set_insert, before,
}
use anu_db.Exec.{returns, for_each}
use anu_db.Json.{Json}
use anu_db.RocksDb.{RocksDb}
use anu_db.RocksDb.Table.{put_entry, delete_entry}
use anu_db.Engine.{create_collection, put, put_index, get, remove}
use anu_db.Engine.Names.{get_index_names}
use anu_db.Engine.Tables.{IsConsistent}
use anu_db.Engine.Entries.{entry}
use anu_db.Document.{set_value, from_msgpack, to_msgpack}
use anu_db.Collection.{index_cf_name, index_key}
use anu_db.Collection.Documents.{create_document, delete_document, read_document, update_document}
use anu_db.Document.Update.{apply_update}
use anu_db.Collection.Documents.Edits.{Edit, create, delete, update, run, replay}
use anu_db.Collection.Documents.Replay.{run_refines}
use anu_db.Tests.Stores.{with_index, with_index-IsConsistent}
use anu_db.Tests.Documents.{chance, document}
use anu_db.Tests.Memory.{memory, answer, changed}
use anu_db.Tests.MemoryLaws.{memory-IsLawful}
use anu_db.Tests.Values.{values, when_kind, object_of, or_null, find_in, set_in}

instance abbrev R : RocksDb
R = memory

instance abbrev J : Json
J = values

abbrev edits : List (Edit values)
edits =
    create chance document
    ∷ update chance (codes "7") (J.object_value []) false
    ∷ delete (codes "7")
    ∷ update chance (codes "7") (J.object_value []) true
    ∷ []

edits_done : (run (codes "c") edits with_index).0 ≡ returns true
unfolding run create_collection create_document set_value get_index_names when_kind object_of
    or_null find_in set_in bytes_eq insert lookup keys find_sub set_insert index_key put_index
    index_cf_name put delete_document read_document get remove answer changed put_entry from_msgpack
    to_msgpack update_document apply_update for_each before delete_entry
edits_done = refl

run_refines_example :
    IsConsistent memory-IsLawful (run (codes "c") edits with_index).1
    × ((j : Bytes)
        → entry memory-IsLawful (codes "c") j (run (codes "c") edits with_index).1
          ≡ replay (codes "c") edits (λ i. entry memory-IsLawful (codes "c") i with_index) j)
run_refines_example =
    run_refines memory-IsLawful (codes "c") edits with_index with_index-IsConsistent edits_done
