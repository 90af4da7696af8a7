-- ===== src/Tests/Imports.antt =====
-- An array of two objects that is imported, one of them without "_id".
use anu_db.Base.{
  ℕ, ◌≡◌, refl, List, [], ◌∷◌, Bytes, codes, bytes_eq, insert, lookup, keys, find_sub, set_insert,
  before, length,
}
use anu_db.Exec.{returns}
use anu_db.Json.{Json}
use anu_db.RocksDb.{RocksDb}
use anu_db.RocksDb.Table.{put_entry}
use anu_db.Engine.{Engine, create_collection, put, put_index}
use anu_db.Engine.Names.{get_index_names}
use anu_db.Engine.Tables.{IsConsistent}
use anu_db.Engine.Entries.{entry}
use anu_db.Document.{set_value, to_msgpack}
use anu_db.Collection.{Chance, index_cf_name, index_key}
use anu_db.Collection.Documents.{create_document}
use anu_db.Collection.Documents.Edits.{replay}
use anu_db.Collection.Documents.Holding.{contents}
use anu_db.Collection.Import.{Counts, import_items, to_string}
use anu_db.Collection.Import.Contents.{creations, import_items_lem}
use anu_db.Tests.Stores.{with_index, with_index-IsConsistent}
use anu_db.Tests.Documents.{chance}
use anu_db.Tests.Memory.{memory, answer, changed}
use anu_db.Tests.MemoryLaws.{memory-IsLawful}
use anu_db.Tests.Values.{
  values, when_kind, object_of, or_null, find_in, set_in, kind_of, tag_of, payload,
}

instance abbrev R : RocksDb
R = memory

instance abbrev J : Json
J = values

abbrev chances : ℕ → Chance
chances n = chance

-- [{"_id": "7", "f": "x"}, {"f": "y"}]
abbrev items : List values.Value
items =
    values.object_value (
      (codes "_id", values.string_value (codes "7"))
      ∷ (codes "f", values.string_value (codes "x"))
      ∷ [])
    ∷ values.object_value ((codes "f", values.string_value (codes "y")) ∷ [])
    ∷ []

abbrev none_yet : Counts
none_yet = record { successes = 0; failures = 0 }

abbrev both : Counts
both = record { successes = 2; failures = 0 }

abbrev imported : Engine memory
imported = (import_items (codes "c") chances items none_yet with_index).1

both_stored : import_items (codes "c") chances items none_yet with_index ≡ (returns both, imported)
unfolding import_items to_string create_collection create_document set_value get_index_names
    when_kind object_of or_null find_in set_in bytes_eq insert lookup keys find_sub set_insert
    index_key put_index index_cf_name put answer changed put_entry to_msgpack before kind_of tag_of
    payload
both_stored = refl

import_items_lem_example :
    (◌≡◌ {A = ℕ} 2 (length items))
    × IsConsistent memory-IsLawful imported
    × ((j : Bytes)
        → entry memory-IsLawful (codes "c") j imported
          ≡ replay
              (codes "c")
              (creations chances 0 items)
              (contents memory-IsLawful (codes "c") with_index)
              j)
import_items_lem_example =
    import_items_lem memory-IsLawful (codes "c") chances items both with_index imported
      with_index-IsConsistent both_stored refl
