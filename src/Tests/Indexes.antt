-- ===== src/Tests/Indexes.antt =====
-- An index of the field "_id" over a collection of one document.
use anu_db.Base.{
  ◌<◌, ◌≡◌, refl, ap, sym, ◌∙◌, ◌≢◌, inl, inr, true, before, Bytes, ◌↔◌, contains, starts_with,
  ◌++◌, List, [], ◌∷◌, some, codes, bytes_eq, insert, lookup, keys, find_sub, set_insert, arith,
  Bool-cases, eq_sound, length, ◌==◌,
}
use anu_db.Status
use anu_db.Exec.{returns, stops, gives}
use anu_db.Json.{Json}
use anu_db.RocksDb.{RocksDb}
use anu_db.RocksDb.Table.{Entry, put_entry}
use anu_db.Engine.{Engine, create_collection, put, put_index}
use anu_db.Engine.Names.{get_index_names}
use anu_db.Engine.Tables.{IsConsistent, table_of}
use anu_db.Engine.Entries.{entry}
use anu_db.Document.{Document, has_field, set_value, from_msgpack, to_msgpack}
use anu_db.Document.Stored.{from_msgpack-to_msgpack}
use anu_db.Collection.{index_cf_name, index_key, parse_value, mark}
use anu_db.Collection.Find.{find_document}
use anu_db.Collection.Find.Indexed.{find_document-create_index}
use anu_db.Collection.Documents.{create_document}
use anu_db.Collection.Indexes.{create_index}
use anu_db.Collection.Indexes.Building.{Apart}
use anu_db.Collection.Indexes.Complete.{IsIn}
use anu_db.Collection.Indexes.Sourced.{Keyed, create_index_holds}
use anu_db.Collection.Indexes.Ending.{create_index_ends}
use anu_db.Cursor.{create_cursor, current, next}
use anu_db.Tests.Documents.{with_document, stored_document, document_stored}
use anu_db.Tests.Memory.{memory, answer, changed}
use anu_db.Tests.MemoryLaws.{memory-IsLawful}
use anu_db.Tests.Values.{
  values, values-IsLawful, when_kind, object_of, or_null, find_in, set_in, fields_of, payload,
  tag_of, first_of_fields, kind_of,
}

instance abbrev R : RocksDb
R = memory

instance abbrev J : Json
J = values

table :
    table_of memory-IsLawful (codes "c") with_document
    ≡ some ((codes "7", to_msgpack stored_document) ∷ [])
unfolding create_collection create_document set_value get_index_names when_kind object_of or_null
    find_in set_in bytes_eq insert lookup keys find_sub set_insert index_key put_index index_cf_name
    put answer changed put_entry to_msgpack memory-IsLawful
table = refl

abbrev indexed : Engine memory
indexed = (create_index (codes "c") 2 (codes "_id") with_document).1

created :
    (create_collection (index_cf_name (codes "c") (codes "_id")) with_document).0
    ≡ returns Status.ok
unfolding create_collection create_document set_value get_index_names when_kind object_of or_null
    find_in set_in bytes_eq insert lookup keys find_sub set_insert index_key put_index index_cf_name
    put answer changed put_entry to_msgpack
created = refl

indexed_ok : (create_index (codes "c") 2 (codes "_id") with_document).0 ≡ returns Status.ok
unfolding create_collection create_document set_value get_index_names when_kind object_of or_null
    find_in set_in bytes_eq insert lookup keys find_sub set_insert index_key put_index index_cf_name
    put answer changed put_entry to_msgpack create_index create_cursor current next from_msgpack
    has_field
indexed_ok = refl

-- The document is the only one.
only :
    (d : Document values)
    → IsIn memory-IsLawful (codes "c") (codes "_id") with_document d
    → d ≡ stored_document
unfolding values-IsLawful lookup
only d (id, v, q, g) = elim (Bool-cases (id == codes "7")) [
  | inl same ↦
      let stored : some (to_msgpack stored_document) ≡ some v =
        sym document_stored.1
        ∙ ap (λ k. entry memory-IsLawful (codes "c") k with_document)
            (sym (eq_sound id (codes "7") same))
        ∙ q in
      let v_is : to_msgpack stored_document ≡ v = ground (arith, stored) in
      let read : gives stored_document ≡ gives d =
        sym (from_msgpack-to_msgpack values-IsLawful stored_document) ∙ ap from_msgpack v_is ∙ g in
      sym (ground (arith, read))
  | inr other ↦ absurd (let f = rw table at q in ground (arith, f, other))
]

apart :
    Apart memory-IsLawful
      (codes "c")
      (codes "_id")
      (IsIn memory-IsLawful (codes "c") (codes "_id") with_document)
apart d d' x x' k p p' f f' g g' = ap (λ e. e.id) (only d p) ∙ sym (ap (λ e. e.id) (only d' p'))

create_index_holds_example :
    IsConsistent memory-IsLawful indexed
    × ((k id : Bytes)
        → (entry memory-IsLawful (index_cf_name (codes "c") (codes "_id")) k indexed ≡ some id) ↔ (
            (d : Document values) × IsIn memory-IsLawful (codes "c") (codes "_id") with_document d
            × Keyed memory-IsLawful (codes "c") (codes "_id") k id d))
create_index_holds_example =
    create_index_holds memory-IsLawful (codes "c") (codes "_id") 2 Status.ok Status.ok with_document
      indexed document_stored.0 apart created refl (ap (λ r. (r, indexed)) indexed_ok) refl

fits :
    (es : List Entry) → table_of memory-IsLawful (codes "c") with_document ≡ some es → length es < 2
fits es q =
    let t : some ((codes "7", to_msgpack stored_document) ∷ []) ≡ some es = sym table ∙ q in
    let es_is : (codes "7", to_msgpack stored_document) ∷ [] ≡ es = ground (arith, t) in
    rw (← es_is) (omega arith)

create_index_ends_example : (create_index (codes "c") 2 (codes "_id") with_document).0 ≢ stops
create_index_ends_example =
    create_index_ends ⦃J = J⦄ (codes "c") (codes "_id") memory-IsLawful 2 Status.ok with_document
      document_stored.0 created refl (omega arith) fits

-- {"$eq": {"_id": "7"}}
abbrev operand : values.Value
operand = values.object_value ((codes "_id", values.string_value (codes "7")) ∷ [])

abbrev filter : values.Value
filter = values.object_value ((codes "$eq", operand) ∷ [])

members : values.items filter ≡ gives ((codes "$eq", operand) ∷ [])
unfolding when_kind object_of fields_of payload tag_of
members = refl

first : values.first_item operand ≡ gives (some (codes "_id", values.string_value (codes "7")))
unfolding when_kind object_of fields_of payload tag_of first_of_fields
first = refl

parsed : parse_value (values.string_value (codes "7")) ≡ gives (codes "7")
unfolding parse_value when_kind payload tag_of kind_of
parsed = refl

listed : contains (get_index_names (codes "c") indexed) (codes "_id") ≡ true
unfolding create_collection create_document set_value get_index_names when_kind object_of or_null
    find_in set_in bytes_eq insert lookup keys find_sub set_insert index_key put_index index_cf_name
    put answer changed put_entry to_msgpack create_index create_cursor current next from_msgpack
    has_field before
listed = refl

index_table :
    table_of memory-IsLawful (index_cf_name (codes "c") (codes "_id")) indexed
    ≡ some ((codes "7#7", codes "7") ∷ [])
unfolding create_collection create_document set_value get_index_names when_kind object_of or_null
    find_in set_in bytes_eq insert lookup keys find_sub set_insert index_key put_index index_cf_name
    put answer changed put_entry to_msgpack create_index create_cursor current next from_msgpack
    has_field memory-IsLawful
index_table = refl

find_document-create_index_example :
    (ids : List Bytes) × (find_document (codes "c") 2 filter indexed ≡ (returns ids, indexed))
    × ((id : Bytes)
        → (contains ids id ≡ true) ↔ (
            (k : Bytes) × (starts_with k (codes "7" ++ mark) ≡ true)
            × ((d : Document values) × IsIn memory-IsLawful
                  (codes "c")
                  (codes "_id")
                  with_document
                  d
                × Keyed memory-IsLawful (codes "c") (codes "_id") k id d)))
find_document-create_index_example =
    find_document-create_index memory-IsLawful (codes "c") (codes "_id") 2 Status.ok Status.ok
      with_document indexed document_stored.0 apart created refl (ap (λ r. (r, indexed)) indexed_ok)
      refl 2 ((codes "7#7", codes "7") ∷ []) listed index_table (omega arith) filter operand
      (values.string_value (codes "7")) (codes "7") members first parsed
