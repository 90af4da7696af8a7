-- ===== src/Tests/Queries.antt =====
-- Queries of findDocument at an index of four entries in memory.
use anu_db.Base.{
  ◌≡◌, refl, true, List, [], ◌∷◌, Bytes, codes, contains, lookup, keys, bytes_eq, ℕ_discrete, arith,
  find_sub, set_insert, Bytes-discrete, insert, keep_if, before, starts_with,
}
use anu_db.Exec.{returns, gives}
use anu_db.Json.{Json}
use anu_db.RocksDb.{RocksDb}
use anu_db.Engine.Names.{get_index_names}
use anu_db.Collection.{parse_value, index_cf_name}
use anu_db.Collection.Find.{find_document}
use anu_db.Collection.Find.Queries.{
  Condition, greater, lesser, Query, every, Asks, AsksForAll, Serves, meets, any_of,
}
use anu_db.Collection.Find.Meeting.{find_document-meets}
use anu_db.Tests.Memory.{memory}
use anu_db.Tests.MemoryLaws.{memory-IsLawful}
use anu_db.Tests.Scans.{store, index_found, index-IsLive, index-Marked}
use anu_db.Tests.Values.{
  values, object_of, array_of, when_kind, list_of, fields_of, payload, tag_of, kind_of,
  first_of_fields,
}

instance abbrev R : RocksDb
R = memory

instance abbrev J : Json
J = values

abbrev comparing : Bytes → Bytes → values.Value
comparing op text =
    values.object_value
      ((op, values.object_value ((codes "f", values.string_value text) ∷ [])) ∷ [])

abbrev above : Condition
above = record { comparison = greater; field = codes "f"; value = codes "a" }

abbrev below : Condition
below = record { comparison = lesser; field = codes "f"; value = codes "c" }

-- {"$and": [{"$gt": {"f": "a"}}, {"$lt": {"f": "c"}}]}
abbrev members : List (Bytes × values.Value)
members =
    (
      codes "$and",
      values.array_value
          (comparing (codes "$gt") (codes "a") ∷ comparing (codes "$lt") (codes "c") ∷ []),
    )
    ∷ []

abbrev between : Query
between = every ((above ∷ []) ∷ (below ∷ []) ∷ [])

Asks-above :
    Asks
      (codes "$gt", values.object_value ((codes "f", values.string_value (codes "a")) ∷ []))
      above
unfolding parse_value object_of when_kind fields_of payload tag_of kind_of first_of_fields
Asks-above = record {
  operator = refl;
  operand = values.string_value (codes "a");
  first = refl;
  parsed = refl;
  taken = refl;
}

Asks-below :
    Asks
      (codes "$lt", values.object_value ((codes "f", values.string_value (codes "c")) ∷ []))
      below
unfolding parse_value object_of when_kind fields_of payload tag_of kind_of first_of_fields
Asks-below = record {
  operator = refl;
  operand = values.string_value (codes "c");
  first = refl;
  parsed = refl;
  taken = refl;
}

AsksForAll-between : AsksForAll members (between ∷ [])
unfolding object_of array_of when_kind list_of fields_of payload tag_of kind_of
AsksForAll-between =
    ((refl, refl, (_, refl, (Asks-above, tt), (_, refl, (Asks-below, tt), tt))), tt)

read_members : values.items (values.object_value members) ≡ gives members
unfolding object_of array_of when_kind fields_of payload tag_of
read_members = refl

field-Serves : Serves memory-IsLawful (codes "c") store 5 (codes "f")
unfolding get_index_names bytes_eq Bytes-discrete ℕ_discrete lookup keys find_sub set_insert
    index_cf_name memory-IsLawful insert
field-Serves = record {
  listed = refl;
  handle = 1;
  found = index_found;
  live = index-IsLive;
  enough = omega arith;
  marked = index-Marked;
}

shared : meets memory-IsLawful (codes "c") store (codes "2") between ≡ true
unfolding lookup index_cf_name memory-IsLawful keep_if before starts_with bytes_eq
shared = refl

find_document-meets_example :
    (ids : List Bytes) × (find_document (codes "c") 5 (values.object_value members) store
      ≡ (returns ids, store))
    × ((x : Bytes)
        → contains ids x ≡ any_of (meets memory-IsLawful (codes "c") store x) (between ∷ []))
find_document-meets_example =
    find_document-meets memory-IsLawful (codes "c") 5 store (values.object_value members) members
      (between ∷ []) read_members AsksForAll-between
      (((field-Serves, (field-Serves, tt)), (codes "2", shared)), tt)
