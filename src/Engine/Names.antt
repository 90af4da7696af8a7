-- ===== src/Engine/Names.antt =====
-- src/storage_engine/StorageEngine.cpp: getCollectionNames and getIndexNames, which read the names of
-- the column families. An index of field f of collection c is the family `c__index__f`.
use anu_db.Base.{
  ℕ, ◌+◌, Bool, List, [], ◌∷◌, Option, none, some, Bytes, Dict, lookup, insert, keys, set_insert,
  length, take, drop, find_sub, if◌then◌else◌, ◌==◌, bytes_eq,
}
use anu_db.RocksDb.{RocksDb}
use anu_db.Engine.{Engine, index_delimiter}

-- `substr(0, pos)` and `substr(pos + index_delimiter_.length())`.
abbrev split_at : ℕ → Bytes → Bytes × Bytes
split_at pos name = (take pos name, drop (pos + length index_delimiter) name)

-- The collection and the field of an index's family; `none` for other families.
unfoldable pub index_parts : Bytes → Option (Bytes × Bytes)
index_parts name = elim (find_sub index_delimiter name) [
  | none ↦ none
  | some pos ↦ some (split_at pos name)
]

-- `index[collectionName].insert(indexName)`, where operator[] makes a missing set.
add_index : Bytes × Bytes → Dict (List Bytes) → Dict (List Bytes)
add_index (c, f) index = elim (lookup c index) [
  | none ↦ insert c (set_insert f []) index
  | some fs ↦ insert c (set_insert f fs) index
]

add_if_index : Bool → Option (Bytes × Bytes) → Dict (List Bytes) → Dict (List Bytes)
unfolding add_index
add_if_index is_default none index = index
add_if_index is_default (some parts) index = if is_default then index else add_index parts index

-- The loop over the families.
index_map : Bytes → List Bytes → Dict (List Bytes) → Dict (List Bytes)
unfolding add_if_index index_parts
index_map default [] index = index
index_map default (n ∷ ns) index =
    index_map default ns (add_if_index (n == default) (index_parts n) index)

abbrev or_empty : Option (List Bytes) → List Bytes
or_empty none = []
or_empty (some fs) = fs

collection_names : Bytes → List Bytes → List Bytes
unfolding index_parts
collection_names default [] = []
collection_names default (n ∷ ns) =
    let rest = collection_names default ns in
    if n == default
    then rest
    else elim (find_sub index_delimiter n) [ none ↦ n ∷ rest | some pos ↦ rest ]

module _ ⦃R : RocksDb⦄ where
  unfoldable pub get_collection_names : Engine R → List Bytes
  unfolding collection_names
  get_collection_names e = collection_names R.default_column_family (keys e.column_families)

  unfoldable pub get_index_names : Bytes → Engine R → List Bytes
  unfolding index_map
  get_index_names c e =
      or_empty (lookup c (index_map R.default_column_family (keys e.column_families) []))
