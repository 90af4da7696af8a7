-- ===== src/Tests/Stores.antt =====
-- Writes, families and documents at a small store in memory.
use anu_db.Base.{
  ◌≡◌, refl, true, false, [], some, none, Bytes, codes, lookup, bytes_eq, ℕ_discrete, arith,
  Bytes-discrete, insert, ◌⊎◌, ℕ,
}
use anu_db.Status
use anu_db.Status.{Status, is_ok}
use anu_db.Exec.{returns}
use anu_db.Json.{Json}
use anu_db.RocksDb.{RocksDb, failed}
use anu_db.Engine.{
  Engine, open_engine, close_engine, create_collection, drop_collection, put, remove, get,
}
use anu_db.Engine.Lifecycle.{Reaches-IsConsistent, start, after, opens, creates, puts, closes}
use anu_db.Engine.Tables.{IsConsistent, table_of, put-IsConsistent}
use anu_db.Engine.Families.{
  create_collection-IsConsistent, table_of-create_collection, table_of-drop_collection,
}
use anu_db.Engine.Entries.{entry, entry-put, entry-remove, get_cases}
use anu_db.Tests.Memory.{memory}
use anu_db.Tests.MemoryLaws.{memory-IsLawful}
use anu_db.Tests.Values.{values}

instance abbrev R : RocksDb
R = memory

instance abbrev J : Json
J = values

abbrev pub fresh : Engine memory
fresh = record {
  world = record { tables = λ h. []; in_use = λ h. false; next_handle = 0 };
  db_set = true;
  column_families = [];
  owned_handles = [];
}

fresh-IsConsistent : IsConsistent memory-IsLawful fresh
unfolding lookup
fresh-IsConsistent = record {
  has_db = λ n h f. refl;
  live = λ n h f. absurd (ground arith);
  distinct = λ m n h f g. absurd (ground arith);
}

abbrev pub with_collection : Engine memory
with_collection = (create_collection (codes "c") fresh).1

created_ok : (create_collection (codes "c") fresh).0 ≡ returns Status.ok
unfolding create_collection lookup
created_ok = refl

table_of-create_collection_example :
    (table_of memory-IsLawful (codes "c") fresh ≡ none)
    × (table_of memory-IsLawful (codes "c") with_collection ≡ some [])
unfolding bytes_eq Bytes-discrete ℕ_discrete
table_of-create_collection_example =
    table_of-create_collection memory-IsLawful (codes "c") fresh fresh-IsConsistent (codes "c")
      Status.ok created_ok refl

with_collection-IsConsistent : IsConsistent memory-IsLawful with_collection
with_collection-IsConsistent =
    create_collection-IsConsistent memory-IsLawful (codes "c") fresh fresh-IsConsistent Status.ok
      created_ok refl

-- The collection with an index of the field "f".
abbrev pub with_index : Engine memory
with_index = (create_collection (codes "c__index__f") with_collection).1

index_created_ok : (create_collection (codes "c__index__f") with_collection).0 ≡ returns Status.ok
unfolding create_collection lookup insert bytes_eq Bytes-discrete ℕ_discrete
index_created_ok = refl

pub with_index-IsConsistent : IsConsistent memory-IsLawful with_index
with_index-IsConsistent =
    create_collection-IsConsistent memory-IsLawful (codes "c__index__f") with_collection
      with_collection-IsConsistent Status.ok index_created_ok refl

dropped_ok : (drop_collection (codes "c__index__f") with_index).0 ≡ returns Status.ok
unfolding drop_collection create_collection lookup insert bytes_eq Bytes-discrete ℕ_discrete
dropped_ok = refl

table_of-drop_collection_example :
    table_of memory-IsLawful
      (codes "c__index__f")
      (drop_collection (codes "c__index__f") with_index).1
    ≡ none
unfolding bytes_eq Bytes-discrete ℕ_discrete
table_of-drop_collection_example =
    table_of-drop_collection memory-IsLawful (codes "c__index__f") with_index
      with_index-IsConsistent (codes "c__index__f") Status.ok dropped_ok refl

put_k_ok : (put (codes "c") (codes "k") (codes "v") with_index).0 ≡ returns Status.ok
unfolding put create_collection lookup insert bytes_eq Bytes-discrete ℕ_discrete
put_k_ok = refl

entry-put_example :
    entry memory-IsLawful
      (codes "c")
      (codes "k")
      (put (codes "c") (codes "k") (codes "v") with_index).1
    ≡ some (codes "v")
unfolding bytes_eq Bytes-discrete ℕ_discrete
entry-put_example =
    entry-put memory-IsLawful (codes "c") with_index with_index-IsConsistent Status.ok (codes "k")
      (codes "v") (codes "c") (codes "k") put_k_ok refl

-- A store with one entry.
abbrev with_entry : Engine memory
with_entry = (put (codes "c") (codes "k") (codes "v") with_index).1

with_entry-IsConsistent : IsConsistent memory-IsLawful with_entry
with_entry-IsConsistent =
    put-IsConsistent memory-IsLawful (codes "c") with_index with_index-IsConsistent (codes "k")
      (codes "v")

remove_k_ok : (remove (codes "c") (codes "k") with_entry).0 ≡ returns Status.ok
unfolding remove put create_collection lookup insert bytes_eq Bytes-discrete ℕ_discrete
remove_k_ok = refl

entry-remove_example :
    entry memory-IsLawful (codes "c") (codes "k") (remove (codes "c") (codes "k") with_entry).1
    ≡ none
unfolding bytes_eq Bytes-discrete ℕ_discrete
entry-remove_example =
    entry-remove memory-IsLawful (codes "c") with_entry with_entry-IsConsistent Status.ok
      (codes "k") (codes "c") (codes "k") remove_k_ok refl

get_cases_example :
    ((v : Bytes) × (entry memory-IsLawful (codes "c") (codes "k") with_entry ≡ some v)
      × (get (codes "c") (codes "k") with_entry ≡ (Status.ok, v)))
    ⊎ ((entry memory-IsLawful (codes "c") (codes "k") with_entry ≡ none)
        × ((m : Bytes) × (get (codes "c") (codes "k") with_entry ≡ (Status.not_found m, []))))
    ⊎ ((h : ℕ) × (m : Bytes) × (lookup (codes "c") with_entry.column_families ≡ some h)
        × ((memory.get with_entry.world h (codes "k")).0 ≡ failed m)
        × (get (codes "c") (codes "k") with_entry ≡ (Status.io_error m, [])))
get_cases_example =
    get_cases memory-IsLawful (codes "c") (codes "k") with_entry with_entry-IsConsistent

-- A database that was never open.
abbrev unopened : Engine memory
unopened = record fresh { db_set = false; column_families = []; owned_handles = [] }

Reaches-IsConsistent_example :
    IsConsistent memory-IsLawful
      (close_engine
        (put
          (codes "c")
          (codes "k")
          (codes "v")
          (create_collection (codes "c") (open_engine unopened).1).1).1).1
Reaches-IsConsistent_example = Reaches-IsConsistent memory-IsLawful refl (
    after
      (after (after (after start (opens refl)) (creates (codes "c")))
        (puts (codes "c") (codes "k") (codes "v")))
      closes)
