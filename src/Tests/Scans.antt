-- ===== src/Tests/Scans.antt =====
-- The fetches at an index of four entries in memory.
use anu_db.Base.{
  ◌≡◌, refl, true, List, [], ◌∷◌, some, Bytes, codes, lookup, bytes_eq, ℕ_discrete, arith, before,
  find_sub, starts_with, Bytes-discrete, reverse, ◌++◌,
}
use anu_db.Status
use anu_db.Status.{Status}
use anu_db.Exec.{returns}
use anu_db.RocksDb.Table.{Entry}
use anu_db.Engine.{Engine}
use anu_db.Engine.Scan.{
  fetch_for_equal, fetch_for_greater, fetch_for_lesser, fetch_by_order, key_has_mark,
}
use anu_db.Engine.Scan.Loops.{Marked}
use anu_db.Engine.Scan.Fetch.{fetches_split}
use anu_db.Tests.Memory.{memory}
use anu_db.Tests.MemoryLaws.{IsLive, memory-IsLawful}

abbrev pub index_name : Bytes
index_name = codes "c__index__f"

abbrev pub index_table : List Entry
index_table =
    (codes "a#1", codes "1")
    ∷ (codes "b#2", codes "2")
    ∷ (codes "b#4", codes "4")
    ∷ (codes "c#3", codes "3")
    ∷ []

abbrev pub store : Engine memory
store = record {
  world = record { tables = λ h. index_table; in_use = λ h. true; next_handle = 2 };
  db_set = true;
  column_families = (codes "c", 0) ∷ (index_name, 1) ∷ [];
  owned_handles = [];
}

pub index_found : lookup index_name store.column_families ≡ some 1
unfolding lookup bytes_eq Bytes-discrete ℕ_discrete
index_found = refl

pub index-IsLive : IsLive store.world 1
unfolding before
index-IsLive = record {
  used = refl;
  given = omega arith;
  ordered = ((refl, (refl, (refl, tt))), ((refl, (refl, tt)), ((refl, tt), (tt, tt))));
}

pub index-Marked : Marked index_table
unfolding key_has_mark find_sub starts_with
index-Marked = (refl, (refl, (refl, (refl, tt))))

fetches_split_example :
    (lesser equal greater : List Bytes) × (fetch_for_lesser ⦃R = memory⦄ 5 index_name
        (codes "b#")
        []
        store
      ≡ returns (Status.ok, lesser))
    × (fetch_for_equal ⦃R = memory⦄ 5 index_name (codes "b#") [] store ≡ returns (Status.ok, equal))
    × (fetch_for_greater ⦃R = memory⦄ 5 index_name (codes "b#") [] store
        ≡ returns (Status.ok, greater))
    × (fetch_by_order ⦃R = memory⦄ 5 index_name (codes "asc") [] store
        ≡ returns (Status.ok, reverse lesser ++ (equal ++ greater)))
unfolding memory-IsLawful
fetches_split_example =
    fetches_split ⦃R = memory⦄ memory-IsLawful store index_name 1 index_found index-IsLive 5
      (omega arith) (codes "b#") index-Marked
