-- ===== src/Tests/Exports.antt =====
-- An export of a collection of one document.
use anu_db.Base.{
  ◌≡◌, refl, true, false, List, [], ◌∷◌, ◌++◌, some, none, codes, lookup, bytes_eq, ℕ_discrete,
  Bytes-discrete, arith,
}
use anu_db.Status
use anu_db.Exec.{returns}
use anu_db.Json.{Json}
use anu_db.RocksDb.{RocksDb}
use anu_db.RocksDb.Table.{Entry}
use anu_db.Engine.{Engine}
use anu_db.Engine.Export.{Disk, Files, Stat, export_all_to_json, directory_of, rendered}
use anu_db.Engine.Export.Texts.{Renders, export_all_to_json_lem}
use anu_db.Tests.Memory.{memory}
use anu_db.Tests.MemoryLaws.{IsLive, memory-IsLawful}
use anu_db.Tests.Values.{values, when_kind, object_of, or_null, find_in}

instance abbrev R : RocksDb
R = memory

instance abbrev J : Json
J = values

abbrev table : List Entry
table =
    (
      codes "7",
      J.object_value (
          (codes "_id", J.string_value (codes "7"))
          ∷ (codes "data", J.string_value (codes "x"))
          ∷ []),
    )
    ∷ []

abbrev store : Engine memory
store = record {
  world = record { tables = λ h. table; in_use = λ h. true; next_handle = 1 };
  db_set = true;
  column_families = (codes "c", 0) ∷ [];
  owned_handles = [];
}

abbrev disk : Disk
disk = record {
  stat_of = λ path. Stat.directory;
  can_make = λ path. true;
  can_open = λ path. true;
  cut = λ old text. none;
  iterator_ok = true;
  can_rename = true;
}

abbrev no_files : Files
no_files = record { dump_file = none; final_file = none; bad = false }

path_read : directory_of (codes "out/db") ≡ some (codes "out")
unfolding directory_of
path_read = refl

store_found : lookup (codes "c") store.column_families ≡ some 0
unfolding lookup bytes_eq Bytes-discrete ℕ_discrete
store_found = refl

store-IsLive : IsLive store.world 0
store-IsLive = record { used = refl; given = omega arith; ordered = (tt, tt) }

store-Renders : Renders J.dump table (J.string_value (codes "x") ∷ [])
unfolding rendered when_kind object_of or_null find_in bytes_eq
store-Renders = (refl, tt)

export_all_to_json_example :
    export_all_to_json J.dump 2 store (codes "c") (codes "out/db") disk no_files ≡ (
      returns Status.ok,
      record {
        dump_file = none;
        final_file = some (codes "[\n" ++ (J.string_value (codes "x") ++ codes "\n]"));
        bad = false;
      },
    )
unfolding memory-IsLawful
export_all_to_json_example =
    export_all_to_json_lem J.dump memory-IsLawful 2 store (codes "c") (codes "out/db") (codes "out")
      disk 0 (J.string_value (codes "x") ∷ []) no_files path_read refl refl (λ o t. refl) refl refl
      store_found store-IsLive store-Renders (omega arith)
