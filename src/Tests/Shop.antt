-- ===== src/Tests/Shop.antt =====
-- The demonstration program: a run of main() on a new database in memory.
use anu_db.Engine
use anu_db.Database
use anu_db.Base.{ℕ, true, false, [], none, codes}
use anu_db.Json.{Json}
use anu_db.RocksDb.{RocksDb}
use anu_db.Engine.Export.{Disk, Stat}
use anu_db.Collection.{Chance}
use anu_db.Collection.Exporting.{Thread}
use anu_db.Demo.{Demo, Outside}
use anu_db.Demo.Main.{main}
use anu_db.Tests.Documents.{chance}
use anu_db.Tests.Memory.{memory}
use anu_db.Tests.Values.{values}

instance abbrev R : RocksDb
R = memory

instance abbrev J : Json
J = values

abbrev chances : ℕ → Chance
chances n = chance

abbrev disk : Disk
disk = record {
  stat_of = λ path. Stat.directory;
  can_make = λ path. true;
  can_open = λ path. true;
  cut = λ old text. none;
  iterator_ok = true;
  can_rename = true;
}

abbrev outside : Outside values
outside = record {
  fuel = 5;
  chance = chances;
  disk = disk;
  dump_indented = values.dump;
  early = true;
  cplusplus = codes "201703";
}

-- The database before its first run.
abbrev fresh : Demo memory
fresh = record {
  database = record {
    is_db_open = false;
    engine = record {
      world = record { tables = λ h. []; in_use = λ h. false; next_handle = 0 };
      db_set = false;
      column_families = [];
      owned_handles = [];
    };
    collections = [];
  };
  exporting = record {
    thread = Thread.idle;
    files = record { dump_file = none; final_file = none; bad = false };
  };
  out = [];
  err = [];
}

abbrev ended : Demo memory
ended = (main outside fresh).1

abbrev exit_code : ℕ
exit_code = 0
