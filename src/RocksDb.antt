-- ===== src/RocksDb.antt =====
-- The calls of RocksDB that the code makes, as a parameter, and what it relies on.
pub mod Table
pub mod Contract
use anu_db.Base.{Bool, List, Bytes}

-- rocksdb::Status, with what ToString() says.
pub data RocksStatus : Type 0 where
  fine : RocksStatus
  missing : Bytes → RocksStatus
  failed : Bytes → RocksStatus

-- A `World` is an open or closed database with its files; a call returns its status, its result and
-- the world after it. An iterator's call returns the iterator that was moved.
pub record RocksDb : Type 1 where
  pub World : Type 0
  pub Handle : Type 0
  pub Iterator : Type 0
  pub default_column_family : Bytes
  pub list_column_families : World → List Bytes
  pub open_db : World → List Bytes → RocksStatus × List Handle × World
  pub close_db : World → RocksStatus × World
  pub flush : World → Handle → RocksStatus × World
  pub sync_wal : World → RocksStatus × World
  pub destroy_handle : World → Handle → World
  pub create_column_family : World → Bytes → RocksStatus × Handle × World
  pub drop_column_family : World → Handle → RocksStatus × World
  pub put : World → Handle → Bytes → Bytes → RocksStatus × World
  pub get : World → Handle → Bytes → RocksStatus × Bytes
  pub delete : World → Handle → Bytes → RocksStatus × World
  pub new_iterator : World → Handle → Iterator
  pub seek_to_first : Iterator → Iterator
  pub seek_to_last : Iterator → Iterator
  pub seek : Iterator → Bytes → Iterator
  pub seek_for_prev : Iterator → Bytes → Iterator
  pub next : Iterator → Iterator
  pub prev : Iterator → Iterator
  pub valid : Iterator → Bool
  pub key : Iterator → Bytes
  pub value : Iterator → Bytes
