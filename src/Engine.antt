-- ===== src/Engine.antt =====
-- src/storage_engine/StorageEngine.{h,cpp}: the state of the engine and the operations on column
-- families and single keys. The options that the code sets for RocksDB tune its performance, and the
-- handles' owners only destroy them at close().
pub mod Names
pub mod Scan
pub mod Export
pub mod Tables
pub mod Families
pub mod Dropping
pub mod Opening
pub mod Lifecycle
pub mod Entries
use anu_db.Base.{
  Bool, true, false, List, [], ◌∷◌, ◌++◌, Option, none, some, Bytes, codes, Dict, lookup, insert,
  erase, map, if◌then◌else◌, ◌==◌, bytes_eq,
}
use anu_db.Status
use anu_db.Status.{Status}
use anu_db.Exec.{Exec, Result, returns, crashes, pure, crash, gets, ◌>>=◌, ◌>>◌}
use anu_db.RocksDb.{RocksDb, RocksStatus, fine, missing, failed}

pub record Engine (R : RocksDb) : Type 0 where
  pub world : R.World
  -- Whether `db_` is no null pointer.
  pub db_set : Bool
  pub column_families : Dict R.Handle
  pub owned_handles : List R.Handle

abbrev pub index_delimiter : Bytes
index_delimiter = codes "__index__"

abbrev no_collection : Bytes → Status
no_collection name = Status.not_found (codes "Collection not found: " ++ name)

-- What a write's RocksDB status becomes.
abbrev written : RocksStatus → Status
written fine = Status.ok
written (missing m) = Status.io_error m
written (failed m) = Status.io_error m

-- A missing key is no error of remove().
abbrev removed : RocksStatus → Status
removed fine = Status.ok
removed (missing m) = Status.ok
removed (failed m) = Status.io_error m

-- get() leaves `*value` as it was, here empty, unless it finds the key.
got : Bytes → RocksStatus × Bytes → Status × Bytes
got k (fine, v) = (Status.ok, v)
got k (missing m, v) = (Status.not_found (codes "Key not found: " ++ k), [])
got k (failed m, v) = (Status.io_error m, [])

module _ ⦃R : RocksDb⦄ where
  abbrev with_world : Engine R → R.World → Engine R
  with_world e w = record e { world = w }

  -- `columnFamilies_[columnFamilies[i]] = handles[i]` for each i.
  store_handles : List Bytes → List R.Handle → Dict R.Handle → Dict R.Handle
  store_handles [] hs m = m
  store_handles (n ∷ ns) [] m = m
  store_handles (n ∷ ns) (h ∷ hs) m = store_handles ns hs (insert n h m)

  opened : List Bytes → RocksStatus × List R.Handle × R.World → Exec (Engine R) Status
  unfolding store_handles
  opened names (fine, hs, w) e = (
    returns Status.ok,
    record {
      world = w;
      db_set = true;
      column_families = store_handles names hs e.column_families;
      owned_handles = e.owned_handles ++ hs;
    },
  )
  opened names (missing m, hs, w) e = (returns (Status.io_error m), with_world e w)
  opened names (failed m, hs, w) e = (returns (Status.io_error m), with_world e w)

  -- Without families on the disk, the default one is opened.
  abbrev listed : List Bytes → List Bytes
  listed [] = R.default_column_family ∷ []
  listed (n ∷ ns) = n ∷ ns

  unfoldable pub open_engine : Exec (Engine R) Status
  unfolding opened
  open_engine e =
      let names = listed (R.list_column_families e.world) in
      opened names (R.open_db e.world names) e

  -- A failed flush or sync makes a status that the code drops.
  flush_all : Dict R.Handle → R.World → R.World
  flush_all [] w = w
  flush_all ((n, h) ∷ m) w = flush_all m (R.flush w h).1

  destroy_all : List R.Handle → R.World → R.World
  destroy_all [] w = w
  destroy_all (h ∷ hs) w = destroy_all hs (R.destroy_handle w h)

  closed : RocksStatus × R.World → Exec (Engine R) Status
  closed (fine, w) e = (returns Status.ok, record e { world = w; db_set = false })
  closed (missing m, w) e = (returns (Status.io_error m), with_world e w)
  closed (failed m, w) e = (returns (Status.io_error m), with_world e w)

  unfoldable pub close_engine : Exec (Engine R) Status
  unfolding flush_all destroy_all closed
  close_engine e =
      let w = destroy_all e.owned_handles (R.sync_wal (flush_all e.column_families e.world)).1 in
      let cleared = record e { column_families = []; owned_handles = [] } in
      if e.db_set then closed (R.close_db w) cleared else pure Status.ok e

  created : Bytes → RocksStatus × R.Handle × R.World → Exec (Engine R) Status
  created name (fine, h, w) e = (
    returns Status.ok,
    record e {
      world = w;
      column_families = insert name h e.column_families;
      owned_handles = e.owned_handles ++ h ∷ [];
    },
  )
  created name (missing m, h, w) e = (returns (Status.io_error m), with_world e w)
  created name (failed m, h, w) e = (returns (Status.io_error m), with_world e w)

  create_new : Option R.Handle → Bytes → Exec (Engine R) Status
  unfolding created
  create_new (some h) name e =
      (returns (Status.invalid_argument (codes "Collection already exists: " ++ name)), e)
  create_new none name e =
      if e.db_set then created name (R.create_column_family e.world name) e else crash e

  unfoldable pub create_collection : Bytes → Exec (Engine R) Status
  unfolding create_new
  create_collection name e = create_new (lookup name e.column_families) name e

  dropped : Bytes → RocksStatus × R.World → Exec (Engine R) Status
  dropped name (fine, w) e =
      (returns Status.ok, record e { world = w; column_families = erase name e.column_families })
  dropped name (missing m, w) e = (returns (Status.io_error m), with_world e w)
  dropped name (failed m, w) e = (returns (Status.io_error m), with_world e w)

  drop_at : Option R.Handle → Bytes → Exec (Engine R) Status
  unfolding dropped
  drop_at none name e = (returns (no_collection name), e)
  drop_at (some h) name e = dropped name (R.drop_column_family e.world h) e

  unfoldable pub drop_collection : Bytes → Exec (Engine R) Status
  unfolding drop_at
  drop_collection name e = drop_at (lookup name e.column_families) name e

  put_at : Option R.Handle → Bytes → Bytes → Bytes → Exec (Engine R) Status
  put_at none name k v e = (returns (no_collection name), e)
  put_at (some h) name k v e =
      let (s, w) = R.put e.world h k v in (returns (written s), with_world e w)

  unfoldable pub put : Bytes → Bytes → Bytes → Exec (Engine R) Status
  unfolding put_at
  put name k v e = put_at (lookup name e.column_families) name k v e

  -- The value of an index entry is a string where that of put() is a vector of bytes.
  unfoldable pub put_index : Bytes → Bytes → Bytes → Exec (Engine R) Status
  unfolding put_at
  put_index name k v e = put_at (lookup name e.column_families) name k v e

  remove_at : Option R.Handle → Bytes → Bytes → Exec (Engine R) Status
  remove_at none name k e = (returns (no_collection name), e)
  remove_at (some h) name k e =
      let (s, w) = R.delete e.world h k in (returns (removed s), with_world e w)

  unfoldable pub remove : Bytes → Bytes → Exec (Engine R) Status
  unfolding remove_at
  remove name k e = remove_at (lookup name e.column_families) name k e

  get_at : Option R.Handle → Bytes → Bytes → Engine R → Status × Bytes
  unfolding got
  get_at none name k e = (no_collection name, [])
  get_at (some h) name k e = got k (R.get e.world h k)

  unfoldable pub get : Bytes → Bytes → Engine R → Status × Bytes
  unfolding get_at
  get name k e = get_at (lookup name e.column_families) name k e

  unfoldable pub collection_exists : Bytes → Engine R → Bool
  collection_exists name e = elim (lookup name e.column_families) [ none ↦ false | some h ↦ true ]
