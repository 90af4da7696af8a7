-- ===== src/Engine/Dropping.antt =====
-- src/storage_engine/StorageEngine.cpp: dropCollection beside the other families, and where RocksDB drops
-- every family that it is asked to drop.
use anu_db.Base.{
  ◌≡◌, refl, ◌⊎◌, inl, inr, Bool, true, false, Option, none, some, Bytes, ◌==◌, bytes_eq, lookup,
  lookup-erase, if◌then◌else◌,
}
use anu_db.Status
use anu_db.Exec.{returns, crashes, crash}
use anu_db.Status.{Status}
use anu_db.RocksDb.{RocksDb, RocksStatus, fine, missing, failed}
use anu_db.Engine.{
  Engine, drop_collection, drop_at, dropped, create_collection, create_new, created,
}

module _ ⦃R : RocksDb⦄ where
  pub lookup-drop_collection :
      (name other : Bytes) (e : Engine R)
      → (name == other) ≡ false
      → lookup name (drop_collection other e).1.column_families ≡ lookup name e.column_families
  unfolding drop_collection drop_at dropped
  lookup-drop_collection name other e d = go (lookup other e.column_families)
    where
      said :
          (p : RocksStatus × R.World)
          → lookup name (dropped other p e).1.column_families ≡ lookup name e.column_families
      said (fine, w) = rw (lookup-erase, d) refl
      said (missing m, w) = refl
      said (failed m, w) = refl

      go :
          (o : Option R.Handle)
          → lookup name (drop_at o other e).1.column_families ≡ lookup name e.column_families
      go none = refl
      go (some h) = said (R.drop_column_family e.world h)

  -- RocksDB drops every family.
  abbrev pub Drops : Type 0
  Drops = (w : R.World) (h : R.Handle) → (R.drop_column_family w h).0 ≡ fine

  pub drop_collection-fine :
      (name : Bytes) (h : R.Handle) (e : Engine R)
      → Drops
      → lookup name e.column_families ≡ some h
      → (drop_collection name e).0 ≡ returns Status.ok
  unfolding drop_collection drop_at dropped
  drop_collection-fine name h e drops f = rw (f, drops e.world h) refl

  -- createCollection returns, or crashes.
  pub create_collection-ends :
      (name : Bytes) (e : Engine R)
      → ((t : Status) × (e' : Engine R) × (create_collection name e ≡ (returns t, e')))
        ⊎ ((create_collection name e).0 ≡ crashes)
  unfolding create_collection create_new created
  create_collection-ends name e = go (lookup name e.column_families)
    where
      said :
          (p : RocksStatus × R.Handle × R.World)
          → (t : Status) × (e' : Engine R) × (created name p e ≡ (returns t, e'))
      said (fine, h, w) = (_, _, refl)
      said (missing m, h, w) = (_, _, refl)
      said (failed m, h, w) = (_, _, refl)

      new :
          (b : Bool)
          → ((t : Status) × (e' : Engine R) × ((if b
                  then created name (R.create_column_family e.world name) e
                  else crash e)
                ≡ (returns t, e')))
            ⊎ ((if b then created name (R.create_column_family e.world name) e else crash e).0
                ≡ crashes)
      new true = inl (said (R.create_column_family e.world name))
      new false = inr refl

      go :
          (o : Option R.Handle)
          → ((t : Status) × (e' : Engine R) × (create_new o name e ≡ (returns t, e')))
            ⊎ ((create_new o name e).0 ≡ crashes)
      go (some h) = inl (_, _, refl)
      go none = new e.db_set
