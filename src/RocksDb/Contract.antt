-- ===== src/RocksDb/Contract.antt =====
-- Documented behaviour of RocksDB: a column family is a table sorted by the bytewise order of its
-- keys; a write that succeeds changes its own table only; an iterator walks the table as it was.
use anu_db.Base.{
  ◌≡◌, ◌≢◌, not, List, [], ◌∷◌, none, some, Bytes, before, drop_while, take_while, reverse, lookup,
  All, Pairwise,
}
use anu_db.RocksDb.{RocksDb, fine, missing}
use anu_db.RocksDb.Table.{Entry, Sorted, put_entry, delete_entry, is_empty}

pub record IsLawful (R : RocksDb) : Type 1 where
  -- A handle of the open database that was not destroyed or dropped, and the table behind it.
  pub Live : R.World → R.Handle → Type 0
  pub contents : R.World → R.Handle → List Entry
  pub sorted : (w : R.World) (h : R.Handle) → Live w h → Sorted (contents w h)
  -- Writes.
  pub put_self :
      (w : R.World) (h : R.Handle) (k v : Bytes)
      → Live w h
      → (R.put w h k v).0 ≡ fine
      → contents (R.put w h k v).1 h ≡ put_entry k v (contents w h)
  pub put_other :
      (w : R.World) (h g : R.Handle) (k v : Bytes)
      → Live w h
      → Live w g
      → h ≢ g
      → contents (R.put w h k v).1 g ≡ contents w g
  pub put_live : (w : R.World) (h g : R.Handle) (k v : Bytes) → Live w g → Live (R.put w h k v).1 g
  pub delete_self :
      (w : R.World) (h : R.Handle) (k : Bytes)
      → Live w h
      → (R.delete w h k).0 ≡ fine
      → contents (R.delete w h k).1 h ≡ delete_entry k (contents w h)
  pub delete_other :
      (w : R.World) (h g : R.Handle) (k : Bytes)
      → Live w h
      → Live w g
      → h ≢ g
      → contents (R.delete w h k).1 g ≡ contents w g
  pub delete_live :
      (w : R.World) (h g : R.Handle) (k : Bytes) → Live w g → Live (R.delete w h k).1 g
  -- A delete of a key that is not there succeeds.
  pub delete_not_missing :
      (w : R.World) (h : R.Handle) (k m : Bytes) → Live w h → (R.delete w h k).0 ≢ missing m
  -- Reads.
  pub get_fine :
      (w : R.World) (h : R.Handle) (k : Bytes)
      → Live w h
      → (R.get w h k).0 ≡ fine
      → lookup k (contents w h) ≡ some (R.get w h k).1
  pub get_missing :
      (w : R.World) (h : R.Handle) (k m : Bytes)
      → Live w h
      → (R.get w h k).0 ≡ missing m
      → lookup k (contents w h) ≡ none
  -- Column families.
  pub create_live :
      (w : R.World) (name : Bytes)
      → (R.create_column_family w name).0 ≡ fine
      → Live (R.create_column_family w name).2 (R.create_column_family w name).1
  pub create_empty :
      (w : R.World) (name : Bytes)
      → (R.create_column_family w name).0 ≡ fine
      → contents (R.create_column_family w name).2 (R.create_column_family w name).1 ≡ []
  -- The new handle is none of those in use.
  pub create_fresh :
      (w : R.World) (name : Bytes) (g : R.Handle)
      → Live w g
      → (R.create_column_family w name).0 ≡ fine
      → (R.create_column_family w name).1 ≢ g
  pub create_other :
      (w : R.World) (name : Bytes) (g : R.Handle)
      → Live w g
      → Live (R.create_column_family w name).2 g
        × (contents (R.create_column_family w name).2 g ≡ contents w g)
  pub drop_other :
      (w : R.World) (h g : R.Handle)
      → Live w h
      → Live w g
      → h ≢ g
      → Live (R.drop_column_family w h).1 g
        × (contents (R.drop_column_family w h).1 g ≡ contents w g)
  -- A family that could not be dropped stays.
  pub drop_failed :
      (w : R.World) (h : R.Handle)
      → Live w h
      → (R.drop_column_family w h).0 ≢ fine
      → Live (R.drop_column_family w h).1 h
  -- Opening a database gives live handles, no two of them the same.
  pub open_live :
      (w : R.World) (names : List Bytes)
      → (R.open_db w names).0 ≡ fine
      → All (Live (R.open_db w names).2) (R.open_db w names).1
  pub open_apart :
      (w : R.World) (names : List Bytes)
      → (R.open_db w names).0 ≡ fine
      → Pairwise (R.open_db w names).1
  -- An iterator: the table that it walks, the entries from the current one on, and the entries from
  -- the current one back; both are empty where it is not valid.
  pub snapshot : R.Iterator → List Entry
  pub ahead : R.Iterator → List Entry
  pub behind : R.Iterator → List Entry
  pub snapshot-new_iterator :
      (w : R.World) (h : R.Handle) → Live w h → snapshot (R.new_iterator w h) ≡ contents w h
  pub valid_ahead : (i : R.Iterator) → R.valid i ≡ not (is_empty (ahead i))
  pub valid_behind : (i : R.Iterator) → R.valid i ≡ not (is_empty (behind i))
  pub at_ahead :
      (i : R.Iterator) (k v : Bytes) (es : List Entry)
      → ahead i ≡ (k, v) ∷ es
      → (R.key i ≡ k) × (R.value i ≡ v) × (ahead (R.next i) ≡ es)
  pub at_behind :
      (i : R.Iterator) (k v : Bytes) (es : List Entry)
      → behind i ≡ (k, v) ∷ es
      → (R.key i ≡ k) × (R.value i ≡ v) × (behind (R.prev i) ≡ es)
  pub ahead-seek_to_first : (i : R.Iterator) → ahead (R.seek_to_first i) ≡ snapshot i
  pub behind-seek_to_last : (i : R.Iterator) → behind (R.seek_to_last i) ≡ reverse (snapshot i)
  pub ahead-seek :
      (i : R.Iterator) (p : Bytes)
      → ahead (R.seek i p) ≡ drop_while (λ e. before e.0 p) (snapshot i)
  pub behind-seek_for_prev :
      (i : R.Iterator) (p : Bytes)
      → behind (R.seek_for_prev i p) ≡ reverse (take_while (λ e. not (before p e.0)) (snapshot i))
