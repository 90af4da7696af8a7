-- ===== src/Engine/Tables.antt =====
-- The engine as a map from names to tables: an invariant of its handles, and the tables after
-- the operations on single keys.
use anu_db.Base.{
  ◌≡◌, refl, ap, ◌≢◌, inl, inr, true, List, [], Option, none, some, Bytes, lookup, if◌then◌else◌,
  ◌==◌, bytes_eq, arith, Option-cases, eq_sound, ne_sound, Bool-cases,
}
use anu_db.Status.{Status, is_ok}
use anu_db.Exec.{returns}
use anu_db.RocksDb.{RocksDb, RocksStatus, fine, missing, failed}
use anu_db.RocksDb.Table.{Entry, put_entry, delete_entry}
use anu_db.RocksDb.Contract.{IsLawful}
use anu_db.Engine.{Engine, put, remove, put_at, remove_at, removed}

-- No table has no entries.
abbrev pub entries_of : Option (List Entry) → List Entry
entries_of none = []
entries_of (some t) = t

-- Every family in the map has a handle of the open database, of its own.
pub record IsConsistent ⦃R : RocksDb⦄ (L : IsLawful R) (e : Engine R) : Type 0 where
  pub has_db : (n : Bytes) (h : R.Handle) → lookup n e.column_families ≡ some h → e.db_set ≡ true
  pub live : (n : Bytes) (h : R.Handle) → lookup n e.column_families ≡ some h → L.Live e.world h
  pub distinct :
      (m n : Bytes) (h : R.Handle)
      → lookup m e.column_families ≡ some h
      → lookup n e.column_families ≡ some h
      → m ≡ n

module _ ⦃R : RocksDb⦄ (L : IsLawful R) where
  abbrev table_at : Option R.Handle → Engine R → Option (List Entry)
  table_at none e = none
  table_at (some h) e = some (L.contents e.world h)

  -- The table of a collection or index, if the map has its name.
  abbrev pub table_of : Bytes → Engine R → Option (List Entry)
  table_of n e = table_at (lookup n e.column_families) e

  abbrev pub change : (List Entry → List Entry) → Option (List Entry) → Option (List Entry)
  change f none = none
  change f (some t) = some (f t)

-- What a write that returned OK went through.
module _ ⦃R : RocksDb⦄ (name k : Bytes) (e : Engine R) (s : Status) where
  pub put_ok :
      (v : Bytes)
      → (put name k v e).0 ≡ returns s
      → is_ok s ≡ true
      → (h : R.Handle) × (lookup name e.column_families ≡ some h)
        × ((R.put e.world h k v).0 ≡ fine)
        × ((put name k v e).1 ≡ record e { world = (R.put e.world h k v).1 })
  unfolding put
  put_ok v r o = elim (Option-cases (lookup name e.column_families)) [
    | inl f ↦ absurd (ground arith)
    | inr (h, f) ↦ (h, f, ground arith, rw f)
  ]

module _ ⦃R : RocksDb⦄ (L : IsLawful R) (name k : Bytes) (e : Engine R) (c : IsConsistent L e)
    (s : Status) where
  pub remove_ok :
      (remove name k e).0 ≡ returns s
      → is_ok s ≡ true
      → (h : R.Handle) × (lookup name e.column_families ≡ some h)
        × ((R.delete e.world h k).0 ≡ fine)
        × ((remove name k e).1 ≡ record e { world = (R.delete e.world h k).1 })
  unfolding remove
  remove_ok r o = elim (Option-cases (lookup name e.column_families)) [
    | inl f ↦ absurd (ground arith)
    | inr (h, f) ↦ (h, f, go h f (R.delete e.world h k).0 refl (rw f at r), rw f)
  ]
    where
      go :
          (h : R.Handle)
          → lookup name e.column_families ≡ some h
          → (x : RocksStatus) → (R.delete e.world h k).0 ≡ x
          → (returns (removed (R.delete e.world h k).0)) ≡ returns s
          → (R.delete e.world h k).0 ≡ fine
      go h f fine q r' = q
      go h f (missing m) q r' = absurd (L.delete_not_missing e.world h k m (c.live name h f) q)
      go h f (failed m) q r' = absurd (ground arith)

module _ ⦃R : RocksDb⦄ (L : IsLawful R) (name : Bytes) (e : Engine R) (c : IsConsistent L e) where
  -- A write of one family's table leaves the tables of the others.
  other_tables :
      (h : R.Handle) (w : R.World) (f : List Entry → List Entry)
      → lookup name e.column_families ≡ some h
      → L.contents w h ≡ f (L.contents e.world h)
      → ((g : R.Handle) → L.Live e.world g → h ≢ g → L.contents w g ≡ L.contents e.world g)
      → (n : Bytes)
      → table_of L n (record e { world = w })
        ≡ (if n == name then change L f (table_of L n e) else table_of L n e)
  other_tables h w f found self other n = elim (Option-cases (lookup n e.column_families)) [
    | inl none_there ↦ rw none_there (ground arith)
    | inr (g, there) ↦ rw there (elim (Bool-cases (n == name)) [
      | inl same ↦
          let n_is : n ≡ name = eq_sound n name same in
          let g_is : g ≡ h = cc in rw (same, g_is) (ap some self)
      | inr differ ↦ rw differ (
          ap some (
            other g (c.live n g there)
              (λ h_is. ne_sound n name differ (c.distinct n name g there (rw h_is at found)))))
    ])
  ]

  module _ (k v : Bytes) where
    -- A put keeps a consistent engine consistent, whatever its status.
    pub put-IsConsistent : IsConsistent L (put name k v e).1
    unfolding put
    put-IsConsistent = go (lookup name e.column_families)
      where
        go : (o : Option R.Handle) → IsConsistent L (put_at o name k v e).1
        go none = c
        go (some h) = record {
          has_db = c.has_db;
          live = λ n g f. L.put_live e.world h g k v (c.live n g f);
          distinct = c.distinct;
        }

    -- A put that returns OK writes the entry into the table of its name, and no other table changes.
    pub table_of-put :
        (n : Bytes) (s : Status)
        → (put name k v e).0 ≡ returns s
        → is_ok s ≡ true
        → table_of L n (put name k v e).1
          ≡ (if n == name then change L (put_entry k v) (table_of L n e) else table_of L n e)
    table_of-put n s r o =
        let (h, f, w, e') = put_ok name k e s v r o in
        rw e' (
          other_tables h _ (put_entry k v) f (L.put_self e.world h k v (c.live name h f) w)
            (λ g l d. L.put_other e.world h g k v (c.live name h f) l d) n)

  module _ (k : Bytes) where
    -- A remove keeps a consistent engine consistent, whatever its status.
    pub remove-IsConsistent : IsConsistent L (remove name k e).1
    unfolding remove
    remove-IsConsistent = go (lookup name e.column_families)
      where
        go : (o : Option R.Handle) → IsConsistent L (remove_at o name k e).1
        go none = c
        go (some h) = record {
          has_db = c.has_db;
          live = λ n g f. L.delete_live e.world h g k (c.live n g f);
          distinct = c.distinct;
        }

    -- A remove that returns OK takes the entry from the table of its name, and no other table changes.
    pub table_of-remove :
        (n : Bytes) (s : Status)
        → (remove name k e).0 ≡ returns s
        → is_ok s ≡ true
        → table_of L n (remove name k e).1
          ≡ (if n == name then change L (delete_entry k) (table_of L n e) else table_of L n e)
    table_of-remove n s r o =
        let (h, f, w, e') = remove_ok L name k e c s r o in
        rw e' (
          other_tables h _ (delete_entry k) f (L.delete_self e.world h k (c.live name h f) w)
            (λ g l d. L.delete_other e.world h g k (c.live name h f) l d) n)
