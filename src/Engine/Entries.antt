-- ===== src/Engine/Entries.antt =====
-- Single entries of tables after the operations on keys.
use anu_db.Base.{
  ◌≡◌, refl, true, ◌&&◌, List, [], Option, none, some, Bytes, lookup, if◌then◌else◌, ◌==◌, bytes_eq,
  arith, Bool-cases, inl, inr, Option-cases, eq_sound, ◌⊎◌, codes, ◌++◌,
}
use anu_db.Status
use anu_db.Status.{Status, is_ok}
use anu_db.Exec.{returns}
use anu_db.RocksDb.{RocksDb, RocksStatus, fine, missing, failed}
use anu_db.RocksDb.Table.{Entry}
use anu_db.RocksDb.Table.Lookups.{lookup-put_entry, lookup-delete_entry}
use anu_db.RocksDb.Contract.{IsLawful}
use anu_db.Engine.{Engine, put, put_index, remove, get}
use anu_db.Engine.Tables.{
  IsConsistent, table_of, put_ok, remove_ok, table_of-put, table_of-remove, change,
}

module _ ⦃R : RocksDb⦄ (L : IsLawful R) where
  abbrev pub entry_in : Option (List Entry) → Bytes → Option Bytes
  entry_in none k = none
  entry_in (some t) k = lookup k t

  -- The value under a key of a collection or index.
  abbrev pub entry : Bytes → Bytes → Engine R → Option Bytes
  entry n k e = entry_in (table_of L n e) k

  entry_in-change :
      (t : Option (List Entry)) (es : List Entry) (f : List Entry → List Entry) (j : Bytes)
      → t ≡ some es
      → entry_in (change L f t) j ≡ lookup j (f es)
  entry_in-change t es f j h = rw h

pub put_index-eq-put :
    ⦃R : RocksDb⦄ (name k v : Bytes) (e : Engine R) → put_index name k v e ≡ put name k v e
unfolding put_index put
put_index-eq-put name k v e = refl

module _ ⦃R : RocksDb⦄ (L : IsLawful R) (name : Bytes) (e : Engine R) (c : IsConsistent L e)
    (s : Status) where
  -- Over a consistent engine, after a put that returns OK the key has the value in its family, and
  -- every other key of any family is as before.
  pub entry-put :
      (k v n j : Bytes)
      → (put name k v e).0 ≡ returns s
      → is_ok s ≡ true
      → entry L n j (put name k v e).1 ≡ (if n == name && j == k then some v else entry L n j e)
  entry-put k v n j r o =
      let (h, f, _, _) = put_ok name k e s v r o in
      rw (table_of-put L name e c k v n s r o) (elim (Bool-cases (n == name)) [
        | inl same ↦
            let t : table_of L n e ≡ some (L.contents e.world h) = rw (eq_sound n name same, f) in
            rw (same, t, lookup-put_entry) (ground arith)
        | inr differ ↦ rw differ
      ])

  -- Over a consistent engine, after a remove that returns OK the key is gone from its family, and
  -- every other key of any family is as before.
  pub entry-remove :
      (k n j : Bytes)
      → (remove name k e).0 ≡ returns s
      → is_ok s ≡ true
      → entry L n j (remove name k e).1 ≡ (if n == name && j == k then none else entry L n j e)
  entry-remove k n j r o =
      let (h, f, _, _) = remove_ok L name k e c s r o in
      rw (table_of-remove L name e c k n s r o) (elim (Bool-cases (n == name)) [
        | inl same ↦
            let t : table_of L n e ≡ some (L.contents e.world h) = rw (eq_sound n name same, f) in
            rw (same, t, lookup-delete_entry k j _ (L.sorted e.world h (c.live name h f)))
              (ground arith)
        | inr differ ↦ rw differ
      ])

module _ ⦃R : RocksDb⦄ (L : IsLawful R) (name k : Bytes) (e : Engine R) (c : IsConsistent L e) where
  -- Over a consistent engine, get answers OK with the value of the entry, or NotFound, only where
  -- the family or the key is missing, or an IOError, only where the family is there and the call of
  -- RocksDB failed, with its text.
  pub get_cases :
      ((v : Bytes) × (entry L name k e ≡ some v) × (get name k e ≡ (Status.ok, v)))
      ⊎ ((entry L name k e ≡ none) × ((m : Bytes) × (get name k e ≡ (Status.not_found m, []))))
      ⊎ ((h : R.Handle) × (m : Bytes) × (lookup name e.column_families ≡ some h)
          × ((R.get e.world h k).0 ≡ failed m)
          × (get name k e ≡ (Status.io_error m, [])))
  unfolding get
  get_cases = elim (Option-cases (lookup name e.column_families)) [
    | inl f ↦ inr (inl (rw f, (codes "Collection not found: " ++ name, rw f)))
    | inr (h, f) ↦ go h f (R.get e.world h k).0 refl
  ]
    where
      go :
          (h : R.Handle)
          → lookup name e.column_families ≡ some h
          → (x : RocksStatus) → (R.get e.world h k).0 ≡ x
          → ((v : Bytes) × (entry L name k e ≡ some v) × (get name k e ≡ (Status.ok, v)))
            ⊎ ((entry L name k e ≡ none)
                × ((m : Bytes) × (get name k e ≡ (Status.not_found m, []))))
            ⊎ ((h : R.Handle) × (m : Bytes) × (lookup name e.column_families ≡ some h)
                × ((R.get e.world h k).0 ≡ failed m)
                × (get name k e ≡ (Status.io_error m, [])))
      go h f fine q =
          inl
            ((R.get e.world h k).1, rw f (L.get_fine e.world h k (c.live name h f) q), ground arith)
      go h f (missing m) q = inr (
          inl (
            rw f (L.get_missing e.world h k m (c.live name h f) q),
            (codes "Key not found: " ++ k, ground arith),
          ))
      go h f (failed m) q = inr (inr (h, m, f, q, ground arith))
