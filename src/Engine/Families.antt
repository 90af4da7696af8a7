-- ===== src/Engine/Families.antt =====
-- Creating and dropping column families: the invariant and the tables.
use anu_db.Base.{
  ◌≡◌, refl, Option, ◌∙◌, sym, ap, ◌≢◌, ◌⊎◌, inl, inr, true, [], ◌∷◌, ◌++◌, none, some, Bytes,
  lookup, insert, erase, if◌then◌else◌, ◌==◌, bytes_eq, arith, lookup-insert, lookup-erase,
  Option-cases, Bool-cases,
}
use anu_db.Status.{Status, is_ok}
use anu_db.Exec.{returns}
use anu_db.RocksDb.{RocksDb, RocksStatus, fine, missing, failed}
use anu_db.RocksDb.Contract.{IsLawful}
use anu_db.Engine.{Engine, create_collection, drop_collection, drop_at, dropped}
use anu_db.Engine.Tables.{IsConsistent, table_of}

module _ ⦃R : RocksDb⦄ (L : IsLawful R) (name : Bytes) (e : Engine R) (c : IsConsistent L e) where
  abbrev made : R.World
  made = (R.create_column_family e.world name).2

  abbrev new_handle : R.Handle
  new_handle = (R.create_column_family e.world name).1

  abbrev with_new : Engine R
  with_new = record e {
    world = made;
    column_families = insert name new_handle e.column_families;
    owned_handles = e.owned_handles ++ new_handle ∷ [];
  }

  -- What createCollection that returned OK went through.
  create_ok :
      (s : Status)
      → (create_collection name e).0 ≡ returns s
      → is_ok s ≡ true
      → (lookup name e.column_families ≡ none)
        × (e.db_set ≡ true)
        × ((R.create_column_family e.world name).0 ≡ fine)
        × ((create_collection name e).1 ≡ with_new)
  unfolding create_collection
  create_ok s r o = ground arith

  new_family :
      (n : Bytes) (g : R.Handle)
      → lookup n (insert name new_handle e.column_families) ≡ some g
      → ((n ≡ name) × (g ≡ new_handle)) ⊎ (lookup n e.column_families ≡ some g)
  new_family n g q = ground (arith, lookup-insert name n new_handle e.column_families)

  -- Over a consistent engine, a createCollection that returns OK leaves the engine consistent: each
  -- name in the map has a live handle of its own.
  pub create_collection-IsConsistent :
      (s : Status)
      → (create_collection name e).0 ≡ returns s
      → is_ok s ≡ true
      → IsConsistent L (create_collection name e).1
  create_collection-IsConsistent s r o =
      let (f, d, w, e') = create_ok s r o in
      rw e' (record {
        has_db = λ n g q. d;
        live = λ n g q. elim (new_family n g q) [
          | inl (_, g_is) ↦ rw g_is (L.create_live e.world name w)
          | inr old ↦ (L.create_other e.world name g (c.live n g old)).0
        ];
        distinct = λ n n' g q q'. elim (new_family n g q) [
          | inl (n_is, g_is) ↦ elim (new_family n' g q') [
            | inl (n'_is, _) ↦ n_is ∙ sym n'_is
            | inr old' ↦ absurd (L.create_fresh e.world name g (c.live n' g old') w (sym g_is))
          ]
          | inr old ↦ elim (new_family n' g q') [
            | inl (_, g_is) ↦ absurd (L.create_fresh e.world name g (c.live n g old) w (sym g_is))
            | inr old' ↦ c.distinct n n' g old old'
          ]
        ];
      })

  -- Over a consistent engine, a createCollection that returns OK adds an empty table under a name
  -- that had none, and leaves every other table.
  pub table_of-create_collection :
      (n : Bytes) (s : Status)
      → (create_collection name e).0 ≡ returns s
      → is_ok s ≡ true
      → (table_of L name e ≡ none)
        × (table_of L n (create_collection name e).1
            ≡ (if n == name then some [] else table_of L n e))
  table_of-create_collection n s r o =
      let (f, d, w, e') = create_ok s r o in
      (
        rw f,
        rw (e', lookup-insert)
            (elim (Bool-cases (n == name)) [
              | inl same ↦ rw same (ap some (L.create_empty e.world name w))
              | inr differ ↦ rw differ (elim (Option-cases (lookup n e.column_families)) [
                | inl f' ↦ rw f'
                | inr (g, f') ↦ rw f' (ap some (L.create_other e.world name g (c.live n g f')).1)
              ])
            ]),
      )

  -- What dropCollection that returned OK went through.
  drop_ok :
      (s : Status)
      → (drop_collection name e).0 ≡ returns s
      → is_ok s ≡ true
      → (h : R.Handle) × (lookup name e.column_families ≡ some h)
        × ((drop_collection name e).1 ≡ record e {
          world = (R.drop_column_family e.world h).1;
          column_families = erase name e.column_families;
        })
  unfolding drop_collection
  drop_ok s r o = elim (Option-cases (lookup name e.column_families)) [
    | inl f ↦ absurd (ground arith)
    | inr (h, f) ↦ (h, f, ground arith)
  ]

  kept_family :
      (n : Bytes) (g h : R.Handle)
      → lookup name e.column_families ≡ some h
      → lookup n (erase name e.column_families) ≡ some g
      → (lookup n e.column_families ≡ some g) × (h ≢ g)
  kept_family n g h f q =
      let old : lookup n e.column_families ≡ some g =
        ground (arith, lookup-erase name n e.column_families) in
      (
        old,
        λ same.
            ground (
              arith,
              lookup-erase name n e.column_families,
              c.distinct name n g (rw same at f) old,
            ),
      )

  -- Over a consistent engine, a dropCollection that returns OK leaves the engine consistent.
  pub drop_collection-IsConsistent :
      (s : Status)
      → (drop_collection name e).0 ≡ returns s
      → is_ok s ≡ true
      → IsConsistent L (drop_collection name e).1
  drop_collection-IsConsistent s r o =
      let (h, f, e') = drop_ok s r o in
      rw e' (record {
        has_db = λ n g q. c.has_db n g (kept_family n g h f q).0;
        live = λ n g q.
            let (old, other) = kept_family n g h f q in
            (L.drop_other e.world h g (c.live name h f) (c.live n g old) other).0;
        distinct =
            λ n n' g q q'. c.distinct n n' g (kept_family n g h f q).0 (kept_family n' g h f q').0;
      })

  -- Over a consistent engine, a dropCollection that returns OK takes the table of its name away,
  -- and leaves every other table.
  pub table_of-drop_collection :
      (n : Bytes) (s : Status)
      → (drop_collection name e).0 ≡ returns s
      → is_ok s ≡ true
      → table_of L n (drop_collection name e).1 ≡ (if n == name then none else table_of L n e)
  table_of-drop_collection n s r o =
      let (h, f, e') = drop_ok s r o in
      rw e' (elim (Bool-cases (n == name)) [
        | inl same ↦ rw (lookup-erase, same)
        | inr differ ↦ elim (Option-cases (lookup n e.column_families)) [
          | inl f' ↦ rw (lookup-erase, differ, f')
          | inr (g, f') ↦
              let other = (kept_family n g h f (rw (lookup-erase, differ) f')).1 in
              rw (lookup-erase, differ, f')
                (ap some (L.drop_other e.world h g (c.live name h f) (c.live n g f') other).1)
        ]
      ])

-- dropCollection returns, whatever RocksDB says.
pub drop_collection-returns :
    ⦃R : RocksDb⦄ (name : Bytes) (e : Engine R)
    → (t : Status) × ((drop_collection name e).0 ≡ returns t)
unfolding drop_collection dropped
drop_collection-returns ⦃R = R⦄ name e = go (lookup name e.column_families)
  where
    said : (x : RocksStatus) (w : R.World) → (t : Status) × ((dropped name (x, w) e).0 ≡ returns t)
    said fine w = (_, refl)
    said (missing m) w = (_, refl)
    said (failed m) w = (_, refl)

    go : (o : Option R.Handle) → (t : Status) × ((drop_at o name e).0 ≡ returns t)
    go none = (_, refl)
    go (some h) = said (R.drop_column_family e.world h).0 (R.drop_column_family e.world h).1
