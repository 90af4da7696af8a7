-- ===== src/Engine/Lifecycle.antt =====
-- src/storage_engine/StorageEngine.cpp: the engine through any sequence of calls that change it.
use anu_db.Base.{
  ◌≡◌, refl, ap, ◌∙◌, sym, ◌≢◌, inl, inr, Bool, true, false, [], Option, none, some, Bytes, lookup,
  if◌then◌else◌, ◌==◌, bytes_eq, arith, Bool-cases, eq_sound, ne_sound, subst,
}
use anu_db.Status
use anu_db.Status.{Status, is_ok}
use anu_db.Exec.{Result, returns, crashes}
use anu_db.RocksDb.{RocksDb, RocksStatus, fine, missing, failed}
use anu_db.RocksDb.Contract.{IsLawful}
use anu_db.Engine.{
  Engine, open_engine, close_engine, create_collection, drop_collection, put, put_index, remove,
  created, dropped, closed, create_new, drop_at, destroy_all, flush_all,
}
use anu_db.Engine.Tables.{IsConsistent, put-IsConsistent, remove-IsConsistent}
use anu_db.Engine.Opening.{empty-IsConsistent, open_engine-IsConsistent}
use anu_db.Engine.Families.{create_collection-IsConsistent, drop_collection-IsConsistent}

module _ ⦃R : RocksDb⦄ where
  -- A call that changes the engine, whatever it returns. open() is called while there are no handles.
  pub data Step : Engine R → Engine R → Type 0 where
    opens : {e : Engine R} → e.column_families ≡ [] → Step e (open_engine e).1
    closes : {e : Engine R} → Step e (close_engine e).1
    creates : {e : Engine R} (name : Bytes) → Step e (create_collection name e).1
    drops : {e : Engine R} (name : Bytes) → Step e (drop_collection name e).1
    puts : {e : Engine R} (name k v : Bytes) → Step e (put name k v e).1
    puts_index : {e : Engine R} (name k v : Bytes) → Step e (put_index name k v e).1
    removes : {e : Engine R} (name k : Bytes) → Step e (remove name k e).1

  pub data Reaches (e : Engine R) : Engine R → Type 0 where
    start : Reaches e e
    after : {e1 e2 : Engine R} → Reaches e e1 → Step e1 e2 → Reaches e e2

module _ ⦃R : RocksDb⦄ (L : IsLawful R) where
  -- A change of the world in which the handles of the map live on.
  moved-IsConsistent :
      (e : Engine R) (w : R.World)
      → IsConsistent L e
      → ((h : R.Handle) → L.Live e.world h → L.Live w h)
      → IsConsistent L (record e { world = w })
  moved-IsConsistent e w c keeps = record {
    has_db = c.has_db;
    live = λ n h q. keeps h (c.live n h q);
    distinct = c.distinct;
  }

  pick :
      (b : Bool) (x y : Result Status × Engine R)
      → IsConsistent L x.1
      → IsConsistent L y.1
      → IsConsistent L (if b then x else y).1
  pick true x y c d = c
  pick false x y c d = d

  closed-IsConsistent :
      (x : RocksStatus) (w : R.World) (e : Engine R)
      → e.column_families ≡ []
      → IsConsistent L (closed (x, w) e).1
  unfolding closed
  closed-IsConsistent fine w e none_there =
      empty-IsConsistent L (record e { world = w; db_set = false }) none_there
  closed-IsConsistent (missing m) w e none_there =
      empty-IsConsistent L (record e { world = w }) none_there
  closed-IsConsistent (failed m) w e none_there =
      empty-IsConsistent L (record e { world = w }) none_there

  close_engine-IsConsistent : (e : Engine R) → IsConsistent L e → IsConsistent L (close_engine e).1
  unfolding close_engine
  close_engine-IsConsistent e c =
      let w = destroy_all e.owned_handles (R.sync_wal (flush_all e.column_families e.world)).1 in
      let cleared : Engine R = record e { column_families = []; owned_handles = [] } in
      pick e.db_set (closed (R.close_db w) cleared) (returns Status.ok, e)
        (closed-IsConsistent (R.close_db w).0 (R.close_db w).1 cleared refl) c

  create_collection_any :
      (name : Bytes) (e : Engine R) → IsConsistent L e → IsConsistent L (create_collection name e).1
  unfolding create_collection
  create_collection_any name e c = go (lookup name e.column_families) refl
    where
      new :
          (x : RocksStatus)
          → (R.create_column_family e.world name).0 ≡ x
          → lookup name e.column_families ≡ none
          → e.db_set ≡ true
          → IsConsistent L
              (created name
                (
                  x,
                  (R.create_column_family e.world name).1,
                  (R.create_column_family e.world name).2,
                )
                e).1
      new fine q f d =
          let (x, h, w) = R.create_column_family e.world name in
          let made : create_collection name e ≡ created name (fine, h, w) e =
            ap (λ o. create_new o name e) f
            ∙ ap (λ b. if b then created name (x, h, w) e else (crashes, e)) d
            ∙ ap (λ y. created name (y, h, w) e) q in
          subst (λ r. IsConsistent L r.1) made
            (create_collection-IsConsistent L name e c Status.ok (ap (λ r. r.0) made) refl)
      new (missing m) q f d = moved-IsConsistent e _ c (λ h l. (L.create_other e.world name h l).0)
      new (failed m) q f d = moved-IsConsistent e _ c (λ h l. (L.create_other e.world name h l).0)

      go :
          (o : Option R.Handle)
          → lookup name e.column_families ≡ o
          → IsConsistent L (create_new o name e).1
      go (some h) f = c
      go none f = tested e.db_set refl
        where
          tested :
              (b : Bool)
              → e.db_set ≡ b
              → IsConsistent L
                  (if b
                    then created name (R.create_column_family e.world name) e
                    else (crashes, e)).1
          tested true d = new (R.create_column_family e.world name).0 refl f d
          tested false d = c

  drop_collection_any :
      (name : Bytes) (e : Engine R) → IsConsistent L e → IsConsistent L (drop_collection name e).1
  unfolding drop_collection
  drop_collection_any name e c = go (lookup name e.column_families) refl
    where
      -- A failed drop leaves all handles.
      stays :
          (h : R.Handle)
          → lookup name e.column_families ≡ some h
          → (R.drop_column_family e.world h).0 ≢ fine
          → IsConsistent L (record e { world = (R.drop_column_family e.world h).1 })
      stays h f bad = record {
        has_db = c.has_db;
        live = λ n g q. elim (Bool-cases (n == name)) [
          | inl same ↦
              let g_is : some h ≡ some g =
                sym f ∙ ap (λ k. lookup k e.column_families) (sym (eq_sound n name same)) ∙ q in
              let h_is : h ≡ g = ground (arith, g_is) in
              subst (λ k. L.Live (R.drop_column_family e.world h).1 k) h_is
                (L.drop_failed e.world h (c.live name h f) bad)
          | inr differ ↦
              (L.drop_other e.world h g (c.live name h f) (c.live n g q)
                (λ h_is. ne_sound n name differ (c.distinct n name g q (rw h_is at f)))).0
        ];
        distinct = c.distinct;
      }

      drops :
          (h : R.Handle) (x : RocksStatus)
          → (R.drop_column_family e.world h).0 ≡ x
          → lookup name e.column_families ≡ some h
          → IsConsistent L (dropped name (x, (R.drop_column_family e.world h).1) e).1
      drops h fine q f =
          let made : drop_collection name e
              ≡ dropped name (fine, (R.drop_column_family e.world h).1) e =
            ap (λ o. drop_at o name e) f
            ∙ ap (λ y. dropped name (y, (R.drop_column_family e.world h).1) e) q in
          subst (λ r. IsConsistent L r.1) made
            (drop_collection-IsConsistent L name e c Status.ok (ap (λ r. r.0) made) refl)
      drops h (missing m) q f = stays h f (λ good. let x = sym q ∙ good in cc)
      drops h (failed m) q f = stays h f (λ good. let x = sym q ∙ good in cc)

      go :
          (o : Option R.Handle)
          → lookup name e.column_families ≡ o
          → IsConsistent L (drop_at o name e).1
      go (some h) f = drops h (R.drop_column_family e.world h).0 refl f
      go none f = c

  Step-IsConsistent : {e e' : Engine R} → Step e e' → IsConsistent L e → IsConsistent L e'
  unfolding put put_index
  Step-IsConsistent (opens {e} none_there) c = open_engine-IsConsistent L e none_there
  Step-IsConsistent (closes {e}) c = close_engine-IsConsistent e c
  Step-IsConsistent (creates {e} name) c = create_collection_any name e c
  Step-IsConsistent (drops {e} name) c = drop_collection_any name e c
  Step-IsConsistent (puts {e} name k v) c = put-IsConsistent L name e c k v
  Step-IsConsistent (puts_index {e} name k v) c = put-IsConsistent L name e c k v
  Step-IsConsistent (removes {e} name k) c = remove-IsConsistent L name e c k

  -- From an engine without handles, any sequence of calls of open while there are no handles,
  -- close, createCollection, dropCollection, put, putIndex and remove, whatever they return, leaves
  -- the engine consistent: each name in the map has a live handle of its own, and the database is
  -- set.
  pub Reaches-IsConsistent :
      {e e' : Engine R} → e.column_families ≡ [] → Reaches e e' → IsConsistent L e'
  Reaches-IsConsistent {e} none_there start = empty-IsConsistent L e none_there
  Reaches-IsConsistent none_there (after r s) =
      Step-IsConsistent s (Reaches-IsConsistent none_there r)
