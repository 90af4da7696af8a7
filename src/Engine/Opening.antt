-- ===== src/Engine/Opening.antt =====
-- src/storage_engine/StorageEngine.cpp: open, from a map without handles.
use anu_db.Base.{
  ◌≡◌, refl, ◌∙◌, sym, ◌≢◌, inl, inr, List, [], ◌∷◌, some, Bytes, Dict, lookup, insert, ◌==◌,
  bytes_eq, arith, lookup-insert, Bool-cases, All, Pairwise, ◌⊎◌, Bool, true, false, if◌then◌else◌,
}
use anu_db.Status
use anu_db.Status.{Status}
use anu_db.Exec.{returns}
use anu_db.RocksDb.{RocksDb, RocksStatus, fine, missing, failed}
use anu_db.RocksDb.Contract.{IsLawful}
use anu_db.Engine.{
  Engine, open_engine, close_engine, store_handles, opened, listed, closed, destroy_all, flush_all,
}
use anu_db.Engine.Tables.{IsConsistent}

module _ ⦃R : RocksDb⦄ (L : IsLawful R) where
  -- A map of names to live handles, each under one name.
  record Holds (w : R.World) (m : Dict R.Handle) : Type 0 where
    live : (n : Bytes) (h : R.Handle) → lookup n m ≡ some h → L.Live w h
    distinct : (n n' : Bytes) (h : R.Handle) → lookup n m ≡ some h → lookup n' m ≡ some h → n ≡ n'

  abbrev Absent : Dict R.Handle → R.Handle → Type 0
  Absent m h = (n : Bytes) → lookup n m ≢ some h

  insert-Absent :
      (n : Bytes) (h : R.Handle) (m : Dict R.Handle) (hs : List R.Handle)
      → All (λ g. h ≢ g) hs
      → All (Absent m) hs
      → All (Absent (insert n h m)) hs
  insert-Absent n h m [] other absent = tt
  insert-Absent n h m (g ∷ hs) other absent = (
    λ j q. elim (Bool-cases (j == n)) [
      | inl same ↦
          let f : some h ≡ some g = rw (lookup-insert, same) at q in other.0 (ground (arith, f))
      | inr differ ↦ absent.0 j (rw (lookup-insert, differ) at q)
    ],
    insert-Absent n h m hs other.1 absent.1,
  )

  inserted :
      (n j : Bytes) (h g : R.Handle) (m : Dict R.Handle)
      → lookup j (insert n h m) ≡ some g
      → ((j ≡ n) × (g ≡ h)) ⊎ (lookup j m ≡ some g)
  inserted n j h g m q = ground (arith, lookup-insert n j h m)

  insert-Holds :
      (w : R.World) (n : Bytes) (h : R.Handle) (m : Dict R.Handle)
      → Holds w m
      → L.Live w h
      → Absent m h
      → Holds w (insert n h m)
  insert-Holds w n h m a l absent = record {
    live = λ j g q. elim (inserted n j h g m q) [
      | inl (_, g_is) ↦ rw g_is l
      | inr old ↦ a.live j g old
    ];
    distinct = λ j j' g q q'. elim (inserted n j h g m q) [
      | inl (j_is, g_is) ↦ elim (inserted n j' h g m q') [
        | inl (j'_is, _) ↦ j_is ∙ sym j'_is
        | inr old' ↦ absurd (absent j' (rw g_is at old'))
      ]
      | inr old ↦ elim (inserted n j' h g m q') [
        | inl (_, g_is) ↦ absurd (absent j (rw g_is at old))
        | inr old' ↦ a.distinct j j' g old old'
      ]
    ];
  }

  store_handles-Holds :
      (w : R.World) (ns : List Bytes) (hs : List R.Handle) (m : Dict R.Handle)
      → Holds w m
      → All (L.Live w) hs
      → Pairwise hs
      → All (Absent m) hs
      → Holds w (store_handles ns hs m)
  unfolding store_handles
  store_handles-Holds w [] hs m a l p f = a
  store_handles-Holds w (n ∷ ns) [] m a l p f = a
  store_handles-Holds w (n ∷ ns) (h ∷ hs) m a l p f =
      store_handles-Holds w ns hs (insert n h m) (insert-Holds w n h m a l.0 f.0) l.1 p.1
        (insert-Absent n h m hs p.0 f.1)

  -- Without handles an engine is consistent.
  nothing_found :
      (e : Engine R) (n : Bytes) (h : R.Handle)
      → e.column_families ≡ []
      → lookup n e.column_families ≢ some h
  unfolding lookup
  nothing_found e n h none_there q = absurd (let f = rw none_there at q in ground (arith, f))

  pub empty-IsConsistent : (e : Engine R) → e.column_families ≡ [] → IsConsistent L e
  empty-IsConsistent e none_there = record {
    has_db = λ n h q. absurd (nothing_found e n h none_there q);
    live = λ n h q. absurd (nothing_found e n h none_there q);
    distinct = λ n n' h q q'. absurd (nothing_found e n h none_there q);
  }

  opened-IsConsistent :
      (names : List Bytes) (x : RocksStatus) (hs : List R.Handle) (w : R.World) (e : Engine R)
      → e.column_families ≡ []
      → (x ≡ fine → All (L.Live w) hs × Pairwise hs)
      → IsConsistent L (opened names (x, hs, w) e).1
  unfolding opened
  opened-IsConsistent names fine hs w e none_there good =
      let (live, apart) = good refl in
      let start : Holds w e.column_families = record {
        live = λ n h q. absurd (nothing_found e n h none_there q);
        distinct = λ n n' h q q'. absurd (nothing_found e n h none_there q);
      } in
      let end =
        store_handles-Holds w names hs e.column_families start live apart
          (absent_all hs (λ h n. nothing_found e n h none_there)) in
      record { has_db = λ n h q. refl; live = end.live; distinct = end.distinct }
    where
      absent_all :
          (gs : List R.Handle)
          → ((h : R.Handle) → Absent e.column_families h)
          → All (Absent e.column_families) gs
      absent_all [] f = tt
      absent_all (g ∷ gs) f = (f g, absent_all gs f)
  opened-IsConsistent names (missing m) hs w e none_there good =
      empty-IsConsistent (record e { world = w }) none_there
  opened-IsConsistent names (failed m) hs w e none_there good =
      empty-IsConsistent (record e { world = w }) none_there

  pub open_engine-IsConsistent :
      (e : Engine R) → e.column_families ≡ [] → IsConsistent L (open_engine e).1
  unfolding open_engine
  open_engine-IsConsistent e none_there =
      let names = listed (R.list_column_families e.world) in
      let (x, hs, w) = R.open_db e.world names in
      opened-IsConsistent names x hs w e none_there
        (λ f. (L.open_live e.world names f, L.open_apart e.world names f))

-- close() returns, whatever RocksDB says.
pub close_engine-returns :
    ⦃R : RocksDb⦄ (e : Engine R) → (t : Status) × ((close_engine e).0 ≡ returns t)
unfolding close_engine closed
close_engine-returns ⦃R = R⦄ e = go e.db_set
  where
    w : R.World
    w = destroy_all e.owned_handles (R.sync_wal (flush_all e.column_families e.world)).1

    cleared : Engine R
    cleared = record e { column_families = []; owned_handles = [] }

    said : (x : RocksStatus) (v : R.World) → (t : Status) × ((closed (x, v) cleared).0 ≡ returns t)
    said fine v = (_, refl)
    said (missing m) v = (_, refl)
    said (failed m) v = (_, refl)

    go :
        (b : Bool)
        → (t : Status) × ((if b then closed (R.close_db w) cleared else (returns Status.ok, e)).0
            ≡ returns t)
    go true = said (R.close_db w).0 (R.close_db w).1
    go false = (_, refl)

-- open() returns, whatever RocksDB says.
pub open_engine-returns :
    ⦃R : RocksDb⦄ (e : Engine R) → (t : Status) × ((open_engine e).0 ≡ returns t)
unfolding open_engine opened
open_engine-returns ⦃R = R⦄ e = go (R.open_db e.world (listed (R.list_column_families e.world)))
  where
    go :
        (r : RocksStatus × List R.Handle × R.World)
        → (t : Status) × ((opened (listed (R.list_column_families e.world)) r e).0 ≡ returns t)
    go (fine, hs, w) = (_, refl)
    go (missing m, hs, w) = (_, refl)
    go (failed m, hs, w) = (_, refl)
