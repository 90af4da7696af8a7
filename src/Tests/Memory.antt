-- ===== src/Tests/Memory.antt =====
-- An instance of the RocksDB parameter: tables in memory, and an iterator as the entries before its
-- place, the entry at it, and those after it.
use anu_db.Base.{
  ℕ, suc, Bool, true, false, List, [], ◌∷◌, Option, none, some, Bytes, codes, lookup, reverse,
  if◌then◌else◌, eqb, before,
}
use anu_db.RocksDb.{RocksDb, RocksStatus, fine, missing}
use anu_db.RocksDb.Table.{Entry, put_entry, delete_entry}

pub record World : Type 0 where
  pub tables : ℕ → List Entry
  pub in_use : ℕ → Bool
  pub next_handle : ℕ

-- A function changed at one number.
unfoldable pub changed : {A : Type 0} → (ℕ → A) → ℕ → A → ℕ → A
changed f h a g = if eqb g h then a else f g

pub data Place : Type 0 where
  off : Place
  on : List Entry → Entry → List Entry → Place

pub record Walk : Type 0 where
  pub snapshot : List Entry
  pub place : Place

abbrev pub first_place : List Entry → List Entry → Place
first_place left [] = off
first_place left (e ∷ es) = on left e es

abbrev pub last_place : List Entry → List Entry → Place
last_place [] es = off
last_place (e ∷ left) es = on left e es

abbrev pub step_next : Place → Place
step_next off = off
step_next (on left e es) = first_place (e ∷ left) es

abbrev pub step_prev : Place → Place
step_prev off = off
step_prev (on left e es) = last_place left (e ∷ es)

unfoldable pub seek_from : Bytes → List Entry → List Entry → Place
seek_from p left [] = off
seek_from p left (e ∷ es) =
    let rest = seek_from p (e ∷ left) es in if before e.0 p then rest else on left e es

unfoldable pub seek_last_from : Bytes → List Entry → List Entry → Place
seek_last_from p left [] = last_place left []
seek_last_from p left (e ∷ es) =
    let rest = seek_last_from p (e ∷ left) es in
    if before p e.0 then last_place left (e ∷ es) else rest

abbrev pub ahead_of : Place → List Entry
ahead_of off = []
ahead_of (on left e es) = e ∷ es

abbrev pub behind_of : Place → List Entry
behind_of off = []
behind_of (on left e es) = e ∷ left

abbrev pub is_on : Place → Bool
is_on off = false
is_on (on left e es) = true

abbrev pub entry_of : Place → Entry
entry_of off = ([], [])
entry_of (on left e es) = e

unfoldable pub answer : Option Bytes → RocksStatus × Bytes
answer none = (missing [], [])
answer (some v) = (fine, v)

unfoldable pub open_all : List Bytes → World → List ℕ × World
open_all [] w = ([], w)
open_all (n ∷ ns) w =
    let (hs, w') = open_all ns (record {
      tables = changed w.tables w.next_handle [];
      in_use = changed w.in_use w.next_handle true;
      next_handle = suc w.next_handle;
    }) in
    (w.next_handle ∷ hs, w')

abbrev pub memory : RocksDb
memory = record {
  World = World;
  Handle = ℕ;
  Iterator = Walk;
  default_column_family = codes "default";
  list_column_families = λ w. [];
  open_db = λ w names. let (hs, w') = open_all names w in (fine, hs, w');
  close_db = λ w. (fine, w);
  flush = λ w h. (fine, w);
  sync_wal = λ w. (fine, w);
  destroy_handle = λ w h. w;
  create_column_family = λ w name. (
    fine,
    w.next_handle,
    record {
      tables = changed w.tables w.next_handle [];
      in_use = changed w.in_use w.next_handle true;
      next_handle = suc w.next_handle;
    },
  );
  drop_column_family = λ w h. (fine, record w { in_use = changed w.in_use h false });
  put = λ w h k v. (fine, record w { tables = changed w.tables h (put_entry k v (w.tables h)) });
  get = λ w h k. answer (lookup k (w.tables h));
  delete = λ w h k. (fine, record w { tables = changed w.tables h (delete_entry k (w.tables h)) });
  new_iterator = λ w h. record { snapshot = w.tables h; place = off };
  seek_to_first = λ i. record i { place = first_place [] i.snapshot };
  seek_to_last = λ i. record i { place = last_place (reverse i.snapshot) [] };
  seek = λ i p. record i { place = seek_from p [] i.snapshot };
  seek_for_prev = λ i p. record i { place = seek_last_from p [] i.snapshot };
  next = λ i. record i { place = step_next i.place };
  prev = λ i. record i { place = step_prev i.place };
  valid = λ i. is_on i.place;
  key = λ i. (entry_of i.place).0;
  value = λ i. (entry_of i.place).1;
}
