-- ===== src/Engine/Scan.antt =====
-- src/storage_engine/StorageEngine.cpp: the loops over iterators. Each takes fuel, and `stops` means
-- that it ran out; one more than the number of entries in the table is enough.
pub mod Loops
pub mod Fetch
use anu_db.Base.{
  ℕ, zero, suc, Bool, true, false, not, ◌&&◌, List, [], ◌∷◌, ◌++◌, Option, none, some, Bytes, codes,
  lookup, starts_with, if◌then◌else◌, ◌==◌, bytes_eq, eqb,
}
use anu_db.Status
use anu_db.Status.{Status}
use anu_db.Exec.{Result, returns, raises, crashes, stops}
use anu_db.RocksDb.{RocksDb}
use anu_db.Engine.{Engine, no_collection}

-- The status of a fetch and its output argument.
abbrev pub Fetched : Type 0
Fetched = Result (Status × List Bytes)

abbrev with_ok : Result (List Bytes) → Fetched
with_ok (returns ids) = returns (Status.ok, ids)
with_ok (raises m) = raises m
with_ok crashes = crashes
with_ok stops = stops

-- The local `key` up to '#', which fetchDocIdsForLesser builds and does not use; a key with no '#'
-- is read past its end.
unfoldable pub key_has_mark : Bytes → Bool
key_has_mark [] = false
key_has_mark (c ∷ k) = let rest = key_has_mark k in if eqb c b'#' then true else rest

module _ ⦃R : RocksDb⦄ where
  -- for (; test; step) docIds.push_back(iterator->value())
  unfoldable pub push_values :
      ℕ
      → (R.Iterator → Bool)
      → (R.Iterator → R.Iterator)
      → R.Iterator
      → List Bytes
      → Result (List Bytes)
  push_values zero test step i ids = stops
  push_values (suc fuel) test step i ids =
      let rest = push_values fuel test step (step i) (ids ++ R.value i ∷ []) in
      if test i then rest else returns ids

  -- for (; test; step);
  unfoldable pub skip :
      ℕ → (R.Iterator → Bool) → (R.Iterator → R.Iterator) → R.Iterator → Result R.Iterator
  skip zero test step i = stops
  skip (suc fuel) test step i =
      let rest = skip fuel test step (step i) in if test i then rest else returns i

  -- iterator->Valid() && iterator->key().starts_with(prefix)
  abbrev pub at_prefix : Bytes → R.Iterator → Bool
  at_prefix prefix i = R.valid i && starts_with (R.key i) prefix

  order_at : ℕ → Option R.Handle → Bytes → Bytes → List Bytes → Engine R → Fetched
  unfolding push_values
  order_at fuel none name value ids e = returns (no_collection name, ids)
  order_at fuel (some h) name value ids e =
      let i = R.new_iterator e.world h in
      with_ok (
        if value == codes "asc"
        then push_values fuel R.valid R.next (R.seek_to_first i) ids
        else push_values fuel R.valid R.prev (R.seek_to_last i) ids)

  unfoldable pub fetch_by_order : ℕ → Bytes → Bytes → List Bytes → Engine R → Fetched
  unfolding order_at
  fetch_by_order fuel name value ids e =
      order_at fuel (lookup name e.column_families) name value ids e

  equal_at : ℕ → Option R.Handle → Bytes → Bytes → List Bytes → Engine R → Fetched
  unfolding push_values
  equal_at fuel none name prefix ids e = returns (no_collection name, ids)
  equal_at fuel (some h) name prefix ids e =
      with_ok
        (push_values fuel (at_prefix prefix) R.next (R.seek (R.new_iterator e.world h) prefix) ids)

  unfoldable pub fetch_for_equal : ℕ → Bytes → Bytes → List Bytes → Engine R → Fetched
  unfolding equal_at
  fetch_for_equal fuel name prefix ids e =
      equal_at fuel (lookup name e.column_families) name prefix ids e

  push_after : ℕ → Result R.Iterator → List Bytes → Result (List Bytes)
  unfolding push_values
  push_after fuel (returns i) ids = push_values fuel R.valid R.next i ids
  push_after fuel (raises m) ids = raises m
  push_after fuel crashes ids = crashes
  push_after fuel stops ids = stops

  greater_at : ℕ → Option R.Handle → Bytes → Bytes → List Bytes → Engine R → Fetched
  unfolding push_after skip
  greater_at fuel none name prefix ids e = returns (no_collection name, ids)
  greater_at fuel (some h) name prefix ids e = with_ok (
      push_after fuel
        (skip fuel (at_prefix prefix) R.next (R.seek (R.new_iterator e.world h) prefix)) ids)

  unfoldable pub fetch_for_greater : ℕ → Bytes → Bytes → List Bytes → Engine R → Fetched
  unfolding greater_at
  fetch_for_greater fuel name prefix ids e =
      greater_at fuel (lookup name e.column_families) name prefix ids e

  unfoldable pub push_back_values : ℕ → R.Iterator → List Bytes → Result (List Bytes)
  unfolding key_has_mark
  push_back_values zero i ids = stops
  push_back_values (suc fuel) i ids =
      let rest = push_back_values fuel (R.prev i) (ids ++ R.value i ∷ []) in
      if R.valid i then (if key_has_mark (R.key i) then rest else crashes) else returns ids

  lesser_at : ℕ → Option R.Handle → Bytes → Bytes → List Bytes → Engine R → Fetched
  unfolding push_back_values
  lesser_at fuel none name prefix ids e = returns (no_collection name, ids)
  lesser_at fuel (some h) name prefix ids e =
      let i = R.seek_for_prev (R.new_iterator e.world h) prefix in
      with_ok (push_back_values fuel (if at_prefix prefix i then R.prev i else i) ids)

  unfoldable pub fetch_for_lesser : ℕ → Bytes → Bytes → List Bytes → Engine R → Fetched
  unfolding lesser_at
  fetch_for_lesser fuel name prefix ids e =
      lesser_at fuel (lookup name e.column_families) name prefix ids e

  -- getAll() clears its output argument first.
  all_at : ℕ → Option R.Handle → Bytes → List Bytes → Engine R → Fetched
  unfolding push_values
  all_at fuel none name values e = returns (no_collection name, values)
  all_at fuel (some h) name values e =
      with_ok (push_values fuel R.valid R.next (R.seek_to_first (R.new_iterator e.world h)) [])

  unfoldable pub get_all : ℕ → Bytes → List Bytes → Engine R → Fetched
  unfolding all_at
  get_all fuel name values e = all_at fuel (lookup name e.column_families) name values e
