-- ===== src/Engine/Scan/Fetch.antt =====
-- What the fetches of the engine collect, for any table that fits the fuel.
use anu_db.Base.{
  ℕ, ◌<◌, ◌≡◌, refl, ◌∙◌, sym, ap, true, not, ◌&&◌, List, [], ◌∷◌, ◌++◌, Bytes, some, length,
  starts_with, if◌then◌else◌, All-keep_if, All-reverse, drop_while, take_while, reverse, arith,
  Bool-cases, inl, inr, lookup, codes, before, length-drop_while-le, length-keep_if-le,
  length-reverse, eq_self, reverse-map-reverse, map-append, ◌==◌, bytes_eq,
}
use anu_db.Status
use anu_db.Status.{Status}
use anu_db.Exec.{returns}
use anu_db.RocksDb.{RocksDb}
use anu_db.RocksDb.Table.{Entry}
use anu_db.RocksDb.Table.Ranges.{
  step_off, with_prefix, past_prefix, before_key, take-drop-with_prefix, drop-drop-past_prefix,
  step_off-before_key, split_at_prefix,
}
use anu_db.RocksDb.Contract.{IsLawful}
use anu_db.Engine.{Engine}
use anu_db.Engine.Scan.{
  at_prefix, key_has_mark, fetch_for_equal, fetch_for_greater, fetch_for_lesser, fetch_by_order,
  get_all, with_ok,
}
use anu_db.Engine.Scan.Loops.{
  values, ahead-IsWalk, behind-IsWalk, push_values-take_while, push_values_all, skip-drop_while,
  Marked, push_back_values_all,
}

module _ ⦃R : RocksDb⦄ (L : IsLawful R) (p : Bytes) (i : R.Iterator) where
  -- The step back off the prefix.
  behind-step_off : L.behind (if at_prefix p i then R.prev i else i) ≡ step_off p (L.behind i)
  behind-step_off = go (L.behind i) refl
    where
      go :
          (es : List Entry)
          → L.behind i ≡ es
          → L.behind (if at_prefix p i then R.prev i else i) ≡ step_off p es
      go [] e = rw (L.valid_behind i, e) e
      go ((k, v) ∷ es) e =
          let (a, _, c) = L.at_behind i k v es e in
          rw (L.valid_behind i, e, a)
            (elim (Bool-cases (starts_with k p)) [ inl hit ↦ rw hit c | inr miss ↦ rw miss e ])

module _ ⦃R : RocksDb⦄ (L : IsLawful R) (e : Engine R) (name : Bytes) (h : R.Handle)
    (found : lookup name e.column_families ≡ some h) (live : L.Live e.world h) (fuel : ℕ)
    (enough : length (L.contents e.world h) < fuel) where
  abbrev table : List Entry
  table = L.contents e.world h

  ahead-first : L.ahead (R.seek_to_first (R.new_iterator e.world h)) ≡ table
  ahead-first = L.ahead-seek_to_first _ ∙ L.snapshot-new_iterator e.world h live

  ahead-seeks :
      (p : Bytes)
      → L.ahead (R.seek (R.new_iterator e.world h) p) ≡ drop_while (λ e. before e.0 p) table
  ahead-seeks p =
      L.ahead-seek _ p
      ∙ ap (drop_while (λ e. before e.0 p)) (L.snapshot-new_iterator e.world h live)

  -- For a family with a live handle and fewer entries than the fuel, fetchDocIdsForEqual returns OK
  -- and appends the values of the keys that start with the prefix, in key order.
  pub fetch_for_equal_lem :
      (p : Bytes) (ids : List Bytes)
      → fetch_for_equal fuel name p ids e ≡ returns (Status.ok, ids ++ values (with_prefix p table))
  unfolding fetch_for_equal
  fetch_for_equal_lem p ids = rw found (
      rw
        (push_values-take_while (ahead-IsWalk L) (λ k. starts_with k p) (at_prefix p) (λ i. refl)
          fuel _ ids _ (ahead-seeks p)
          (omega (arith, length-drop_while-le (λ (e : Entry). before e.0 p) table)))
        (ap (λ l. returns (Status.ok, ids ++ values l))
          (take-drop-with_prefix p table (L.sorted e.world h live))))

  -- For a family with a live handle and fewer entries than the fuel, fetchDocIdsForGreater returns
  -- OK and appends the values of the keys past all those with the prefix, in key order.
  pub fetch_for_greater_lem :
      (p : Bytes) (ids : List Bytes)
      → fetch_for_greater fuel name p ids e
        ≡ returns (Status.ok, ids ++ values (past_prefix p table))
  unfolding fetch_for_greater
  fetch_for_greater_lem p ids =
      let (j, s, d) =
        skip-drop_while (ahead-IsWalk L) (λ k. starts_with k p) (at_prefix p) (λ i. refl) fuel
          (R.seek (R.new_iterator e.world h) p) _ (ahead-seeks p)
          (omega (arith, length-drop_while-le (λ (e : Entry). before e.0 p) table)) in
      rw found (
        rw (s) (
          ap with_ok (
            push_values_all (ahead-IsWalk L) fuel j ids (past_prefix p table)
              (d ∙ drop-drop-past_prefix p table (L.sorted e.world h live))
              (omega (
                arith,
                length-keep_if-le (λ (e : Entry). not (before e.0 p) && not (starts_with e.0 p))
                    table,
              )))))

  -- For a family with a live handle, whose keys all contain the mark and whose entries are fewer
  -- than the fuel, fetchDocIdsForLesser returns OK and appends the values of the keys before the
  -- prefix, from the last back.
  pub fetch_for_lesser_lem :
      (p : Bytes) (ids : List Bytes)
      → Marked table
      → fetch_for_lesser fuel name p ids e
        ≡ returns (Status.ok, ids ++ values (reverse (before_key p table)))
  unfolding fetch_for_lesser
  fetch_for_lesser_lem p ids m =
      let i = R.seek_for_prev (R.new_iterator e.world h) p in
      rw found (
        ap with_ok (
          push_back_values_all L fuel (if at_prefix p i then R.prev i else i) ids
            (reverse (before_key p table))
            (behind-step_off L p i
              ∙ ap (step_off p) (
                  L.behind-seek_for_prev _ p
                  ∙ ap (λ t. reverse (take_while (λ e. not (before p e.0)) t))
                      (L.snapshot-new_iterator e.world h live))
              ∙ step_off-before_key p table (L.sorted e.world h live))
            (All-reverse (λ e. key_has_mark e.0 ≡ true) _
              (All-keep_if (λ e. key_has_mark e.0 ≡ true) (λ e. before e.0 p) table m))
            (rw length-reverse
              (omega (arith, length-keep_if-le (λ (e : Entry). before e.0 p) table)))))

  -- For a family with a live handle and fewer entries than the fuel, fetchDocIdsByOrder returns OK
  -- and appends all values, in key order for "asc" and from the last back otherwise.
  pub fetch_by_order_lem :
      (value : Bytes) (ids : List Bytes)
      → fetch_by_order fuel name value ids e
        ≡ returns (Status.ok, ids ++ values (if value == codes "asc" then table else reverse table))
  unfolding fetch_by_order
  fetch_by_order_lem value ids = elim (Bool-cases (value == codes "asc")) [
    | inl asc ↦
        rw (found, asc)
          (ap with_ok (push_values_all (ahead-IsWalk L) fuel _ ids table ahead-first enough))
    | inr desc ↦
        rw (found, desc)
          (ap with_ok (
            push_values_all (behind-IsWalk L) fuel _ ids (reverse table)
              (L.behind-seek_to_last _ ∙ ap reverse (L.snapshot-new_iterator e.world h live))
              (rw length-reverse enough)))
  ]

  -- For a family with a live handle and fewer entries than the fuel, getAll returns OK and replaces
  -- its output by all values in key order.
  pub get_all_lem : (old : List Bytes) → get_all fuel name old e ≡ returns (Status.ok, values table)
  unfolding get_all
  get_all_lem old =
      rw found (ap with_ok (push_values_all (ahead-IsWalk L) fuel _ [] table ahead-first enough))

  -- For an index whose keys all contain the mark and that fits the fuel, the identifiers of
  -- fetchDocIdsForLesser, reversed, then those of fetchDocIdsForEqual, then those of
  -- fetchDocIdsForGreater for one prefix are those of fetchDocIdsByOrder in ascending order, each
  -- call returning OK.
  pub fetches_split :
      (p : Bytes)
      → Marked table
      → (lesser equal greater : List Bytes) × (fetch_for_lesser fuel name p [] e
          ≡ returns (Status.ok, lesser))
        × (fetch_for_equal fuel name p [] e ≡ returns (Status.ok, equal))
        × (fetch_for_greater fuel name p [] e ≡ returns (Status.ok, greater))
        × (fetch_by_order fuel name (codes "asc") [] e
            ≡ returns (Status.ok, reverse lesser ++ (equal ++ greater)))
  fetches_split p m = (
    values (reverse (before_key p table)),
    values (with_prefix p table),
    values (past_prefix p table),
    fetch_for_lesser_lem p [] m,
    fetch_for_equal_lem p [],
    fetch_for_greater_lem p [],
    fetch_by_order_lem (codes "asc") []
        ∙ rw (eq_self (codes "asc"), reverse-map-reverse, ← map-append, ← map-append)
            (ap (λ t. returns (Status.ok, values t))
              (sym (split_at_prefix p table (L.sorted e.world h live)))),
  )
