-- ===== src/Collection/Find/Indexed.antt =====
-- src/Collection.cpp: what findDocument with "$eq" returns after createIndex.
use anu_db.Base.{
  ℕ, ◌<◌, ◌≡◌, refl, ◌∙◌, sym, ap, ◌↔◌, Bool, true, false, ◌||◌, List, [], ◌∷◌, ◌++◌, some, Bytes,
  bytes_eq, codes, contains, lookup, starts_with, ◌==◌, keep_if, length, All, All-map, arith,
  Bool-cases, Option-cases, eq_sound, inl, inr,
}
use anu_db.Status.{Status, is_ok}
use anu_db.Exec.{returns, gives, Try-cases}
use anu_db.Json.{Json}
use anu_db.RocksDb.{RocksDb}
use anu_db.RocksDb.Table.{Entry}
use anu_db.RocksDb.Table.Lookups.{lookup_each}
use anu_db.RocksDb.Table.Ranges.{with_prefix}
use anu_db.RocksDb.Contract.{IsLawful}
use anu_db.Engine.{Engine, create_collection}
use anu_db.Engine.Names.{get_index_names}
use anu_db.Engine.Entries.{entry}
use anu_db.Engine.Scan.{key_has_mark}
use anu_db.Engine.Scan.Loops.{values, Marked}
use anu_db.Engine.Tables.{IsConsistent, table_of}
use anu_db.Document.{Document}
use anu_db.Collection.{index_cf_name, index_key, parse_value, mark}
use anu_db.Collection.Find.{find_document}
use anu_db.Collection.Find.Meeting.{find_document-meets}
use anu_db.Collection.Find.Queries.{Asks, Condition, equal, Serves, single, meets}
use anu_db.Collection.Indexes.{create_index}
use anu_db.Collection.Indexes.Building.{Apart}
use anu_db.Collection.Indexes.Complete.{IsIn}
use anu_db.Collection.Indexes.Sourced.{Keyed, create_index_holds}

or_false : (b : Bool) → (b || false) ≡ b
or_false true = refl
or_false false = refl

key_has_mark-append : (v s : Bytes) → key_has_mark (v ++ (mark ++ s)) ≡ true
unfolding key_has_mark
key_has_mark-append [] s = refl
key_has_mark-append (c ∷ v) s = ground (arith, key_has_mark-append v s)

-- The identifiers under the keys with a prefix.
prefixed-found :
    (p id : Bytes) (table es : List Entry)
    → All (λ e. lookup e.0 table ≡ some e.1) es
    → contains (values (with_prefix p es)) id ≡ true
    → (k : Bytes) × (lookup k table ≡ some id) × (starts_with k p ≡ true)
unfolding keep_if
prefixed-found p id table [] a h = absurd (ground arith)
prefixed-found p id table ((j, v) ∷ es) a h = elim (Bool-cases (starts_with j p)) [
  | inl hit ↦ elim (Bool-cases (id == v)) [
    | inl same ↦ (j, a.0 ∙ ap some (sym (eq_sound id v same)), hit)
    | inr other ↦ prefixed-found p id table es a.1 (rw other at (rw hit at h))
  ]
  | inr miss ↦ prefixed-found p id table es a.1 (rw miss at h)
]

found-prefixed :
    (p id k : Bytes) (t : List Entry)
    → lookup k t ≡ some id
    → starts_with k p ≡ true
    → contains (values (with_prefix p t)) id ≡ true
unfolding keep_if lookup
found-prefixed p id k [] h b = absurd (ground arith)
found-prefixed p id k ((j, v) ∷ t) h b = elim (Bool-cases (k == j)) [
  | inl same ↦
      let v_is : some v ≡ some id = rw same at h in
      let j_has : starts_with j p ≡ true = rw (eq_sound k j same) at b in
      rw j_has (ground (arith, v_is))
  | inr other ↦ ground (arith, found-prefixed p id k t (rw other at h) b)
]

module _ ⦃R : RocksDb⦄ ⦃J : Json⦄ (L : IsLawful R) (name index : Bytes) where
  index_key-marked : (x : J.Value) (id k : Bytes) → index_key x id ≡ gives k → key_has_mark k ≡ true
  unfolding index_key
  index_key-marked x id k g = elim (Try-cases (parse_value x)) [
    | inl (v, q) ↦
        let k_is : gives (v ++ (mark ++ id)) ≡ gives k = rw q at g in
        let k_eq : v ++ (mark ++ id) ≡ k = ground (arith, k_is) in
        rw (← k_eq) (key_has_mark-append v id)
    | inr (m, q) ↦ absurd (let r = rw q at g in ground arith)
  ]

  -- The index's table behind its handle.
  table_handle :
      (e : Engine R) (cf : Bytes) (table : List Entry)
      → table_of L cf e ≡ some table
      → (h : R.Handle) × (lookup cf e.column_families ≡ some h) × (L.contents e.world h ≡ table)
  table_handle e cf table there = elim (Option-cases (lookup cf e.column_families)) [
    | inl f ↦ absurd (let none_there = rw f at there in ground arith)
    | inr (h, f) ↦
        let is : some (L.contents e.world h) ≡ some table = rw f at there in
        (h, f, ground (arith, is))
  ]

  -- A filter of one "$eq" over an index whose keys all have the mark.
  find_document_equal :
      (e : Engine R) (fuel : ℕ) (h : R.Handle)
      → IsConsistent L e
      → contains (get_index_names name e) index ≡ true
      → lookup (index_cf_name name index) e.column_families ≡ some h
      → length (L.contents e.world h) < fuel
      → Marked (L.contents e.world h)
      → (filter ops y : J.Value) (w : Bytes) → J.items filter ≡ gives ((codes "$eq", ops) ∷ [])
      → J.first_item ops ≡ gives (some (index, y))
      → parse_value y ≡ gives w
      → (ids : List Bytes) × (find_document name fuel filter e ≡ (returns ids, e))
        × ((id : Bytes)
            → contains ids id
              ≡ contains (values (with_prefix (w ++ mark) (L.contents e.world h))) id)
  find_document_equal e fuel h c listed f fits marked filter ops y w members first parsed =
      let q : Condition = record { comparison = equal; field = index; value = w } in
      let serves : Serves L name e fuel index = record {
        listed = listed;
        handle = h;
        found = f;
        live = c.live (index_cf_name name index) h f;
        enough = fits;
        marked = marked;
      } in
      let asks : Asks (codes "$eq", ops) q = record {
        operator = refl;
        operand = y;
        first = first;
        parsed = parsed;
        taken = refl;
      } in
      let (ids, found, meet) =
        find_document-meets L name fuel e filter ((codes "$eq", ops) ∷ []) (single q ∷ []) members
          (asks, tt) (serves, tt) in
      (ids, found, λ id. meet id ∙ or_false (meets L name e id (single q)) ∙ rw f refl)

  -- Over a consistent engine, let createIndex have created the family of an index and returned OK,
  -- with no two documents of the collection on one key; if the collection lists the index then and
  -- its table is there with fewer entries than the fuel, findDocument of a filter {"$eq": {index:
  -- y}}, where y is read as the text w, returns the identifiers of exactly those stored documents
  -- whose key in the index starts with w and "#", and leaves the engine.
  pub find_document-create_index :
      (fuel : ℕ) (s t : Status) (e e' : Engine R)
      → IsConsistent L e
      → Apart L name index (IsIn L name index e)
      → (create_collection (index_cf_name name index) e).0 ≡ returns t
      → is_ok t ≡ true
      → create_index name fuel index e ≡ (returns s, e')
      → is_ok s ≡ true
      → (fuel' : ℕ) (table : List Entry) → contains (get_index_names name e') index ≡ true
      → table_of L (index_cf_name name index) e' ≡ some table
      → length table < fuel'
      → (filter ops y : J.Value) (w : Bytes) → J.items filter ≡ gives ((codes "$eq", ops) ∷ [])
      → J.first_item ops ≡ gives (some (index, y))
      → parse_value y ≡ gives w
      → (ids : List Bytes) × (find_document name fuel' filter e' ≡ (returns ids, e'))
        × ((id : Bytes)
            → (contains ids id ≡ true) ↔ (
                (k : Bytes) × (starts_with k (w ++ mark) ≡ true)
                × ((d : Document J) × IsIn L name index e d × Keyed L name index k id d)))
  find_document-create_index fuel s t e e' c apart made made_ok r o fuel' table listed there fits
        filter ops y w members first parsed =
      let cf = index_cf_name name index in
      let (c', holds) = create_index_holds L name index fuel s t e e' c apart made made_ok r o in
      let (h, f, table_is) = table_handle e' cf table there in
      let each = lookup_each (L.contents e'.world h) (L.sorted e'.world h (c'.live cf h f)) in
      let at_key : (k : Bytes) → entry L cf k e' ≡ lookup k (L.contents e'.world h) = λ k. rw f in
      let marked : Marked (L.contents e'.world h) =
        All-map (λ en. lookup en.0 (L.contents e'.world h) ≡ some en.1)
          (λ en. key_has_mark en.0 ≡ true) (L.contents e'.world h)
          (λ en q.
            let (d, _, (_, x, _, g)) = (holds en.0 en.1).0 (at_key en.0 ∙ q) in
            index_key-marked x d.id en.0 g)
          each in
      let (ids, found, same) =
        find_document_equal e' fuel' h c' listed f (rw table_is fits) marked filter ops y w members
          first parsed in
      (
        ids,
        found,
        λ id. (
          λ there_is.
              (let (k, q, b) =
                  prefixed-found (w ++ mark) id (L.contents e'.world h) (L.contents e'.world h) each
                    (sym (same id) ∙ there_is) in
                (k, b, (holds k id).0 (at_key k ∙ q))),
          λ (k, b, keyed).
              same id
              ∙ found-prefixed (w ++ mark) id k (L.contents e'.world h)
                  (sym (at_key k) ∙ (holds k id).1 keyed) b,
        ),
      )
