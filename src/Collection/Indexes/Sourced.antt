-- ===== src/Collection/Indexes/Sourced.antt =====
-- src/Collection.cpp: createIndex enters nothing but the documents of the collection.
use anu_db.Base.{
  ℕ, zero, suc, ◌≡◌, ap, ◌∙◌, sym, inl, inr, true, List, [], ◌∷◌, none, some, Bytes, ◌==◌, bytes_eq,
  arith, Bool-cases, Option-cases, All, All-map, eq_self, eq_sound, subst, lookup, if◌then◌else◌,
  ◌↔◌,
}
use anu_db.Status.{Status, is_ok}
use anu_db.Exec.{returns, gives}
use anu_db.Json.{Json}
use anu_db.RocksDb.{RocksDb}
use anu_db.RocksDb.Table.{Entry}
use anu_db.RocksDb.Table.Lookups.{lookup_each}
use anu_db.RocksDb.Contract.{IsLawful}
use anu_db.Engine.{Engine, create_collection}
use anu_db.Engine.Tables.{IsConsistent}
use anu_db.Engine.Families.{create_collection-IsConsistent, table_of-create_collection}
use anu_db.Engine.Entries.{entry, entry_in, entry-put}
use anu_db.Cursor.{create_cursor, at_iterator}
use anu_db.Document.{Document, has_field}
use anu_db.Collection.{index_cf_name, index_key}
use anu_db.Collection.Documents.Indexing.{Succeeds}
use anu_db.Collection.Documents.Storing.{insert_ok, index_cf_name-ne}
use anu_db.Collection.Indexes.Building.{Apart, Among, step, step-Indexed, index_all-Round}
use anu_db.Collection.Indexes.Complete.{IsIn, create_index-steps, create_index-Indexed}
use anu_db.Collection.Indexes.{create_index, index_all}

module _ ⦃R : RocksDb⦄ ⦃J : Json⦄ (L : IsLawful R) (name index : Bytes) where
  -- A document with this identifier and this key in the index.
  abbrev pub Keyed : Bytes → Bytes → Document J → Type 0
  Keyed k id d =
      (d.id ≡ id)
      × (x : J.Value) × (J.find d.data_value index ≡ some x)
      × (index_key x d.id ≡ gives k)

  -- Every entry of the index is of one of these documents.
  abbrev Sourced : (Document J → Type 0) → Engine R → Type 0
  Sourced P e =
      (k id : Bytes)
      → entry L (index_cf_name name index) k e ≡ some id
      → (d : Document J) × P d × Keyed k id d

  step-Sourced :
      (P : Document J → Type 0) (d : Document J) (e : Engine R)
      → P d
      → IsConsistent L e
      → Succeeds (step L name index d e)
      → Sourced P e
      → Sourced P (step L name index d e).1
  step-Sourced P d e p c s from k id there =
      let (x, f, j, g, (t, r, o), e_is) = insert_ok name d index e s in
      let cf = index_cf_name name index in
      let now : (if k == j then some d.id else entry L cf k e) ≡ some id =
        rw (eq_self cf) at (sym (entry-put L cf e c t j d.id cf k r o) ∙ rw e_is at there) in
      elim (Bool-cases (k == j)) [
        | inl hit ↦
            let same : some d.id ≡ some id = rw hit at now in
            (d, p, (ground (arith, same), x, f, g ∙ ap gives (sym (eq_sound k j hit))))
        | inr miss ↦ from k id (rw miss at now)
      ]

  index_all-Sourced :
      (P : Document J → Type 0) (fuel : ℕ) (i : R.Iterator) (es : List Entry) (e : Engine R)
      → L.ahead i ≡ es
      → All (λ en. Among L name index P en.0 en.1) es
      → IsConsistent L e
      → Succeeds (index_all name fuel index (at_iterator i) e)
      → Sourced P e
      → Sourced P (index_all name fuel index (at_iterator i) e).1
  unfolding index_all
  index_all-Sourced P zero i es e a m c s from = absurd (let (u, r, o) = s in ground arith)
  index_all-Sourced P (suc fuel) i [] e a m c s from =
      let e_is : e ≡ (index_all name (suc fuel) index (at_iterator i) e).1 =
        rw (L.valid_ahead i, a) in
      subst (λ e2. Sourced P e2) e_is from
  index_all-Sourced P (suc fuel) i ((k, v) ∷ es) e a m c s from =
      let (_, _, rest_is) = L.at_ahead i k v es a in
      let (d, g, round) = index_all-Round L name index fuel i k v es e a s in
      let again = λ (e1 : Engine R). index_all-Sourced P fuel (R.next i) es e1 rest_is m.1 in
      elim round [
        | inl (there, stepped, looped, e_is) ↦
            subst (λ e2. Sourced P e2) (sym e_is)
              (again (step L name index d e).1 (step-Indexed L name index d e c stepped).0 looped
                (step-Sourced P d e (m.0 d g) c stepped from))
        | inr (absent, looped, e_is) ↦ subst (λ e2. Sourced P e2) (sym e_is) (again e c looped from)
      ]

  loop_without_table :
      (fuel : ℕ) (e : Engine R)
      → lookup name e.column_families ≡ none
      → Succeeds (index_all name fuel index (create_cursor name e) e)
      → e ≡ (index_all name fuel index (create_cursor name e) e).1
  unfolding index_all create_cursor
  loop_without_table zero e f s = absurd (let (u, r, o) = s in ground arith)
  loop_without_table (suc fuel) e f s = rw f

  -- The loop from the cursor of the collection.
  loop-Sourced :
      (fuel : ℕ) (e : Engine R)
      → IsConsistent L e
      → Succeeds (index_all name fuel index (create_cursor name e) e)
      → Sourced (IsIn L name index e) e
      → Sourced (IsIn L name index e) (index_all name fuel index (create_cursor name e) e).1
  loop-Sourced fuel e c s from = elim (Option-cases (lookup name e.column_families)) [
    | inl f ↦ subst (λ e2. Sourced (IsIn L name index e) e2) (loop_without_table fuel e f s) from
    | inr (h, f) ↦
        let table = L.contents e.world h in
        let i = R.seek_to_first (R.new_iterator e.world h) in
        let live = c.live name h f in
        let ahead =
          L.ahead-seek_to_first (R.new_iterator e.world h)
          ∙ L.snapshot-new_iterator e.world h live in
        let found : (k : Bytes) → entry L name k e ≡ lookup k table = λ k. rw f in
        let among =
          All-map (λ en. lookup en.0 table ≡ some en.1)
            (λ en. Among L name index (IsIn L name index e) en.0 en.1) table
            (λ en q d g. (en.0, en.1, found en.0 ∙ q, g))
            (lookup_each table (L.sorted e.world h live)) in
        let cursor_is : create_cursor name e ≡ at_iterator i = unfold create_cursor in rw f in
        rw cursor_is (
          index_all-Sourced (IsIn L name index e) fuel i table e ahead among c (rw cursor_is at s)
            from)
  ]

  -- Over a consistent engine, where the family of the index can be created and no two documents of
  -- the collection share a key in it, a createIndex that returns OK leaves the engine consistent
  -- and the index with exactly the keys of the documents that are stored in the collection and have
  -- the field, each with the identifier of its document.
  pub create_index_holds :
      (fuel : ℕ) (s t : Status) (e e' : Engine R)
      → IsConsistent L e
      → Apart L name index (IsIn L name index e)
      → (create_collection (index_cf_name name index) e).0 ≡ returns t
      → is_ok t ≡ true
      → create_index name fuel index e ≡ (returns s, e')
      → is_ok s ≡ true
      → IsConsistent L e'
        × ((k id : Bytes)
            → (entry L (index_cf_name name index) k e' ≡ some id)
              ↔ ((d : Document J) × IsIn L name index e d × Keyed k id d))
  unfolding has_field lookup
  create_index_holds fuel s t e e' c apart made made_ok r o =
      let cf = index_cf_name name index in
      let e1 = (create_collection cf e).1 in
      let c1 = create_collection-IsConsistent L cf e c t made made_ok in
      let tables = λ (n : Bytes). (table_of-create_collection L cf e c n t made made_ok).1 in
      let same : (k : Bytes) → entry L name k e1 ≡ entry L name k e =
        λ k. ap (λ t. entry_in L t k) (tables name ∙ ground (arith, index_cf_name-ne name index)) in
      let at_first : (k : Bytes) → entry L cf k e1 ≡ none =
        λ k. ap (λ t. entry_in L t k) (rw (eq_self cf) at (tables cf)) in
      let steps = create_index-steps L name index fuel s t e e' made r o in
      let from =
        subst (λ e2. Sourced (IsIn L name index e1) e2) (ap (λ p. p.1) steps)
          (loop-Sourced fuel e1 c1 (s, ap (λ p. p.0) steps, o)
            (λ k id h. absurd (let none_there = at_first k in ground arith))) in
      let (c', all) = create_index-Indexed L name index fuel s t e e' c apart made made_ok r o in
      (
        c',
        λ k id. (
          λ h.
              (let (d, (i, v, q, g), keyed) = from k id h in
                (d, (i, v, sym (same i) ∙ q, g), keyed)),
          λ (d, p, (id_is, x, f, g)).
              (let (x', f', k', g', there) = all d p (rw f) in
                let x_is : some x' ≡ some x = sym f' ∙ f in
                let k_is : gives k' ≡ gives k =
                  sym g' ∙ ap (λ y. index_key y d.id) (ground (arith, x_is)) ∙ g in
                let k_eq : k' ≡ k = ground (arith, k_is) in rw (← k_eq) (there ∙ ap some id_is)),
        ),
      )
