-- ===== src/Collection/Indexes/Complete.antt =====
-- src/Collection.cpp: createIndex from its start to its end, over the collection's table.
use anu_db.Base.{
  ℕ, zero, suc, ◌≡◌, ap, ◌∙◌, sym, inl, inr, true, none, some, Bytes, bytes_eq, arith, lookup,
  All-map, Option-cases, subst,
}
use anu_db.Status.{Status, is_ok}
use anu_db.Exec.{Result, returns, raises, crashes, stops, gives, pure, try_catch}
use anu_db.Json.{Json}
use anu_db.RocksDb.{RocksDb}
use anu_db.RocksDb.Table.Lookups.{lookup_each, lookup-All}
use anu_db.RocksDb.Contract.{IsLawful}
use anu_db.Engine.{Engine, create_collection}
use anu_db.Engine.Tables.{IsConsistent}
use anu_db.Engine.Families.{create_collection-IsConsistent, table_of-create_collection}
use anu_db.Engine.Entries.{entry, entry_in}
use anu_db.Cursor.{create_cursor, at_iterator}
use anu_db.Document.{Document, has_field, from_msgpack}
use anu_db.Collection.{index_cf_name}
use anu_db.Collection.Documents.Indexing.{Succeeds}
use anu_db.Collection.Documents.Storing.{Indexed, index_cf_name-ne}
use anu_db.Collection.Indexes.Building.{Apart, Among, Entered, index_all-Built}
use anu_db.Collection.Indexes.{create_index, index_all, undecoded}

module _ ⦃R : RocksDb⦄ ⦃J : Json⦄ (L : IsLawful R) (name index : Bytes) where
  -- A document that is stored in the collection.
  abbrev pub IsIn : Engine R → Document J → Type 0
  IsIn e d = (id v : Bytes) × (entry L name id e ≡ some v) × (from_msgpack v ≡ gives d)

  -- The loop from the first entry of the collection's table.
  built_table :
      (fuel : ℕ) (e : Engine R) (h : R.Handle)
      → IsConsistent L e
      → Apart L name index (IsIn e)
      → lookup name e.column_families ≡ some h
      → let i = R.seek_to_first (R.new_iterator e.world h) in
        Succeeds (index_all name fuel index (at_iterator i) e)
        → let e' = (index_all name fuel index (at_iterator i) e).1 in
          IsConsistent L e'
          × ((d : Document J) → IsIn e d → has_field index d ≡ true → Indexed L name d index e')
  built_table fuel e h c apart f s =
      let table = L.contents e.world h in
      let i = R.seek_to_first (R.new_iterator e.world h) in
      let live = c.live name h f in
      let ahead =
        L.ahead-seek_to_first (R.new_iterator e.world h) ∙ L.snapshot-new_iterator e.world h live in
      let found : (k : Bytes) → entry L name k e ≡ lookup k table = λ k. rw f in
      let among =
        All-map (λ en. lookup en.0 table ≡ some en.1) (λ en. Among L name index (IsIn e) en.0 en.1)
          table (λ en q d g. (en.0, en.1, found en.0 ∙ q, g))
          (lookup_each table (L.sorted e.world h live)) in
      let (c', entered, _) =
        index_all-Built L name index (IsIn e) apart fuel i table e ahead among c s in
      let e' = (index_all name fuel index (at_iterator i) e).1 in
      (
        c',
        λ d (id, v, q, g) g2.
            lookup-All (λ k w. Entered L name index e' k w) id v table entered (sym (found id) ∙ q)
              d g g2,
      )

  -- Without a family the cursor is not valid, and no document is in the collection.
  built_none :
      (fuel : ℕ) (e : Engine R)
      → IsConsistent L e
      → lookup name e.column_families ≡ none
      → Succeeds (index_all name fuel index (create_cursor name e) e)
      → let e' = (index_all name fuel index (create_cursor name e) e).1 in
        IsConsistent L e'
        × ((d : Document J) → IsIn e d → has_field index d ≡ true → Indexed L name d index e')
  unfolding index_all create_cursor
  built_none zero e c f s = absurd (let (u, r, o) = s in ground arith)
  built_none (suc fuel) e c f s = rw f (c, λ d (id, v, q, g) g2. absurd (ground arith))

  built :
      (fuel : ℕ) (e : Engine R)
      → IsConsistent L e
      → Apart L name index (IsIn e)
      → Succeeds (index_all name fuel index (create_cursor name e) e)
      → let e' = (index_all name fuel index (create_cursor name e) e).1 in
        IsConsistent L e'
        × ((d : Document J) → IsIn e d → has_field index d ≡ true → Indexed L name d index e')
  built fuel e c apart s = elim (Option-cases (lookup name e.column_families)) [
    | inl f ↦ built_none fuel e c f s
    | inr (h, f) ↦
        let cursor_is : create_cursor name e
            ≡ at_iterator (R.seek_to_first (R.new_iterator e.world h)) =
          unfold create_cursor in rw f in
        rw cursor_is (built_table fuel e h c apart f (rw cursor_is at s))
  ]

  -- What createIndex that returned OK went through, once the family is there.
  index_all-caught :
      (p : Result Status × Engine R) (s : Status) (e' : Engine R)
      → try_catch (λ e. p) (λ m. pure (undecoded m)) e' ≡ (returns s, e')
      → is_ok s ≡ true
      → p ≡ (returns s, e')
  index_all-caught (returns t, e1) s e' r o = r
  index_all-caught (raises m, e1) s e' r o = absurd (ground arith)
  index_all-caught (crashes, e1) s e' r o = absurd (ground arith)
  index_all-caught (stops, e1) s e' r o = absurd (ground arith)

  pub create_index-steps :
      (fuel : ℕ) (s t : Status) (e e' : Engine R)
      → (create_collection (index_cf_name name index) e).0 ≡ returns t
      → create_index name fuel index e ≡ (returns s, e')
      → is_ok s ≡ true
      → let e1 = (create_collection (index_cf_name name index) e).1 in
        index_all name fuel index (create_cursor name e1) e1 ≡ (returns s, e')
  unfolding create_index
  create_index-steps fuel s t e e' made r o =
      let e1 = (create_collection (index_cf_name name index) e).1 in
      index_all-caught (index_all name fuel index (create_cursor name e1) e1) s e' (rw made at r) o

  -- Over a consistent engine, where the family of the index can be created and no two documents of
  -- the collection share a key in it, a createIndex that returns OK leaves the engine consistent
  -- and, for every document that is stored in the collection and has the field, its identifier in
  -- the index under its index key.
  pub create_index-Indexed :
      (fuel : ℕ) (s t : Status) (e e' : Engine R)
      → IsConsistent L e
      → Apart L name index (IsIn e)
      → (create_collection (index_cf_name name index) e).0 ≡ returns t
      → is_ok t ≡ true
      → create_index name fuel index e ≡ (returns s, e')
      → is_ok s ≡ true
      → IsConsistent L e'
        × ((d : Document J) → IsIn e d → has_field index d ≡ true → Indexed L name d index e')
  create_index-Indexed fuel s t e e' c apart made made_ok r o =
      let cf = index_cf_name name index in
      let e1 = (create_collection cf e).1 in
      let c1 = create_collection-IsConsistent L cf e c t made made_ok in
      let (_, table_is) = table_of-create_collection L cf e c name t made made_ok in
      let same : (k : Bytes) → entry L name k e1 ≡ entry L name k e =
        λ k. ap (λ t. entry_in L t k) (table_is ∙ ground (arith, index_cf_name-ne name index)) in
      let steps = create_index-steps fuel s t e e' made r o in
      let apart1 : Apart L name index (IsIn e1) = λ d d' x x' k (i, v, q, g) (i', v', q', g').
        apart d d' x x' k (i, v, sym (same i) ∙ q, g) (i', v', sym (same i') ∙ q', g') in
      let (c2, all) = built fuel e1 c1 apart1 (s, ap (λ p. p.0) steps, o) in
      let e_is : (index_all name fuel index (create_cursor name e1) e1).1 ≡ e' =
        ap (λ p. p.1) steps in
      (
        rw e_is at c2,
        λ d (i, v, q, g) f.
            subst (λ e2. Indexed L name d index e2) e_is (all d (i, v, same i ∙ q, g) f),
      )
