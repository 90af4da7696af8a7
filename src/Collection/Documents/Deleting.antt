-- ===== src/Collection/Documents/Deleting.antt =====
-- What deleteDocument takes from the collection and from its indexes.
use anu_db.Base.{
  ◌≡◌, ap, ◌∙◌, inl, inr, true, some, none, Bytes, bytes_eq, contains, arith, Bool-cases,
  Option-cases, eq_self,
}
use anu_db.Status.{Status, is_ok}
use anu_db.Exec.{Exec, returns, gives, Try-cases}
use anu_db.Json.{Json}
use anu_db.RocksDb.{RocksDb}
use anu_db.RocksDb.Contract.{IsLawful}
use anu_db.Engine.{Engine, remove}
use anu_db.Engine.Names.{get_index_names}
use anu_db.Engine.Tables.{IsConsistent, remove-IsConsistent}
use anu_db.Engine.Entries.{entry, entry-remove}
use anu_db.Document.{Document, has_field}
use anu_db.Collection.{index_cf_name, index_key}
use anu_db.Collection.Documents.{
  delete_document, delete_read, delete_if_index_field_exists, for_indexes, read_document,
  empty_document,
}
use anu_db.Collection.Documents.Indexing.{
  Succeeds, both_succeed, for_indexes_keeps, for_indexes_each,
}

module _ ⦃R : RocksDb⦄ ⦃J : Json⦄ (name : Bytes) where
  -- What a step of the index loop that succeeded did.
  pub delete_ok :
      (doc : Document J) (i : Bytes) (e : Engine R)
      → Succeeds (delete_if_index_field_exists name doc i e)
      → (x : J.Value) × (J.find doc.data_value i ≡ some x)
        × (k : Bytes) × (index_key x doc.id ≡ gives k)
        × Succeeds (remove (index_cf_name name i) k e)
        × ((delete_if_index_field_exists name doc i e).1 ≡ (remove (index_cf_name name i) k e).1)
  unfolding delete_if_index_field_exists
  delete_ok doc i e s = elim (Option-cases (J.find doc.data_value i)) [
    | inl f ↦ absurd (let (u, r, o) = s in ground arith)
    | inr (x, f) ↦ elim (Try-cases (index_key x doc.id)) [
      | inl (k, g) ↦ (x, f, k, g, rw (f, g) at s, rw (f, g))
      | inr (m, g) ↦ absurd (let (u, r, o) = s in ground arith)
    ]
  ]

  -- What deleteDocument that returned OK went through.
  pub deleted_ok :
      (id : Bytes) (e : Engine R)
      → Succeeds (delete_document name id e)
      → let doc = (read_document name id empty_document e).1 in
        let looped =
          for_indexes name (delete_if_index_field_exists name) doc (get_index_names name e) e in
        (is_ok (read_document name id empty_document e).0 ≡ true)
        × Succeeds looped
        × Succeeds (remove name id looped.1)
        × ((delete_document name id e).1 ≡ (remove name id looped.1).1)
  unfolding delete_document delete_read
  deleted_ok id e s = elim (Bool-cases (is_ok (read_document name id empty_document e).0)) [
    | inl good ↦
        let doc = (read_document name id empty_document e).1 in
        let (looped, same, rest) =
          both_succeed
            (for_indexes name (delete_if_index_field_exists name) doc (get_index_names name e) e)
            (remove name id) (rw good at s) in
        (good, looped, rest, rw good (ap (λ p. p.1) same))
    | inr bad ↦ absurd (let (u, r, o) = rw bad at s in ground arith)
  ]

module _ ⦃R : RocksDb⦄ ⦃J : Json⦄ (L : IsLawful R) (name : Bytes) where
  -- The document's entry in one index is not there.
  abbrev pub Unindexed : Document J → Bytes → Engine R → Type 0
  Unindexed d i e =
      (x : J.Value) × (J.find d.data_value i ≡ some x)
      × (k : Bytes) × (index_key x d.id ≡ gives k)
      × (entry L (index_cf_name name i) k e ≡ none)

  -- A remove leaves missing what was missing.
  remove_keeps_missing :
      (e : Engine R) (c : IsConsistent L e) (n k cf j : Bytes)
      → Succeeds (remove n k e)
      → entry L cf j e ≡ none
      → entry L cf j (remove n k e).1 ≡ none
  remove_keeps_missing e c n k cf j (s, r, o) h =
      rw (entry-remove L n e c s k cf j r o) (ground (arith, h))

  module _ (d : Document J) where
    abbrev step : Bytes → Exec (Engine R) Status
    step i = delete_if_index_field_exists name d i

    Step-IsConsistent :
        (i : Bytes) (e : Engine R)
        → IsConsistent L e
        → Succeeds (step i e)
        → IsConsistent L (step i e).1
    Step-IsConsistent i e c s =
        let (x, f, k, g, done, e_is) = delete_ok name d i e s in
        rw e_is (remove-IsConsistent L (index_cf_name name i) e c k)

    step-Unindexed :
        (i : Bytes) (e : Engine R)
        → IsConsistent L e
        → Succeeds (step i e)
        → Unindexed d i (step i e).1
    step-Unindexed i e c s =
        let (x, f, k, g, done, e_is) = delete_ok name d i e s in
        let (t, r, o) = done in
        (
          x,
          f,
          k,
          g,
          rw e_is (
              entry-remove L (index_cf_name name i) e c t k (index_cf_name name i) k r o
              ∙ rw (eq_self (index_cf_name name i), eq_self k)),
        )

    step_keeps :
        (i j : Bytes) (e : Engine R)
        → IsConsistent L e
        → Unindexed d j e
        → Succeeds (step i e)
        → Unindexed d j (step i e).1
    step_keeps i j e c (x, f, k, g, gone) s =
        let (x', f', k', g', done, e_is) = delete_ok name d i e s in
        (x, f, k, g, rw e_is (remove_keeps_missing e c (index_cf_name name i) k' _ k done gone))

  -- A deleteDocument that returns OK, over a consistent engine, has read a document there; it
  -- leaves the engine consistent, nothing under the identifier in the collection and, for each
  -- index whose field the document that was read has, nothing in the index under the key of that
  -- document.
  pub delete_document_removes :
      (id : Bytes) (s : Status) (e e' : Engine R)
      → IsConsistent L e
      → delete_document ⦃J = J⦄ name id e ≡ (returns s, e')
      → is_ok s ≡ true
      → let (status, doc) = read_document name id (empty_document ⦃J = J⦄) e in
        (is_ok status ≡ true)
        × IsConsistent L e'
        × (entry L name id e' ≡ none)
        × ((i : Bytes)
            → contains (get_index_names name e) i ≡ true
            → has_field i doc ≡ true
            → Unindexed doc i e')
  delete_document_removes id s e e' c r o =
      let doc = (read_document name id (empty_document ⦃J = J⦄) e).1 in
      let names = get_index_names name e in
      let op = delete_if_index_field_exists ⦃J = J⦄ name in
      let e1 = (for_indexes name op doc names e).1 in
      let (good, looped, stored, e_is) = deleted_ok ⦃J = J⦄ name id e (s, rw r, o) in
      let e'_is : e' ≡ (remove name id e1).1 = rw r at e_is in
      let c1 : IsConsistent L e1 =
        for_indexes_keeps name op doc (λ e2. IsConsistent L e2) (Step-IsConsistent doc) names e c
          looped in
      let (t, remove_r, remove_o) = stored in
      (
        good,
        rw e'_is (remove-IsConsistent L name e1 c1 id),
        rw e'_is (
            entry-remove L name e1 c1 t id name id remove_r remove_o
            ∙ rw (eq_self name, eq_self id)),
        λ i m f.
            let (x, xf, k, kg, gone) =
              for_indexes_each name op doc (λ e2. IsConsistent L e2) (Unindexed doc)
                (Step-IsConsistent doc) (step-Unindexed doc) (step_keeps doc) names e c looped i m
                f in
            (x, xf, k, kg, rw e'_is (remove_keeps_missing e1 c1 name id _ k stored gone)),
      )
