-- ===== src/Collection/Indexes/Ending.antt =====
-- src/Collection.cpp: the loop of createIndex and its fuel.
use anu_db.Base.{
  ℕ, zero, suc, ◌<◌, ◌≡◌, refl, ◌∙◌, ◌≢◌, sym, inl, inr, true, List, [], ◌∷◌, some, Bytes,
  if◌then◌else◌, arith, Bool-cases, Option-cases, length, lookup,
}
use anu_db.Status
use anu_db.Status.{Status, is_ok}
use anu_db.Exec.{
  Exec, Result, returns, raises, crashes, stops, and_then, pure, Try-cases, try_catch,
}
use anu_db.Json.{Json}
use anu_db.RocksDb.{RocksDb}
use anu_db.RocksDb.Table.{Entry}
use anu_db.RocksDb.Contract.{IsLawful}
use anu_db.Engine.{Engine, put, put_index, create_collection}
use anu_db.Engine.Tables.{IsConsistent, table_of}
use anu_db.Engine.Families.{create_collection-IsConsistent, table_of-create_collection}
use anu_db.Collection.Documents.Storing.{index_cf_name-ne}
use anu_db.Cursor.{create_cursor, current, next, at_iterator}
use anu_db.Document.{Document, has_field, from_msgpack}
use anu_db.Collection.{index_key, index_cf_name}
use anu_db.Collection.Documents.{insert_if_index_field_exists}
use anu_db.Collection.Indexes.{create_index, index_all, index_one, undecoded}

-- The call does not run out of fuel.
abbrev Ends : {S A : Type 0} → Result A × S → Type 0
Ends p = p.0 ≢ stops

and_then-Ends :
    {S A B : Type 0} (p : Result A × S) (f : A → Exec S B)
    → Ends p
    → ((a : A) (s : S) → Ends (f a s))
    → Ends (and_then p f)
and_then-Ends (returns a, s) f p g = g a s
and_then-Ends (raises m, s) f p g = λ q. cc
and_then-Ends (crashes, s) f p g = λ q. cc
and_then-Ends (stops, s) f p g = λ q. p refl

put-Ends : ⦃R : RocksDb⦄ (n k v : Bytes) (e : Engine R) → Ends (put n k v e)
unfolding put
put-Ends n k v e = elim (Option-cases (lookup n e.column_families)) [
  | inl f ↦ rw f (λ q. cc)
  | inr (h, f) ↦ rw f (λ q. cc)
]

module _ ⦃R : RocksDb⦄ ⦃J : Json⦄ (name index : Bytes) where
  insert-Ends : (d : Document J) (e : Engine R) → Ends (insert_if_index_field_exists name d index e)
  unfolding insert_if_index_field_exists put_index put
  insert-Ends d e = elim (Option-cases (J.find d.data_value index)) [
    | inl f ↦ rw f (λ q. cc)
    | inr (x, f) ↦ elim (Try-cases (index_key x d.id)) [
      | inl (k, g) ↦ rw (f, g) (put-Ends (index_cf_name name index) k d.id e)
      | inr (m, g) ↦ rw (f, g) (λ q. cc)
    ]
  ]

  index_one-Ends :
      (d : Document J) (rest : Exec (Engine R) Status) (e : Engine R)
      → ((e' : Engine R) → Ends (rest e'))
      → Ends (index_one name index (Status.ok, d) rest e)
  unfolding index_one
  index_one-Ends d rest e r = elim (Bool-cases (has_field index d)) [
    | inl there ↦ rw there (
        and_then-Ends (insert_if_index_field_exists name d index e)
          (λ t. if is_ok t then rest else pure t) (insert-Ends d e)
          (λ t e'. elim (Bool-cases (is_ok t)) [
            | inl good ↦ rw good (r e')
            | inr bad ↦ rw bad (λ q. cc)
          ]))
    | inr absent ↦ rw absent (r e)
  ]

  index_all-Ends :
      (L : IsLawful R) (fuel : ℕ) (i : R.Iterator) (es : List Entry) (e : Engine R)
      → L.ahead i ≡ es
      → length es < fuel
      → Ends (index_all name fuel index (at_iterator i) e)
  unfolding index_all current next
  index_all-Ends L zero i es e a f = absurd (omega arith)
  index_all-Ends L (suc fuel) i [] e a f = rw (L.valid_ahead i, a) (λ q. cc)
  index_all-Ends L (suc fuel) i ((k, v) ∷ es) e a f =
      let (_, _, rest_is) = L.at_ahead i k v es a in
      let valid : R.valid i ≡ true = rw (L.valid_ahead i, a) in
      elim (Try-cases (from_msgpack (R.value i))) [
        | inl (d, g) ↦
            rw (valid, g)
              (index_one-Ends d (index_all name fuel index (at_iterator (R.next i))) e
                (λ e'. index_all-Ends L fuel (R.next i) es e' rest_is (omega arith)))
        | inr (m, g) ↦ rw (valid, g) (λ q. cc)
      ]

  caught-Ends :
      (p : Result Status × Engine R) (e : Engine R)
      → Ends p
      → Ends (try_catch (λ e1. p) (λ m. pure (undecoded m)) e)
  caught-Ends (returns t, e1) e h = λ q. cc
  caught-Ends (raises m, e1) e h = λ q. cc
  caught-Ends (crashes, e1) e h = λ q. cc
  caught-Ends (stops, e1) e h = λ q. h refl

  cursor-Ends :
      (L : IsLawful R) (fuel : ℕ) (e : Engine R)
      → IsConsistent L e
      → ((h : R.Handle)
          → lookup name e.column_families ≡ some h
          → length (L.contents e.world h) < fuel)
      → 0 < fuel
      → Ends (index_all name fuel index (create_cursor name e) e)
  unfolding create_cursor index_all
  cursor-Ends L (suc fuel) e c f g = elim (Option-cases (lookup name e.column_families)) [
    | inl none_there ↦ rw none_there (λ q. cc)
    | inr (h, there) ↦
        let i = R.seek_to_first (R.new_iterator e.world h) in
        let ahead =
          L.ahead-seek_to_first (R.new_iterator e.world h)
          ∙ L.snapshot-new_iterator e.world h (c.live name h there) in
        rw there (index_all-Ends L (suc fuel) i (L.contents e.world h) e ahead (f h there))
  ]
  cursor-Ends L zero e c f g = absurd (omega arith)

  -- Over a consistent engine, where the family of the index can be created, createIndex ends if its
  -- fuel is positive and more than the entries of the collection.
  pub create_index_ends :
      (L : IsLawful R) (fuel : ℕ) (t : Status) (e : Engine R)
      → IsConsistent L e
      → (create_collection (index_cf_name name index) e).0 ≡ returns t
      → is_ok t ≡ true
      → 0 < fuel
      → ((es : List Entry) → table_of L name e ≡ some es → length es < fuel)
      → (create_index name fuel index e).0 ≢ stops
  unfolding create_index
  create_index_ends L fuel t e c made made_ok pos fits =
      let cf = index_cf_name name index in
      let e1 = (create_collection cf e).1 in
      let c1 = create_collection-IsConsistent L cf e c t made made_ok in
      let (_, table_is) = table_of-create_collection L cf e c name t made made_ok in
      let same : table_of L name e1 ≡ table_of L name e =
        table_is ∙ ground (arith, index_cf_name-ne name index) in
      rw made (
        caught-Ends (index_all name fuel index (create_cursor name e1) e1) e1 (
          cursor-Ends L fuel e1 c1 (λ h there. fits (L.contents e1.world h) (sym same ∙ rw there))
            pos))
