-- ===== src/Collection/Indexes/Building.antt =====
-- src/Collection.cpp: what createIndex leaves in the new index.
use anu_db.Base.{
  ℕ, zero, suc, ◌≡◌, ap, ◌∙◌, sym, inl, inr, true, false, List, [], ◌∷◌, some, Bytes, ◌==◌,
  bytes_eq, arith, Bool-cases, All, eq_self, eq_sound, ◌⊎◌, subst,
}
use anu_db.Status
use anu_db.Status.{Status, is_ok}
use anu_db.Exec.{Exec, gives, Try-cases}
use anu_db.Json.{Json}
use anu_db.RocksDb.{RocksDb}
use anu_db.RocksDb.Table.{Entry}
use anu_db.RocksDb.Contract.{IsLawful}
use anu_db.Engine.{Engine}
use anu_db.Engine.Tables.{IsConsistent, put-IsConsistent}
use anu_db.Engine.Entries.{entry-put}
use anu_db.Cursor.{current, next, at_iterator}
use anu_db.Document.{Document, has_field, from_msgpack}
use anu_db.Collection.{index_cf_name, index_key}
use anu_db.Collection.Documents.{insert_if_index_field_exists}
use anu_db.Collection.Documents.Indexing.{Succeeds, both_succeed}
use anu_db.Collection.Documents.Storing.{Indexed, insert_ok}
use anu_db.Collection.Indexes.{index_all, index_one}

module _ ⦃R : RocksDb⦄ ⦃J : Json⦄ (L : IsLawful R) (name index : Bytes) where
  -- No two of the documents have one key in the index.
  abbrev pub Apart : (Document J → Type 0) → Type 0
  Apart P =
      (d d' : Document J) (x x' : J.Value) (k : Bytes)
      → P d
      → P d'
      → J.find d.data_value index ≡ some x
      → J.find d'.data_value index ≡ some x'
      → index_key x d.id ≡ gives k
      → index_key x' d'.id ≡ gives k
      → d.id ≡ d'.id

  abbrev pub step : Document J → Exec (Engine R) Status
  step d = insert_if_index_field_exists name d index

  pub step-Indexed :
      (d : Document J) (e : Engine R)
      → IsConsistent L e
      → Succeeds (step d e)
      → IsConsistent L (step d e).1 × Indexed L name d index (step d e).1
  step-Indexed d e c s =
      let (x, f, k, g, (t, r, o), e_is) = insert_ok name d index e s in
      let cf = index_cf_name name index in
      (
        rw e_is (put-IsConsistent L cf e c k d.id),
        (x, f, k, g, rw e_is (entry-put L cf e c t k d.id cf k r o ∙ ground arith)),
      )

  step_keeps :
      (P : Document J → Type 0) (d d' : Document J) (e : Engine R)
      → Apart P
      → P d
      → P d'
      → IsConsistent L e
      → Indexed L name d index e
      → Succeeds (step d' e)
      → Indexed L name d index (step d' e).1
  step_keeps P d d' e apart p p' c (x, f, k, g, there) s =
      let (x', f', k', g', (t, r, o), e_is) = insert_ok name d' index e s in
      let cf = index_cf_name name index in
      let same : k ≡ k' → d'.id ≡ d.id =
        λ q. apart d' d x' x k p' p f' f (g' ∙ ap gives (sym q)) g in
      (
        x,
        f,
        k,
        g,
        rw e_is (
            entry-put L cf e c t k' d'.id cf k r o ∙ elim (Bool-cases (k == k')) [
              | inl hit ↦ rw (eq_self cf, hit) (ap some (same (eq_sound k k' hit)))
              | inr miss ↦ rw (eq_self cf, miss) there
            ]),
      )

  -- What the loop established for the entries that it has passed.
  abbrev pub Entered : Engine R → Bytes → Bytes → Type 0
  Entered e k v =
      (d : Document J)
      → from_msgpack v ≡ gives d
      → has_field index d ≡ true
      → Indexed L name d index e

  -- The documents of the entries that the loop is to pass are among these.
  abbrev pub Among : (Document J → Type 0) → Bytes → Bytes → Type 0
  Among P k v = (d : Document J) → from_msgpack v ≡ gives d → P d

  -- What a round does that succeeds: the document's entry, if it has the field, and the rest.
  index_one-Succeeds :
      (d : Document J) (rest : Exec (Engine R) Status) (e : Engine R)
      → Succeeds (index_one name index (Status.ok, d) rest e)
      → ((has_field index d ≡ true)
          × Succeeds (step d e)
          × Succeeds (rest (step d e).1)
          × ((index_one name index (Status.ok, d) rest e).1 ≡ (rest (step d e).1).1))
        ⊎ ((has_field index d ≡ false)
            × Succeeds (rest e)
            × ((index_one name index (Status.ok, d) rest e).1 ≡ (rest e).1))
  unfolding index_one
  index_one-Succeeds d rest e s = elim (Bool-cases (has_field index d)) [
    | inl there ↦
        let (first, same, after) = both_succeed (step d e) rest (rw there at s) in
        inl (there, first, after, rw there (ap (λ p. p.1) same))
    | inr absent ↦ inr (absent, rw absent at s, rw absent)
  ]

  -- A round of the loop that succeeds read a document of the entry, and went on to the next.
  abbrev pub Round : ℕ → R.Iterator → Document J → Engine R → Engine R → Type 0
  Round fuel i d e e' =
      ((has_field index d ≡ true)
        × Succeeds (step d e)
        × Succeeds (index_all name fuel index (at_iterator (R.next i)) (step d e).1)
        × (e' ≡ (index_all name fuel index (at_iterator (R.next i)) (step d e).1).1))
      ⊎ ((has_field index d ≡ false)
          × Succeeds (index_all name fuel index (at_iterator (R.next i)) e)
          × (e' ≡ (index_all name fuel index (at_iterator (R.next i)) e).1))

  pub index_all-Round :
      (fuel : ℕ) (i : R.Iterator) (k v : Bytes) (es : List Entry) (e : Engine R)
      → L.ahead i ≡ (k, v) ∷ es
      → Succeeds (index_all name (suc fuel) index (at_iterator i) e)
      → (d : Document J) × (from_msgpack v ≡ gives d)
        × Round fuel i d e (index_all name (suc fuel) index (at_iterator i) e).1
  unfolding index_all current next
  index_all-Round fuel i k v es e a s =
      let (_, value_is, _) = L.at_ahead i k v es a in
      let valid : R.valid i ≡ true = rw (L.valid_ahead i, a) in
      elim (Try-cases (from_msgpack (R.value i))) [
        | inl (d, g) ↦
            let s' = rw (valid, g) at s in
            (
              d,
              ap from_msgpack (sym value_is) ∙ g,
              rw (valid, g)
                  (index_one-Succeeds d (index_all name fuel index (at_iterator (R.next i))) e s'),
            )
        | inr (m, g) ↦ absurd (let (u, r, o) = rw (valid, g) at s in ground arith)
      ]

  -- What the loop over the entries that are left makes of the engine.
  abbrev pub Built : (Document J → Type 0) → List Entry → Engine R → Engine R → Type 0
  Built P es e e' =
      IsConsistent L e'
      × All (λ en. Entered e' en.0 en.1) es
      × ((d : Document J) → P d → Indexed L name d index e → Indexed L name d index e')

  same_document :
      (v : Bytes) (d d' : Document J)
      → from_msgpack v ≡ gives d
      → from_msgpack v ≡ gives d'
      → d ≡ d'
  same_document v d d' g g' = let h : gives d ≡ gives d' = sym g ∙ g' in ground (arith, h)

  pub index_all-Built :
      (P : Document J → Type 0) (apart : Apart P) (fuel : ℕ) (i : R.Iterator) (es : List Entry)
      (e : Engine R)
      → L.ahead i ≡ es
      → All (λ en. Among P en.0 en.1) es
      → IsConsistent L e
      → Succeeds (index_all name fuel index (at_iterator i) e)
      → Built P es e (index_all name fuel index (at_iterator i) e).1
  unfolding index_all
  index_all-Built P apart zero i es e a m c s = absurd (let (u, r, o) = s in ground arith)
  index_all-Built P apart (suc fuel) i [] e a m c s =
      let e_is : e ≡ (index_all name (suc fuel) index (at_iterator i) e).1 =
        rw (L.valid_ahead i, a) in
      subst (λ e2. Built P [] e e2) e_is (c, tt, λ d p x. x)
  index_all-Built P apart (suc fuel) i ((k, v) ∷ es) e a m c s =
      let (_, _, rest_is) = L.at_ahead i k v es a in
      let (d, g, round) = index_all-Round fuel i k v es e a s in
      let p : P d = m.0 d g in
      let again = λ (e1 : Engine R). index_all-Built P apart fuel (R.next i) es e1 rest_is m.1 in
      elim round [
        | inl (there, stepped, looped, e_is) ↦
            let (c1, x1) = step-Indexed d e c stepped in
            let end = (index_all name fuel index (at_iterator (R.next i)) (step d e).1).1 in
            let (c', entered, keeps) = again (step d e).1 c1 looped in
            subst (λ e2. Built P ((k, v) ∷ es) e e2) (sym e_is)
              (
                c',
                (
                  λ d2 g2 f2.
                      subst (λ d3. Indexed L name d3 index end) (same_document v d d2 g g2)
                        (keeps d p x1),
                  entered,
                ),
                λ d2 p2 x2. keeps d2 p2 (step_keeps P d2 d e apart p2 p c x2 stepped),
              )
        | inr (absent, looped, e_is) ↦
            let (c', entered, keeps) = again e c looped in
            let never =
              λ (d2 : Document J) (g2 : from_msgpack v ≡ gives d2) (f2 : has_field index d2 ≡ true).
                absurd (
                  let d_is = same_document v d d2 g g2 in
                  let f : has_field index d ≡ true = rw d_is f2 in ground arith) in
            subst (λ e2. Built P ((k, v) ∷ es) e e2) (sym e_is) (c', (never, entered), keeps)
      ]
