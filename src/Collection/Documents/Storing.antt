-- ===== src/Collection/Documents/Storing.antt =====
-- What createDocument leaves in the collection and in its indexes, and what readDocument returns then.
use anu_db.Base.{
  ◌≡◌, refl, ◌∙◌, ap, ◌≢◌, ◌⊎◌, inl, inr, true, ◌++◌, some, Bytes, if◌then◌else◌, bytes_eq,
  contains, arith, Bool-cases, Option-cases, eq_self, length, length-append,
}
use anu_db.Status
use anu_db.Status.{Status, is_ok}
use anu_db.Exec.{
  Exec, Result, returns, raises, crashes, stops, gives, pure, ◌>>=◌, and_then, Try-cases,
}
use anu_db.Json.{Json}
use anu_db.Json.Contract
use anu_db.RocksDb.{RocksDb}
use anu_db.RocksDb.Contract.{IsLawful}
use anu_db.Engine.{Engine, put, put_index, index_delimiter}
use anu_db.Engine.Names.{get_index_names}
use anu_db.Engine.Tables.{IsConsistent, put-IsConsistent}
use anu_db.Engine.Entries.{entry, entry-put, get_cases}
use anu_db.Document.{Document, has_field, to_msgpack}
use anu_db.Document.Stored.{from_msgpack-to_msgpack}
use anu_db.Collection.{Chance, index_cf_name, index_key}
use anu_db.Collection.Documents.{
  create_document, read_document, insert_if_index_field_exists, identified, for_indexes,
}
use anu_db.Collection.Documents.Indexing.{Succeeds, for_indexes_keeps, for_indexes_each}

pub index_cf_name-ne : (name index : Bytes) → name ≢ index_cf_name name index
unfolding index_cf_name
index_cf_name-ne name index same = absurd (
    omega (
      arith,
      ap (length {A = _}) same,
      length-append name (index_delimiter ++ index),
      length-append index_delimiter index,
    ))

module _ ⦃R : RocksDb⦄ ⦃J : Json⦄ (name : Bytes) where
  -- What a step of the index loop that succeeded did.
  pub insert_ok :
      (doc : Document J) (i : Bytes) (e : Engine R)
      → Succeeds (insert_if_index_field_exists name doc i e)
      → (x : J.Value) × (J.find doc.data_value i ≡ some x)
        × (k : Bytes) × (index_key x doc.id ≡ gives k)
        × Succeeds (put (index_cf_name name i) k doc.id e)
        × ((insert_if_index_field_exists name doc i e).1
            ≡ (put (index_cf_name name i) k doc.id e).1)
  unfolding insert_if_index_field_exists put_index put
  insert_ok doc i e s = elim (Option-cases (J.find doc.data_value i)) [
    | inl f ↦ absurd (let (u, r, o) = s in ground arith)
    | inr (x, f) ↦ elim (Try-cases (index_key x doc.id)) [
      | inl (k, g) ↦ (x, f, k, g, rw (f, g) at s, rw (f, g))
      | inr (m, g) ↦ absurd (let (u, r, o) = s in ground arith)
    ]
  ]

  -- The end of createDocument, from what the loop returned.
  abbrev finish : Document J → Result Status × Engine R → Result (Status × Document J) × Engine R
  finish d p = and_then p (λ status.
      (if is_ok status then put name d.id (to_msgpack d) else pure status) >>= λ status'.
      pure (status', d))

  finish_put :
      (d d' : Document J) (s : Status) (e' : Engine R) (q : Result Status × Engine R)
      → and_then {B = Status × Document J} q (λ status'. pure (status', d)) ≡ (returns (s, d'), e')
      → is_ok s ≡ true
      → (d ≡ d') × Succeeds q × (e' ≡ q.1)
  finish_put d d' s e' (returns u, e2) r o = (ground arith, (u, refl, ground arith), ground arith)
  finish_put d d' s e' (raises m, e2) r o = absurd (ground arith)
  finish_put d d' s e' (crashes, e2) r o = absurd (ground arith)
  finish_put d d' s e' (stops, e2) r o = absurd (ground arith)

  finish_ok :
      (d d' : Document J) (s : Status) (e' : Engine R) (p : Result Status × Engine R)
      → finish d p ≡ (returns (s, d'), e')
      → is_ok s ≡ true
      → (d ≡ d')
        × Succeeds p
        × Succeeds (put name d.id (to_msgpack d) p.1)
        × (e' ≡ (put name d.id (to_msgpack d) p.1).1)
  finish_ok d d' s e' (returns t, e1) r o = elim (Bool-cases (is_ok t)) [
    | inl good ↦
        let (same, done, e_is) =
          finish_put d d' s e' (put name d.id (to_msgpack d) e1) (rw good at r) o in
        (same, (t, refl, good), done, e_is)
    | inr bad ↦ absurd (let r' = rw bad at r in ground arith)
  ]
  finish_ok d d' s e' (raises m, e1) r o = absurd (ground arith)
  finish_ok d d' s e' (crashes, e1) r o = absurd (ground arith)
  finish_ok d d' s e' (stops, e1) r o = absurd (ground arith)

  -- What createDocument that returned OK went through.
  pub create_ok :
      (chance : Chance) (doc d : Document J) (s : Status) (e e' : Engine R)
      → create_document name chance doc e ≡ (returns (s, d), e')
      → is_ok s ≡ true
      → (identified name chance doc ≡ gives d)
        × Succeeds
            (for_indexes name (insert_if_index_field_exists name) d (get_index_names name e) e)
        × Succeeds (
            put name d.id
              (to_msgpack d)
              (for_indexes name (insert_if_index_field_exists name) d (get_index_names name e) e).1)
        × (e'
            ≡ (put name d.id
                (to_msgpack d)
                (for_indexes name
                  (insert_if_index_field_exists name)
                  d
                  (get_index_names name e)
                  e).1).1)
  unfolding create_document
  create_ok chance doc d s e e' r o = elim (Try-cases (identified name chance doc)) [
    | inl (d1, g) ↦
        let (same, looped, stored, e_is) =
          finish_ok d1 d s e'
            (for_indexes name (insert_if_index_field_exists name) d1 (get_index_names name e) e)
            (rw g at r) o in
        rw (← same) (g, looped, stored, e_is)
    | inr (m, g) ↦ absurd (let r' = rw g at r in ground arith)
  ]

module _ ⦃R : RocksDb⦄ ⦃J : Json⦄ (L : IsLawful R) (name : Bytes) where
  -- The entry of a document in one index.
  abbrev pub Indexed : Document J → Bytes → Engine R → Type 0
  Indexed d i e =
      (x : J.Value) × (J.find d.data_value i ≡ some x)
      × (k : Bytes) × (index_key x d.id ≡ gives k)
      × (entry L (index_cf_name name i) k e ≡ some d.id)

  -- A put of the identifier somewhere, or of anything elsewhere, leaves the entries of the indexes.
  put_keeps_entry :
      (e : Engine R) (c : IsConsistent L e) (n k v cf j id : Bytes)
      → Succeeds (put n k v e)
      → (v ≡ id) ⊎ (n ≢ cf)
      → entry L cf j e ≡ some id
      → entry L cf j (put n k v e).1 ≡ some id
  put_keeps_entry e c n k v cf j id (s, r, o) w h =
      rw (entry-put L n e c s k v cf j r o) (ground (arith, w))

  module _ (d : Document J) where
    abbrev step : Bytes → Exec (Engine R) Status
    step i = insert_if_index_field_exists name d i

    Step-IsConsistent :
        (i : Bytes) (e : Engine R)
        → IsConsistent L e
        → Succeeds (step i e)
        → IsConsistent L (step i e).1
    Step-IsConsistent i e c s =
        let (x, f, k, g, done, e_is) = insert_ok name d i e s in
        rw e_is (put-IsConsistent L (index_cf_name name i) e c k d.id)

    step-Indexed :
        (i : Bytes) (e : Engine R)
        → IsConsistent L e
        → Succeeds (step i e)
        → Indexed d i (step i e).1
    step-Indexed i e c s =
        let (x, f, k, g, done, e_is) = insert_ok name d i e s in
        let (t, r, o) = done in
        (
          x,
          f,
          k,
          g,
          rw e_is (
              entry-put L (index_cf_name name i) e c t k d.id (index_cf_name name i) k r o
              ∙ rw (eq_self (index_cf_name name i), eq_self k)),
        )

    step_keeps :
        (i j : Bytes) (e : Engine R)
        → IsConsistent L e
        → Indexed d j e
        → Succeeds (step i e)
        → Indexed d j (step i e).1
    step_keeps i j e c (x, f, k, g, there) s =
        let (x', f', k', g', done, e_is) = insert_ok name d i e s in
        (
          x,
          f,
          k,
          g,
          rw e_is (
              put_keeps_entry e c (index_cf_name name i) k' d.id (index_cf_name name j) k d.id done
                (inl refl) there),
        )

  -- Over a consistent engine, a createDocument that returns OK leaves it consistent, with the
  -- document under its identifier in the collection and, for each index whose field the document
  -- has, its identifier in the index under its index key.
  pub create_document_stores :
      (chance : Chance) (doc d : Document J) (s : Status) (e e' : Engine R)
      → IsConsistent L e
      → create_document name chance doc e ≡ (returns (s, d), e')
      → is_ok s ≡ true
      → IsConsistent L e'
        × (entry L name d.id e' ≡ some (to_msgpack d))
        × ((i : Bytes)
            → contains (get_index_names name e) i ≡ true
            → has_field i d ≡ true
            → Indexed d i e')
  create_document_stores chance doc d s e e' c r o =
      let (g, looped, stored, e_is) = create_ok name chance doc d s e e' r o in
      let names = get_index_names name e in
      let op = insert_if_index_field_exists name in
      let e1 = (for_indexes name op d names e).1 in
      let c1 : IsConsistent L e1 =
        for_indexes_keeps name op d (λ e2. IsConsistent L e2) (Step-IsConsistent d) names e c
          looped in
      let (t, put_r, put_o) = stored in
      (
        rw e_is (put-IsConsistent L name e1 c1 d.id (to_msgpack d)),
        rw e_is (
            entry-put L name e1 c1 t d.id (to_msgpack d) name d.id put_r put_o
            ∙ rw (eq_self name, eq_self d.id)),
        λ i m f.
            let (x, xf, k, kg, there) =
              for_indexes_each name op d (λ e2. IsConsistent L e2) (Indexed d) (Step-IsConsistent d)
                (step-Indexed d) (step_keeps d) names e c looped i m f in
            (
              x,
              xf,
              k,
              kg,
              rw e_is (
                  put_keeps_entry e1 c1 name d.id (to_msgpack d) (index_cf_name name i) k d.id
                    stored (inr (index_cf_name-ne name i)) there),
            ),
      )

  -- Over a consistent engine that holds a serialized document under an identifier, readDocument
  -- returns OK and the document, its value as MessagePack keeps it, or an error of RocksDB and the
  -- old document.
  pub read_document-to_msgpack :
      (LJ : Contract.IsLawful J) (id : Bytes) (d old : Document J) (e : Engine R)
      → IsConsistent L e
      → entry L name id e ≡ some (to_msgpack d)
      → (read_document name id old e
          ≡ (Status.ok, record d { data_value = LJ.reread d.data_value }))
        ⊎ ((m : Bytes) × (read_document name id old e ≡ (Status.io_error m, old)))
  unfolding read_document
  read_document-to_msgpack LJ id d old e c h = elim (get_cases L name id e c) [
    | inl (v, there, g) ↦
        let v_is : v ≡ to_msgpack d = ground arith in
        inl (rw (g, v_is, from_msgpack-to_msgpack LJ d))
    | inr (inl (gone, _)) ↦ absurd (ground arith)
    | inr (inr (_, m, _, _, g)) ↦ inr (m, rw g)
  ]
