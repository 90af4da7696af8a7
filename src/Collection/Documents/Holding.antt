-- ===== src/Collection/Documents/Holding.antt =====
-- The contents of a collection after each call that changes documents.
use anu_db.Base.{
  ◌≡◌, refl, sym, ◌∙◌, inl, inr, Bool, true, false, none, some, Bytes, bytes_eq, arith, Bool-cases,
}
use anu_db.Status
use anu_db.Status.{Status, is_ok, is_not_found}
use anu_db.Exec.{Result, Try-cases, returns, raises, crashes, stops, pure, and_then}
use anu_db.Json.{Json}
use anu_db.RocksDb.{RocksDb}
use anu_db.RocksDb.Contract.{IsLawful}
use anu_db.Engine.{Engine, put, remove}
use anu_db.Engine.Names.{get_index_names}
use anu_db.Engine.Tables.{IsConsistent, put-IsConsistent, remove-IsConsistent}
use anu_db.Engine.Entries.{entry, entry-put, entry-remove, get_cases}
use anu_db.Document.{Document, to_msgpack, from_msgpack}
use anu_db.Collection.{Chance, index_cf_name}
use anu_db.Collection.Documents.{
  create_document, delete_document, update_document, store_updated, upserted,
  insert_if_index_field_exists, delete_if_index_field_exists, read_document, empty_document,
}
use anu_db.Collection.Documents.Indexing.{Succeeds, for_indexes_keeps}
use anu_db.Collection.Documents.Storing.{insert_ok, create_ok, index_cf_name-ne}
use anu_db.Collection.Documents.Deleting.{delete_ok, deleted_ok}
use anu_db.Collection.Documents.Edits.{
  create, delete, Contents, assign, perform, edited, stored_as, changed, changed_read, changed_at,
  new_with_id,
}

module _ ⦃R : RocksDb⦄ ⦃J : Json⦄ (L : IsLawful R) (name : Bytes) where
  abbrev pub contents : Engine R → Contents
  contents e id = entry L name id e

  -- The engine is consistent, and the collection has these contents.
  abbrev pub Holds : Contents → Engine R → Type 0
  Holds m e = IsConsistent L e × ((j : Bytes) → entry L name j e ≡ m j)

  insert_keeps :
      (m : Contents) (d : Document J) (i : Bytes) (e : Engine R)
      → Holds m e
      → Succeeds (insert_if_index_field_exists name d i e)
      → Holds m (insert_if_index_field_exists name d i e).1
  insert_keeps m d i e (c, h) s =
      let (x, f, k, g, (t, r, o), e_is) = insert_ok name d i e s in
      let differ = index_cf_name-ne name i in
      rw e_is (
        put-IsConsistent L (index_cf_name name i) e c k d.id,
        λ j.
            entry-put L (index_cf_name name i) e c t k d.id name j r o
            ∙ ground (arith, h j, differ),
      )

  delete_keeps :
      (m : Contents) (d : Document J) (i : Bytes) (e : Engine R)
      → Holds m e
      → Succeeds (delete_if_index_field_exists name d i e)
      → Holds m (delete_if_index_field_exists name d i e).1
  delete_keeps m d i e (c, h) s =
      let (x, f, k, g, (t, r, o), e_is) = delete_ok name d i e s in
      let differ = index_cf_name-ne name i in
      rw e_is (
        remove-IsConsistent L (index_cf_name name i) e c k,
        λ j. entry-remove L (index_cf_name name i) e c t k name j r o ∙ ground (arith, h j, differ),
      )

  put-Holds :
      (m : Contents) (k v : Bytes) (e : Engine R)
      → Holds m e
      → Succeeds (put name k v e)
      → Holds (assign k (some v) m) (put name k v e).1
  put-Holds m k v e (c, h) (t, r, o) = (
    put-IsConsistent L name e c k v,
    λ j. entry-put L name e c t k v name j r o ∙ ground (arith, h j),
  )

  remove-Holds :
      (m : Contents) (k : Bytes) (e : Engine R)
      → Holds m e
      → Succeeds (remove name k e)
      → Holds (assign k none m) (remove name k e).1
  remove-Holds m k e (c, h) (t, r, o) = (
    remove-IsConsistent L name e c k,
    λ j. entry-remove L name e c t k name j r o ∙ ground (arith, h j),
  )

  create-Holds :
      (m : Contents) (chance : Chance) (doc d : Document J) (s : Status) (e e' : Engine R)
      → Holds m e
      → create_document name chance doc e ≡ (returns (s, d), e')
      → is_ok s ≡ true
      → Holds (edited name (create chance doc) m) e'
  create-Holds m chance doc d s e e' h r o =
      let (g, looped, stored, e_is) = create_ok name chance doc d s e e' r o in
      let h1 =
        for_indexes_keeps name (insert_if_index_field_exists name) d (Holds m) (insert_keeps m d)
          (get_index_names name e) e h looped in
      rw (e_is, g) (put-Holds m d.id (to_msgpack d) _ h1 stored)

  pub delete-Holds :
      (m : Contents) (id : Bytes) (e : Engine R)
      → Holds m e
      → Succeeds (delete_document ⦃J = J⦄ name id e)
      → Holds (edited ⦃J = J⦄ name (delete id) m) (delete_document ⦃J = J⦄ name id e).1
  delete-Holds m id e h s =
      let doc = (read_document name id (empty_document ⦃J = J⦄) e).1 in
      let (good, looped, gone, e_is) = deleted_ok ⦃J = J⦄ name id e s in
      let h1 =
        for_indexes_keeps name (delete_if_index_field_exists name) doc (Holds m)
          (delete_keeps m doc) (get_index_names name e) e h looped in
      rw e_is (remove-Holds m id _ h1 gone)

  -- A call that stores the document of an earlier one.
  pub after_create-Holds :
      (m : Contents) (chance : Chance) (doc : Document J) (e : Engine R)
      → Holds m e
      → Succeeds (perform name (create chance doc) e)
      → Holds (edited name (create chance doc) m) (perform name (create chance doc) e).1
  after_create-Holds m chance doc e h s = go (create_document name chance doc e) refl s
    where
      go :
          (p : Result (Status × Document J) × Engine R)
          → create_document name chance doc e ≡ p
          → Succeeds (and_then p (λ (status, stored). pure status))
          → Holds
              (edited name (create chance doc) m)
              (and_then {B = Status} p (λ (status, stored). pure status)).1
      go (returns (t, d), e') q (u, r, o) = create-Holds m chance doc d t e e' h q (ground arith)
      go (raises x, e') q (u, r, o) = absurd (ground arith)
      go (crashes, e') q (u, r, o) = absurd (ground arith)
      go (stops, e') q (u, r, o) = absurd (ground arith)

  store_updated-Holds :
      (m : Contents) (chance : Chance) (change : J.Value) (doc : Document J) (e : Engine R)
      → Holds m e
      → Succeeds (store_updated name chance change doc e)
      → Holds
          (stored_as name chance (changed name change doc) m)
          (store_updated name chance change doc e).1
  unfolding store_updated
  store_updated-Holds m chance change doc e h s = go (changed name change doc) refl s
    where
      go :
          (r : Result (Document J))
          → changed name change doc ≡ r
          → Succeeds (and_then (r, e) (λ doc'. perform name (create chance doc')))
          → Holds
              (stored_as name chance r m)
              (and_then {B = Status} (r, e) (λ doc'. perform name (create chance doc'))).1
      go (returns d) q s' = after_create-Holds m chance d e h s'
      go (raises x) q (u, r, o) = absurd (ground arith)
      go crashes q (u, r, o) = absurd (ground arith)
      go stops q (u, r, o) = absurd (ground arith)

  upserted-Holds :
      (m : Contents) (chance : Chance) (id : Bytes) (change : J.Value) (e : Engine R)
      → Holds m e
      → Succeeds (upserted name chance id change e)
      → Holds
          (changed_read name chance change (new_with_id name id) m)
          (upserted name chance id change e).1
  unfolding upserted
  upserted-Holds m chance id change e h s = elim (Try-cases (new_with_id name id)) [
    | inl (d, g) ↦ rw g (store_updated-Holds m chance change d e h (rw g at s))
    | inr (x, g) ↦ absurd (let (u, r, o) = rw g at s in ground arith)
  ]

  pub update-Holds :
      (m : Contents) (chance : Chance) (id : Bytes) (change : J.Value) (upsert : Bool)
      (e : Engine R)
      → Holds m e
      → Succeeds (update_document name chance id change upsert e)
      → Holds
          (changed_at name chance id change upsert (m id) m)
          (update_document name chance id change upsert e).1
  unfolding update_document
  update-Holds m chance id change upsert e (c, h) s = elim (get_cases L name id e c) [
    | inl (v, there, g) ↦
        let at_id : m id ≡ some v = sym (h id) ∙ there in
        elim (Try-cases (from_msgpack v)) [
          | inl (d, q) ↦
              let read : read_document name id (empty_document ⦃J = J⦄) e ≡ (Status.ok, d) =
                unfold read_document in rw g (rw q) in
              rw (read, at_id, q) (store_updated-Holds m chance change d e (c, h) (rw read at s))
          | inr (x, q) ↦
              let read : is_ok (read_document name id (empty_document ⦃J = J⦄) e).0 ≡ false =
                unfold read_document in rw g (rw q) in
              let found : is_not_found (read_document name id (empty_document ⦃J = J⦄) e).0
                  ≡ false =
                unfold read_document in rw g (rw q) in
              absurd (let (u, r, o) = rw (found, read) at s in ground arith)
        ]
    | inr (inl (gone, (x, g))) ↦
        let at_id : m id ≡ none = sym (h id) ∙ gone in
        let read : read_document name id (empty_document ⦃J = J⦄) e
            ≡ (Status.not_found x, empty_document ⦃J = J⦄) =
          unfold read_document in rw g in
        elim (Bool-cases upsert) [
          | inl up ↦
              rw (read, at_id, up) (upserted-Holds m chance id change e (c, h) (rw (read, up) at s))
          | inr never ↦ absurd (let (u, r, o) = rw (read, never) at s in ground arith)
        ]
    | inr (inr (_, x, _, _, g)) ↦
        let read : read_document name id (empty_document ⦃J = J⦄) e
            ≡ (Status.io_error x, empty_document ⦃J = J⦄) =
          unfold read_document in rw g in
        absurd (let (u, r, o) = rw read at s in ground arith)
  ]
