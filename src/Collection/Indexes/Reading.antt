-- ===== src/Collection/Indexes/Reading.antt =====
-- src/Collection.cpp: what readAllDocuments reads.
use anu_db.Base.{
  ℕ, zero, suc, ◌≡◌, refl, ◌∙◌, ap, inl, inr, List, [], ◌∷◌, ◌++◌, Option, none, some, Bytes,
  lookup, append_assoc, append-nil, Option-cases,
}
use anu_db.Status
use anu_db.Status.{Status}
use anu_db.Exec.{Result, returns, raises, Try, gives, throws, Try-cases, try_catch, pure}
use anu_db.Json.{Json}
use anu_db.RocksDb.{RocksDb}
use anu_db.RocksDb.Table.{Entry}
use anu_db.RocksDb.Contract.{IsLawful}
use anu_db.Engine.{Engine}
use anu_db.Engine.Tables.{IsConsistent, table_of, entries_of}
use anu_db.Cursor.{create_cursor, current, next, at_iterator}
use anu_db.Document.{Document, from_msgpack}
use anu_db.Collection.Indexes.{read_rounds, read_all_documents, undecoded}

module _ ⦃J : Json⦄ where
  -- The documents of the first entries, up to one that does not decode, with what its decoding throws.
  abbrev with_first :
      Document J → Option Bytes × List (Document J) → Option Bytes × List (Document J)
  with_first d (error, ds) = (error, d ∷ ds)

  abbrev if_decoded :
      Try (Document J) → Option Bytes × List (Document J) → Option Bytes × List (Document J)
  if_decoded (gives d) rest = with_first d rest
  if_decoded (throws m) rest = (some m, [])

  abbrev pub first_documents : ℕ → List Entry → Option Bytes × List (Document J)
  first_documents zero es = (none, [])
  first_documents (suc n) [] = (none, [])
  first_documents (suc n) ((k, v) ∷ es) = if_decoded (from_msgpack v) (first_documents n es)

abbrev pub read_status : Option Bytes → Status
read_status none = Status.ok
read_status (some m) = undecoded m

abbrev loop_end : Option Bytes → Result Status
loop_end none = returns Status.ok
loop_end (some m) = raises m

module _ ⦃R : RocksDb⦄ ⦃J : Json⦄ (L : IsLawful R) (name : Bytes) where
  read_rounds_lem :
      (n : ℕ) (i : R.Iterator) (es : List Entry) (docs : List (Document J))
      → L.ahead i ≡ es
      → read_rounds name n (at_iterator i) docs
        ≡ (loop_end (first_documents n es).0, docs ++ (first_documents n es).1)
  unfolding read_rounds current next
  read_rounds_lem zero i es docs a = rw append-nil
  read_rounds_lem (suc n) i [] docs a = rw (L.valid_ahead i, a, append-nil)
  read_rounds_lem (suc n) i ((k, v) ∷ es) docs a =
      let (_, value_is, rest_is) = L.at_ahead i k v es a in
      elim (Try-cases (from_msgpack v)) [
        | inl (d, g) ↦
            rw (L.valid_ahead i, a, value_is, g)
              (read_rounds_lem n (R.next i) es (docs ++ d ∷ []) rest_is
                ∙ ap (λ l. (loop_end (first_documents n es).0, l))
                    (append_assoc docs (d ∷ []) (first_documents n es).1))
        | inr (m, g) ↦ rw (L.valid_ahead i, a, value_is, g, append-nil)
      ]

  ends :
      (error : Option Bytes) (docs : List (Document J))
      → try_catch (λ s. (loop_end error, docs)) (λ m. pure (undecoded m)) docs
        ≡ (returns (read_status error), docs)
  ends none docs = refl
  ends (some m) docs = refl

  without_table :
      (limit : ℕ) (e : Engine R) (docs : List (Document J))
      → lookup name e.column_families ≡ none
      → read_rounds name limit (create_cursor name e) docs ≡ (returns Status.ok, docs)
  unfolding read_rounds create_cursor
  without_table zero e docs f = refl
  without_table (suc n) e docs f = rw f

  none_read : (limit : ℕ) → first_documents ⦃J = J⦄ limit [] ≡ (none, [])
  none_read zero = refl
  none_read (suc n) = refl

  -- readAllDocuments with a limit, over the table of its collection or without one.
  pub read_all_documents_lem :
      (limit : ℕ) (e : Engine R) (docs : List (Document J))
      → IsConsistent L e
      → let read = first_documents limit (entries_of (table_of L name e)) in
        read_all_documents name limit e docs ≡ (returns (read_status read.0), docs ++ read.1)
  unfolding read_all_documents
  read_all_documents_lem limit e docs c = elim (Option-cases (lookup name e.column_families)) [
    | inl f ↦ rw (f, none_read limit, without_table limit e docs f, append-nil)
    | inr (h, f) ↦
        let i = R.seek_to_first (R.new_iterator e.world h) in
        let table = L.contents e.world h in
        let ahead =
          L.ahead-seek_to_first (R.new_iterator e.world h)
          ∙ L.snapshot-new_iterator e.world h (c.live name h f) in
        let cursor_is : create_cursor name e ≡ at_iterator i = unfold create_cursor in rw f in
        rw (f, cursor_is, read_rounds_lem limit i table docs ahead)
          (ends (first_documents limit table).0 (docs ++ (first_documents limit table).1))
  ]
