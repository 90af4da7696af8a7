-- ===== src/Tests/Deletion.antt =====
-- The document of Tests/Documents, read again and deleted; and the sets of $and and $or.
use anu_db.Base.{
  keys, find_sub, insert, set_insert, ap, ℕ, zero, suc, ◌∙◌, sym, List, lookup, Bool-cases, inl,
  inr, eq_sound, ◌==◌, arith, ◌≡◌, refl, true, [], ◌∷◌, none, some, ◌⊎◌, Bytes, codes, bytes_eq,
  contains,
}
use anu_db.Status
use anu_db.Status.{is_ok}
use anu_db.Exec.{returns}
use anu_db.Json.{Json}
use anu_db.RocksDb.{RocksDb}
use anu_db.RocksDb.Table.{Entry}
use anu_db.Engine.{Engine, get, remove}
use anu_db.Collection.{index_key, index_cf_name}
use anu_db.Engine.Names.{get_index_names}
use anu_db.Engine.Tables.{IsConsistent}
use anu_db.Engine.Entries.{entry}
use anu_db.Document.{has_field, to_msgpack, from_msgpack}
use anu_db.Collection.Documents.{read_document, delete_document, empty_document}
use anu_db.Collection.Documents.Rereading.{read_document-create_document}
use anu_db.Collection.Documents.Deleting.{Unindexed, delete_document_removes}
use anu_db.Tests.Memory.{memory, answer}
use anu_db.Tests.MemoryLaws.{IsLive, memory-IsLawful}
use anu_db.Tests.Values.{values, values-IsLawful, when_kind, object_of, or_null, find_in, kind_of}
use anu_db.Tests.Stores.{with_index, with_index-IsConsistent}
use anu_db.Tests.Documents.{chance, document, stored_document, with_document, document_created}

instance abbrev R : RocksDb
R = memory

instance abbrev J : Json
J = values

read_document-create_document_example :
    (read_document (codes "c") (codes "7") empty_document with_document
      ≡ (Status.ok, stored_document))
    ⊎ ((m : Bytes) × (read_document (codes "c") (codes "7") empty_document with_document
          ≡ (Status.io_error m, empty_document)))
unfolding values-IsLawful
read_document-create_document_example =
    read_document-create_document memory-IsLawful values-IsLawful (codes "c") chance document
      stored_document empty_document Status.ok with_index with_document with_index-IsConsistent
      document_created refl

-- A store of that document and its entry in the index "f".
abbrev full_table : ℕ → List Entry
full_table zero = (codes "7", to_msgpack stored_document) ∷ []
full_table (suc n) = (codes "x#7", codes "7") ∷ []

abbrev full : Engine memory
full = record {
  world = record { tables = full_table; in_use = λ h. true; next_handle = 2 };
  db_set = true;
  column_families = (codes "c", 0) ∷ (codes "c__index__f", 1) ∷ [];
  owned_handles = [];
}

full_handle :
    (n : Bytes) (h : ℕ)
    → lookup n full.column_families ≡ some h
    → ((n ≡ codes "c") × (h ≡ 0)) ⊎ ((n ≡ codes "c__index__f") × (h ≡ 1))
unfolding lookup
full_handle n h f = elim (Bool-cases (n == codes "c")) [
  | inl is_c ↦ inl (eq_sound n (codes "c") is_c, ground arith)
  | inr is_other ↦ elim (Bool-cases (n == codes "c__index__f")) [
    | inl is_index ↦ inr (eq_sound n (codes "c__index__f") is_index, ground arith)
    | inr is_none ↦ absurd (ground arith)
  ]
]

full_table-IsLive : (h : ℕ) → (h ≡ 0) ⊎ (h ≡ 1) → IsLive full.world h
full_table-IsLive h (inl z) = record { used = refl; given = omega arith; ordered = rw z (tt, tt) }
full_table-IsLive h (inr o) = record { used = refl; given = omega arith; ordered = rw o (tt, tt) }

full-IsConsistent : IsConsistent memory-IsLawful full
unfolding memory-IsLawful
full-IsConsistent = record {
  has_db = λ n h f. refl;
  live = λ n h f. elim (full_handle n h f) [
    | inl (_, z) ↦ full_table-IsLive h (inl z)
    | inr (_, o) ↦ full_table-IsLive h (inr o)
  ];
  distinct = λ m n h f g. elim (full_handle m h f) [
    | inl (a, z) ↦ elim (full_handle n h g) [
      | inl (b, _) ↦ a ∙ sym b
      | inr (_, o) ↦ absurd (omega (arith, z, o))
    ]
    | inr (a, o) ↦ elim (full_handle n h g) [
      | inl (_, z) ↦ absurd (omega (arith, z, o))
      | inr (b, _) ↦ a ∙ sym b
    ]
  ];
}

abbrev without_document : Engine memory
without_document = (delete_document (codes "c") (codes "7") full).1

deleted_ok : (delete_document (codes "c") (codes "7") full).0 ≡ returns Status.ok
unfolding delete_document get lookup bytes_eq answer from_msgpack when_kind to_msgpack object_of
    or_null find_in get_index_names keys find_sub insert set_insert index_key kind_of remove
    index_cf_name
deleted_ok = refl

document_deleted :
    delete_document (codes "c") (codes "7") full ≡ (returns Status.ok, without_document)
document_deleted = ap (λ r. (r, without_document)) deleted_ok

delete_document_removes_example :
    let (status, doc) = read_document (codes "c") (codes "7") empty_document full in
    (is_ok status ≡ true)
    × IsConsistent memory-IsLawful without_document
    × (entry memory-IsLawful (codes "c") (codes "7") without_document ≡ none)
    × ((i : Bytes)
        → contains (get_index_names (codes "c") full) i ≡ true
        → has_field i doc ≡ true
        → Unindexed memory-IsLawful (codes "c") doc i without_document)
delete_document_removes_example =
    delete_document_removes memory-IsLawful (codes "c") (codes "7") Status.ok full without_document
      full-IsConsistent document_deleted refl
