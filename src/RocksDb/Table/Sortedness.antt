-- ===== src/RocksDb/Table/Sortedness.antt =====
-- Writes keep a table sorted.
use anu_db.Base.{
  ◌≡◌, true, List, [], ◌∷◌, Bytes, before, All, before_trans, before_total, Bool-cases, inl, inr,
}
use anu_db.RocksDb.Table.{Entry, Sorted, put_entry, delete_entry}

abbrev Above : Bytes → List Entry → Type 0
Above a = All (λ e. before a e.0 ≡ true)

Above-trans : (a b : Bytes) (es : List Entry) → before a b ≡ true → Above b es → Above a es
Above-trans a b [] h t = tt
Above-trans a b ((k, v) ∷ es) h t = (before_trans a b k h t.0, Above-trans a b es h t.1)

Above-put :
    (a k v : Bytes) (es : List Entry) → before a k ≡ true → Above a es → Above a (put_entry k v es)
unfolding put_entry
Above-put a k v [] h t = (h, tt)
Above-put a k v ((j, w) ∷ es) h t = elim (Bool-cases (before k j)) [
  | inl lt ↦ rw lt (h, t)
  | inr ge ↦ elim (Bool-cases (before j k)) [
    | inl gt ↦ rw (ge, gt) (t.0, Above-put a k v es h t.1)
    | inr le ↦ rw (ge, le) (h, t.1)
  ]
]

Above-delete : (a k : Bytes) (es : List Entry) → Above a es → Above a (delete_entry k es)
unfolding delete_entry
Above-delete a k [] t = tt
Above-delete a k ((j, w) ∷ es) t = elim (Bool-cases (before k j)) [
  | inl lt ↦ rw lt t
  | inr ge ↦ elim (Bool-cases (before j k)) [
    | inl gt ↦ rw (ge, gt) (t.0, Above-delete a k es t.1)
    | inr le ↦ rw (ge, le) (t.1)
  ]
]

pub put_entry-Sorted : (k v : Bytes) (es : List Entry) → Sorted es → Sorted (put_entry k v es)
unfolding put_entry
put_entry-Sorted k v [] s = (tt, tt)
put_entry-Sorted k v ((j, w) ∷ es) s = elim (Bool-cases (before k j)) [
  | inl lt ↦ rw lt ((lt, Above-trans k j es lt s.0), s)
  | inr ge ↦ elim (Bool-cases (before j k)) [
    | inl gt ↦ rw (ge, gt) (Above-put j k v es gt s.0, put_entry-Sorted k v es s.1)
    | inr le ↦ rw (ge, le) (rw (before_total k j ge le) s.0, s.1)
  ]
]

pub delete_entry-Sorted : (k : Bytes) (es : List Entry) → Sorted es → Sorted (delete_entry k es)
unfolding delete_entry
delete_entry-Sorted k [] s = tt
delete_entry-Sorted k ((j, w) ∷ es) s = elim (Bool-cases (before k j)) [
  | inl lt ↦ rw lt s
  | inr ge ↦ elim (Bool-cases (before j k)) [
    | inl gt ↦ rw (ge, gt) (Above-delete j k es s.0, delete_entry-Sorted k es s.1)
    | inr le ↦ rw (ge, le) (s.1)
  ]
]
