-- ===== src/Collection/Documents/Indexing.antt =====
-- The loop over the indexes of a collection, where it ends with OK: what each step keeps holds at the
-- end, and so does what a step establishes for its own index.
use anu_db.Base.{
  ◌≡◌, refl, true, List, [], ◌∷◌, Bytes, if◌then◌else◌, ◌==◌, bytes_eq, contains, arith, Bool-cases,
  inl, inr, eq_sound,
}
use anu_db.Status.{Status, is_ok}
use anu_db.Exec.{Exec, Result, returns, raises, crashes, stops, pure, and_then}
use anu_db.Json.{Json}
use anu_db.RocksDb.{RocksDb}
use anu_db.Engine.{Engine}
use anu_db.Document.{Document, has_field}
use anu_db.Collection.Documents.{for_indexes}

-- A call that returned a status of success.
abbrev pub Succeeds : {S : Type 0} → Result Status × S → Type 0
Succeeds r = (s : Status) × (r.0 ≡ returns s) × (is_ok s ≡ true)

-- `if (!status.ok()) return status;` and then the rest, which succeeded: so did both.
pub both_succeed :
    {S : Type 0} (p : Result Status × S) (rest : Exec S Status)
    → Succeeds (and_then p (λ status. if is_ok status then rest else pure status))
    → Succeeds p
      × ((and_then p (λ status. if is_ok status then rest else pure status)) ≡ rest p.1)
      × Succeeds (rest p.1)
both_succeed (returns t, s) rest (u, r, o) = elim (Bool-cases (is_ok t)) [
  | inl good ↦ ((t, refl, good), rw good, (u, rw good at r, o))
  | inr bad ↦ absurd (ground arith)
]
both_succeed (raises m, s) rest (u, r, o) = absurd (ground arith)
both_succeed (crashes, s) rest (u, r, o) = absurd (ground arith)
both_succeed (stops, s) rest (u, r, o) = absurd (ground arith)

module _ ⦃R : RocksDb⦄ ⦃J : Json⦄ (name : Bytes) (op : Document J → Bytes → Exec (Engine R) Status)
    (doc : Document J) where
  -- What every step that succeeds keeps.
  pub for_indexes_keeps :
      (P : Engine R → Type 0)
      → ((i : Bytes) (e : Engine R) → P e → Succeeds (op doc i e) → P (op doc i e).1)
      → (indexes : List Bytes) (e : Engine R) → P e
      → Succeeds (for_indexes name op doc indexes e)
      → P (for_indexes name op doc indexes e).1
  unfolding for_indexes
  for_indexes_keeps P step [] e p s = p
  for_indexes_keeps P step (i ∷ is) e p s = elim (Bool-cases (has_field i doc)) [
    | inl there ↦
        let (first, same, rest) =
          both_succeed (op doc i e) (for_indexes name op doc is) (rw there at s) in
        rw (there, same) (for_indexes_keeps P step is (op doc i e).1 (step i e p first) rest)
    | inr absent ↦ rw absent (for_indexes_keeps P step is e p (rw absent at s))
  ]

  -- What a step establishes for its index, and later steps keep.
  pub for_indexes_each :
      (P : Engine R → Type 0) (Q : Bytes → Engine R → Type 0)
      → ((i : Bytes) (e : Engine R) → P e → Succeeds (op doc i e) → P (op doc i e).1)
      → ((i : Bytes) (e : Engine R) → P e → Succeeds (op doc i e) → Q i (op doc i e).1)
      → ((i j : Bytes) (e : Engine R) → P e → Q j e → Succeeds (op doc i e) → Q j (op doc i e).1)
      → (indexes : List Bytes) (e : Engine R) → P e
      → Succeeds (for_indexes name op doc indexes e)
      → (j : Bytes) → contains indexes j ≡ true
      → has_field j doc ≡ true
      → Q j (for_indexes name op doc indexes e).1
  unfolding for_indexes
  for_indexes_each P Q step makes keeps [] e p s j m f = cc
  for_indexes_each P Q step makes keeps (i ∷ is) e p s j m f = elim (Bool-cases (has_field i doc)) [
    | inl there ↦
        let (first, same, rest) =
          both_succeed (op doc i e) (for_indexes name op doc is) (rw there at s) in
        let p' = step i e p first in
        rw (there, same)
          (elim (Bool-cases (j == i)) [
            | inl this ↦
                (for_indexes_keeps (λ e'. P e' × Q j e')
                  (λ i' e' pq s'. (step i' e' pq.0 s', keeps i' j e' pq.0 pq.1 s')) is
                  (op doc i e).1 (p', rw (eq_sound j i this) (makes i e p first)) rest).1
            | inr other ↦
                for_indexes_each P Q step makes keeps is (op doc i e).1 p' rest j (rw other at m) f
          ])
    | inr absent ↦ rw absent (
        for_indexes_each P Q step makes keeps is e p (rw absent at s) j
          (elim (Bool-cases (j == i)) [
            | inl this ↦ absurd (ground (arith, eq_sound j i this))
            | inr other ↦ rw other at m
          ])
          f)
  ]
