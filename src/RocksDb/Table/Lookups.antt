-- ===== src/RocksDb/Table/Lookups.antt =====
-- Lookups after a write into a sorted table.
use anu_db.Base.{
  ◌≡◌, refl, true, List, [], ◌∷◌, none, some, Bytes, before, lookup, if◌then◌else◌, ◌==◌, bytes_eq,
  All, arith, before_irrefl, before_trans, before_total, Bool-cases, inl, inr, eq_self, eq_sound,
  sym,
}
use anu_db.RocksDb.Table.{Entry, Sorted, put_entry, delete_entry}

pub lookup-put_entry :
    (k j v : Bytes) (es : List Entry)
    → lookup j (put_entry k v es) ≡ (if j == k then some v else lookup j es)
unfolding lookup put_entry
lookup-put_entry k j v [] = refl
lookup-put_entry k j v ((i, w) ∷ es) =
    ground (arith, lookup-put_entry k j v es, before_total k i, before_irrefl k)

lookup_past :
    (k i : Bytes) (es : List Entry)
    → before k i ≡ true
    → All (λ e. before i e.0 ≡ true) es
    → lookup k es ≡ none
unfolding lookup
lookup_past k i [] b a = refl
lookup_past k i ((j, w) ∷ es) b a =
    ground (arith, before_trans k i j b a.0, before_irrefl k, lookup_past k i es b a.1)

lookup_after :
    (k : Bytes) (es : List Entry) → All (λ e. before k e.0 ≡ true) es → lookup k es ≡ none
unfolding lookup
lookup_after k [] a = refl
lookup_after k ((j, w) ∷ es) a = ground (arith, before_irrefl k, a.0, lookup_after k es a.1)

pub lookup-delete_entry :
    (k j : Bytes) (es : List Entry)
    → Sorted es
    → lookup j (delete_entry k es) ≡ (if j == k then none else lookup j es)
unfolding lookup delete_entry
lookup-delete_entry k j [] s = ground arith
lookup-delete_entry k j ((i, w) ∷ es) s = elim (Bool-cases (before k i)) [
  | inl lt ↦ rw lt (ground (arith, lookup_past k i es lt s.0, before_irrefl k))
  | inr ge ↦ ground (
    arith,
    lookup-delete_entry k j es s.1,
    before_total k i ge,
    lookup_after i es s.0,
    before_irrefl k,
  )
]

lookup_behind :
    (k v : Bytes) (t es : List Entry)
    → All (λ e. before k e.0 ≡ true) es
    → All (λ e. lookup e.0 t ≡ some e.1) es
    → All (λ e. lookup e.0 ((k, v) ∷ t) ≡ some e.1) es
unfolding lookup
lookup_behind k v t [] above found = tt
lookup_behind k v t ((j, w) ∷ es) above found =
    let irrefl = before_irrefl j in
    (ground (arith, above.0, found.0, irrefl), lookup_behind k v t es above.1 found.1)

-- Every entry of a sorted table is found under its key.
pub lookup_each : (es : List Entry) → Sorted es → All (λ e. lookup e.0 es ≡ some e.1) es
unfolding lookup
lookup_each [] s = tt
lookup_each ((k, v) ∷ es) s = (rw (eq_self k), lookup_behind k v es es s.0 (lookup_each es s.1))

-- What holds of every entry holds of one that is found.
pub lookup-All :
    (P : Bytes → Bytes → Type 0) (k v : Bytes) (es : List Entry)
    → All (λ e. P e.0 e.1) es
    → lookup k es ≡ some v
    → P k v
unfolding lookup
lookup-All P k v [] a f = absurd (ground arith)
lookup-All P k v ((j, w) ∷ es) a f = elim (Bool-cases (k == j)) [
  | inl same ↦
      let found : some w ≡ some v = rw same at f in
      let w_is : w ≡ v = ground (arith, found) in
      let k_is : j ≡ k = sym (eq_sound k j same) in rw (k_is, w_is) at a.0
  | inr other ↦ lookup-All P k v es a.1 (rw other at f)
]
