-- ===== src/Engine/Scan/Loops.antt =====
-- The iterator loops of the engine against the lists that the iterators walk.
use anu_db.Base.{
  ℕ, zero, suc, ◌<◌, ◌≡◌, refl, ◌∙◌, sym, ap, Bool, true, false, not, ◌&&◌, List, [], ◌∷◌, ◌++◌,
  Bytes, append_assoc, append-nil, length, map, All, drop_while, take_while, arith, Bool-cases, inl,
  inr,
}
use anu_db.Exec.{returns}
use anu_db.RocksDb.{RocksDb}
use anu_db.RocksDb.Table.{Entry, is_empty}
use anu_db.RocksDb.Contract.{IsLawful}
use anu_db.Engine.Scan.{push_values, skip, push_back_values, key_has_mark}

abbrev pub values : List Entry → List Bytes
values = map (λ e. e.1)

take_while_all : (es : List Entry) → take_while (λ e. true) es ≡ es
unfolding take_while
take_while_all [] = refl
take_while_all (e ∷ es) = ap (◌∷◌ e) (take_while_all es)

and_true : (b : Bool) → (b && true) ≡ b
and_true true = refl
and_true false = refl

-- A walk is one of the two lists of an iterator, with the step along it.
pub record IsWalk ⦃R : RocksDb⦄ (walk : R.Iterator → List Entry) (step : R.Iterator → R.Iterator)
    : Type 0 where
  pub valid_walk : (i : R.Iterator) → R.valid i ≡ not (is_empty (walk i))
  pub at_walk :
      (i : R.Iterator) (k v : Bytes) (es : List Entry)
      → walk i ≡ (k, v) ∷ es
      → (R.key i ≡ k) × (R.value i ≡ v) × (walk (step i) ≡ es)

module _ ⦃R : RocksDb⦄ (L : IsLawful R) where
  pub ahead-IsWalk : IsWalk L.ahead R.next
  ahead-IsWalk = record { valid_walk = L.valid_ahead; at_walk = L.at_ahead }

  pub behind-IsWalk : IsWalk L.behind R.prev
  behind-IsWalk = record { valid_walk = L.valid_behind; at_walk = L.at_behind }

module _ ⦃R : RocksDb⦄ {walk : R.Iterator → List Entry} {step : R.Iterator → R.Iterator}
    (W : IsWalk walk step) where
  -- The loop collects the values while the keys pass, if its fuel exceeds the entries left.
  pub push_values-take_while :
      (q : Bytes → Bool) (test : R.Iterator → Bool)
      → ((i : R.Iterator) → test i ≡ (R.valid i && q (R.key i)))
      → (fuel : ℕ) (i : R.Iterator) (ids : List Bytes) (es : List Entry) → walk i ≡ es
      → length es < fuel
      → push_values fuel test step i ids ≡ returns (ids ++ values (take_while (λ e. q e.0) es))
  unfolding push_values take_while
  push_values-take_while q test t zero i ids es e f = absurd (omega arith)
  push_values-take_while q test t (suc fuel) i ids [] e f =
      rw (t i, W.valid_walk i, e) (ap returns (sym (append-nil ids)))
  push_values-take_while q test t (suc fuel) i ids ((k, v) ∷ es) e f =
      let (a, b, c) = W.at_walk i k v es e in
      rw (t i, W.valid_walk i, e, a, b)
        (elim (Bool-cases (q k)) [
          | inl hit ↦ rw hit (
              push_values-take_while q test t fuel (step i) (ids ++ v ∷ []) es c (omega arith)
              ∙ ap returns (append_assoc ids (v ∷ []) _))
          | inr miss ↦ rw miss (ap returns (sym (append-nil ids)))
        ])

  -- Without a test of the key it collects them all.
  pub push_values_all :
      (fuel : ℕ) (i : R.Iterator) (ids : List Bytes) (es : List Entry)
      → walk i ≡ es
      → length es < fuel
      → push_values fuel R.valid step i ids ≡ returns (ids ++ values es)
  push_values_all fuel i ids es e f =
      push_values-take_while (λ k. true) R.valid (λ j. sym (and_true (R.valid j))) fuel i ids es e f
      ∙ ap (λ l. returns (ids ++ values l)) (take_while_all es)

  -- The skipping loop ends at the first key that does not pass.
  pub skip-drop_while :
      (q : Bytes → Bool) (test : R.Iterator → Bool)
      → ((i : R.Iterator) → test i ≡ (R.valid i && q (R.key i)))
      → (fuel : ℕ) (i : R.Iterator) (es : List Entry) → walk i ≡ es
      → length es < fuel
      → (j : R.Iterator) × (skip fuel test step i ≡ returns j)
        × (walk j ≡ drop_while (λ e. q e.0) es)
  unfolding skip drop_while
  skip-drop_while q test t zero i es e f = absurd (omega arith)
  skip-drop_while q test t (suc fuel) i [] e f = (i, rw (t i, W.valid_walk i, e), e)
  skip-drop_while q test t (suc fuel) i ((k, v) ∷ es) e f =
      let (a, b, c) = W.at_walk i k v es e in
      elim (Bool-cases (q k)) [
        | inl hit ↦
            let (j, s, d) = skip-drop_while q test t fuel (step i) es c (omega arith) in
            (j, rw (t i, W.valid_walk i, e, a, hit) s, rw hit d)
        | inr miss ↦ (i, rw (t i, W.valid_walk i, e, a, miss), rw miss e)
      ]

-- The index keys that fetchDocIdsForLesser walks over all contain its mark.
abbrev pub Marked : List Entry → Type 0
Marked = All (λ e. key_has_mark e.0 ≡ true)

module _ ⦃R : RocksDb⦄ (L : IsLawful R) where
  pub push_back_values_all :
      (fuel : ℕ) (i : R.Iterator) (ids : List Bytes) (es : List Entry)
      → L.behind i ≡ es
      → Marked es
      → length es < fuel
      → push_back_values fuel i ids ≡ returns (ids ++ values es)
  unfolding push_back_values
  push_back_values_all zero i ids es e m f = absurd (omega arith)
  push_back_values_all (suc fuel) i ids [] e m f =
      rw (L.valid_behind i, e) (ap returns (sym (append-nil ids)))
  push_back_values_all (suc fuel) i ids ((k, v) ∷ es) e m f =
      let (a, b, c) = L.at_behind i k v es e in
      rw (L.valid_behind i, e, a, b, m.0)
        (push_back_values_all fuel (R.prev i) (ids ++ v ∷ []) es c m.1 (omega arith)
          ∙ ap returns (append_assoc ids (v ∷ []) _))
