-- ===== src/Base/Order.antt =====
-- The bytewise order is a strict total order, and the keys with one prefix stand together in it.
use mathlib.Core.Path.{◌≡◌, refl}
use mathlib.Core.Bool.{true, false}
use mathlib.Core.List.{[], ◌∷◌, ◌++◌}
use native.Mathlib.Omega.{arith}
use anu_db.Base.Text.{Bytes, before, starts_with}

pub before_irrefl : (a : Bytes) → before a a ≡ false
unfolding before
before_irrefl [] = refl
before_irrefl (x ∷ xs) = ground (arith, before_irrefl xs)

pub before_trans : (a b c : Bytes) → before a b ≡ true → before b c ≡ true → before a c ≡ true
unfolding before
before_trans [] [] c p q = cc
before_trans [] (y ∷ ys) [] p q = cc
before_trans [] (y ∷ ys) (z ∷ zs) p q = refl
before_trans (x ∷ xs) [] c p q = cc
before_trans (x ∷ xs) (y ∷ ys) [] p q = cc
before_trans (x ∷ xs) (y ∷ ys) (z ∷ zs) p q = ground (arith, before_trans xs ys zs)

pub before_asymm : (a b : Bytes) → before a b ≡ true → before b a ≡ false
unfolding before
before_asymm [] [] p = refl
before_asymm [] (y ∷ ys) p = refl
before_asymm (x ∷ xs) [] p = cc
before_asymm (x ∷ xs) (y ∷ ys) p = ground (arith, before_asymm xs ys)

pub before_total : (a b : Bytes) → before a b ≡ false → before b a ≡ false → a ≡ b
unfolding before
before_total [] [] p q = refl
before_total [] (y ∷ ys) p q = cc
before_total (x ∷ xs) [] p q = cc
before_total (x ∷ xs) (y ∷ ys) p q = ground (arith, before_total xs ys)

-- A key is not before its prefixes.
pub before-starts_with : (k p : Bytes) → starts_with k p ≡ true → before k p ≡ false
unfolding before starts_with
before-starts_with [] [] h = refl
before-starts_with (x ∷ xs) [] h = refl
before-starts_with [] (p ∷ ps) h = cc
before-starts_with (x ∷ xs) (p ∷ ps) h = ground (arith, before-starts_with xs ps)

-- What lies between a prefix and a key that has it, has it too.
pub starts_with_between :
    (k m p : Bytes)
    → before k p ≡ false
    → before k m ≡ true
    → starts_with m p ≡ true
    → starts_with k p ≡ true
unfolding before starts_with
starts_with_between k m [] lo hi h = refl
starts_with_between k [] (p ∷ ps) lo hi h = cc
starts_with_between [] (y ∷ ys) (p ∷ ps) lo hi h = cc
starts_with_between (x ∷ xs) (y ∷ ys) (p ∷ ps) lo hi h =
    ground (arith, starts_with_between xs ys ps)

pub starts_with-append : (p s : Bytes) → starts_with (p ++ s) p ≡ true
unfolding starts_with
starts_with-append [] s = refl
starts_with-append (x ∷ p) s = ground (arith, starts_with-append p s)

-- A prefix leaves a rest.
pub starts_with-rest : (k p : Bytes) → starts_with k p ≡ true → (s : Bytes) × (k ≡ p ++ s)
unfolding starts_with
starts_with-rest k [] h = (k, refl)
starts_with-rest [] (p ∷ ps) h = cc
starts_with-rest (x ∷ xs) (p ∷ ps) h =
    let (s, e) = starts_with-rest xs ps (ground arith) in (s, ground arith)
