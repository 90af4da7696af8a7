-- ===== src/Keys/Words.antt =====
-- Big-endian words: reading back what was written, and the order of the byte strings.
use anu_db.Base.{ℕ, ◌+◌, ◌*◌, ◌^◌, ◌<◌, ◌≡◌, refl, [], ◌∷◌, Bytes, length, All, before, ltb, arith}
use mathlib.Core.Path.{ap, ap₂, sym, ◌∙◌}
use native.Mathlib.Nat.{pow-suc}
use anu_db.Keys.{big_endian, from_big_endian}

pub length-big_endian : (w : ℕ) → length (big_endian w) ≡ 8
unfolding big_endian
length-big_endian w = refl

pub from_big_endian-big_endian : (w : ℕ) → w < 2 ^ 64 → from_big_endian 0 (big_endian w) ≡ w
unfolding from_big_endian big_endian
from_big_endian-big_endian w h = omega arith

-- The number that a list of bytes stands for.
weight : Bytes → ℕ
weight [] = 0
weight (b ∷ bs) = b * 256 ^ length bs + weight bs

abbrev IsByteList : Bytes → Type 0
IsByteList = All (λ b. b < 256)

-- The larger first byte decides, whatever follows.
weight_carry : (x y v w p : ℕ) → x < y → v < p → x * p + v < y * p + w
weight_carry x y v w p h k = grind arith

weight-lt : (xs : Bytes) → IsByteList xs → weight xs < 256 ^ length xs
unfolding weight
weight-lt [] h = omega arith
weight-lt (x ∷ xs) h = omega (
  arith,
  pow-suc 256 (length xs),
  weight_carry x 256 (weight xs) 0 (256 ^ length xs) h.0 (weight-lt xs h.1),
)

-- On byte strings of one length the bytewise order is the order of the numbers.
before-weight :
    (xs ys : Bytes)
    → length xs ≡ length ys
    → IsByteList xs
    → IsByteList ys
    → before xs ys ≡ ltb (weight xs) (weight ys)
unfolding before weight
before-weight [] [] e h k = ground arith
before-weight [] (y ∷ ys) e h k = absurd (omega arith)
before-weight (x ∷ xs) [] e h k = absurd (omega arith)
before-weight (x ∷ xs) (y ∷ ys) e h k =
    let same : length xs ≡ length ys = omega arith in
    ground (
      arith,
      ap (λ (n : ℕ). 256 ^ n) same,
      before-weight xs ys same h.1 k.1,
      weight-lt xs h.1,
      weight-lt ys k.1,
      weight_carry x y (weight xs) (weight ys) (256 ^ length xs),
      weight_carry y x (weight ys) (weight xs) (256 ^ length ys),
    )

weight-big_endian : (w : ℕ) → w < 2 ^ 64 → weight (big_endian w) ≡ w
unfolding weight big_endian
weight-big_endian w h = omega arith

big_endian-IsByteList : (w : ℕ) → IsByteList (big_endian w)
unfolding big_endian
big_endian-IsByteList w = omega arith

-- The encodings compare as the words do.
pub before-big_endian :
    (v w : ℕ) → v < 2 ^ 64 → w < 2 ^ 64 → before (big_endian v) (big_endian w) ≡ ltb v w
before-big_endian v w h k =
    before-weight _ _ (length-big_endian v ∙ sym (length-big_endian w)) (big_endian-IsByteList v)
      (big_endian-IsByteList w)
    ∙ ap₂ ltb (weight-big_endian v h) (weight-big_endian w k)
