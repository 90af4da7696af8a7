-- ===== src/Base/Text.antt =====
-- std::string and rocksdb::Slice as lists of byte values: equality, the bytewise order of RocksDB's
-- default comparator, prefixes and substring search.
use Prim.Native.Char.{code}
use Prim.Native.Nat.{ℕ, suc}
use Prim.Native.String.{String}
use mathlib.Core.Path.{refl, ap, ap₂}
use mathlib.Core.Bool.{Bool, true, false, ◌&&◌}
use mathlib.Core.Option.{Option, none, some}
use mathlib.Core.Option
use mathlib.Core.List.{List, [], ◌∷◌}
use native.Mathlib.Decide.{ℕ_discrete}
use anu_db.Base.Tests.{ltb, eqb, if◌then◌else◌, Eq}

abbrev pub Bytes : Type 0
Bytes = List ℕ

-- The bytes of an ASCII literal.
abbrev pub codes : String → Bytes
codes String.[] = []
codes (String.◌∷◌ c s) = code c ∷ codes s

abbrev tail_of : Bytes → Bytes
tail_of [] = []
tail_of (x ∷ xs) = xs

abbrev head_of : ℕ → Bytes → ℕ
head_of d [] = d
head_of d (x ∷ xs) = x

-- Equality of strings runs in tests; proofs split on it.
unfoldable pub Bytes-discrete : Discrete Bytes
unfolding ℕ_discrete
Bytes-discrete [] [] = yes refl
Bytes-discrete [] (y ∷ ys) = no (λ e. cc)
Bytes-discrete (x ∷ xs) [] = no (λ e. cc)
Bytes-discrete (x ∷ xs) (y ∷ ys) = elim (ℕ_discrete x y) [
  | yes p ↦ elim (Bytes-discrete xs ys) [
    | yes q ↦ yes (ap₂ ◌∷◌ p q)
    | no n ↦ no (λ e. n (ap tail_of e))
  ]
  | no n ↦ no (λ e. n (ap (head_of x) e))
]

instance unfoldable pub bytes_eq : Eq Bytes
unfolding Bytes-discrete
bytes_eq = record { dec = Bytes-discrete }

-- BytewiseComparator: memcmp on the common length, then the shorter one first.
unfoldable pub before : Bytes → Bytes → Bool
before [] [] = false
before [] (y ∷ ys) = true
before (x ∷ xs) [] = false
before (x ∷ xs) (y ∷ ys) = if ltb x y then true else if ltb y x then false else before xs ys

-- Slice::starts_with
unfoldable pub starts_with : Bytes → Bytes → Bool
starts_with key [] = true
starts_with [] (p ∷ ps) = false
starts_with (k ∷ ks) (p ∷ ps) = eqb k p && starts_with ks ps

-- std::string::find of a string: the least position at which it stands.
unfoldable pub find_sub : Bytes → Bytes → Option ℕ
unfolding starts_with
find_sub pat [] = if starts_with [] pat then some 0 else none
find_sub pat (c ∷ s) =
    let rest = find_sub pat s in if starts_with (c ∷ s) pat then some 0 else Option.map suc rest
