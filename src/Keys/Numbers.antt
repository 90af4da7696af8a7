-- ===== src/Keys/Numbers.antt =====
-- src/Collection.cpp: the keys of `int` and `double` values, against the values and their order. An
-- index is sorted by the bytewise order of its keys.
use anu_db.Base.{
  ℕ, ◌+◌, ◌-◌, ◌%◌, ◌^◌, ◌<◌, ◌≡◌, ◌∙◌, ap, some, before, if◌then◌else◌, leb, ltb, ℤ, pos, negsuc,
  ltb_ℤ, FitsSigned, to_u64, to_i64, arith,
}
use anu_db.Keys.{
  big_endian, from_big_endian, encode_int_key, decode_int_key, engine_decode_int_key, flip_sign,
  sortable_bits, restored_bits, encode_double_key, decode_double_key,
}
use anu_db.Keys.Words.{from_big_endian-big_endian, before-big_endian}

-- The word under an integer key.
abbrev shifted : ℤ → ℕ
shifted v = (to_u64 v + (2 ^ 63 - 1) + 1) % 2 ^ 64

read_back : (w : ℕ) → from_big_endian 0 (big_endian (w % 2 ^ 64)) ≡ w % 2 ^ 64
read_back w = from_big_endian-big_endian (w % 2 ^ 64) (omega arith)

unshift : (v : ℤ) → FitsSigned 31 v → to_i64 (flip_sign (shifted v)) ≡ v
unfolding to_i64 flip_sign to_u64
unshift (pos n) h = ground arith
unshift (negsuc n) h = ground arith

unshift_engine : (v : ℤ) → FitsSigned 31 v → to_i64 ((shifted v + 2 ^ 64 - 2 ^ 63) % 2 ^ 64) ≡ v
unfolding to_i64 to_u64
unshift_engine (pos n) h = ground arith
unshift_engine (negsuc n) h = ground arith

shifted_order :
    (a b : ℤ) → FitsSigned 31 a → FitsSigned 31 b → ltb (shifted a) (shifted b) ≡ ltb_ℤ a b
unfolding to_u64
shifted_order (pos m) (pos n) h k = ground arith
shifted_order (pos m) (negsuc n) h k = ground arith
shifted_order (negsuc m) (pos n) h k = ground arith
shifted_order (negsuc m) (negsuc n) h k = ground arith

-- A double's pattern is a sign and a magnitude, and the magnitudes of doubles that are no NaN are
-- ordered as their numbers are. A negative zero stands just below zero.
abbrev magnitude_order : ℕ → ℤ
magnitude_order bits = if leb (2 ^ 63) bits then negsuc (bits - 2 ^ 63) else pos bits

sortable_bits-lt : (bits : ℕ) → bits < 2 ^ 64 → sortable_bits bits < 2 ^ 64
unfolding sortable_bits
sortable_bits-lt bits h = ground arith

sortable_bits_order :
    (a b : ℕ)
    → a < 2 ^ 64
    → b < 2 ^ 64
    → ltb (sortable_bits a) (sortable_bits b) ≡ ltb_ℤ (magnitude_order a) (magnitude_order b)
unfolding sortable_bits
sortable_bits_order a b h k = ground arith

-- Every int is read back from its key by decodeIntKey and by the engine's DecodeIntKey.
pub decode_int_key-encode_int_key :
    (v : ℤ)
    → FitsSigned 31 v
    → (decode_int_key (encode_int_key v) ≡ some v) × (engine_decode_int_key (encode_int_key v) ≡ v)
unfolding encode_int_key decode_int_key engine_decode_int_key
decode_int_key-encode_int_key v h =
    (rw read_back (ap some (unshift v h)), rw read_back (unshift_engine v h))

-- The keys of two int values compare bytewise as the values do.
pub before-encode_int_key :
    (a b : ℤ)
    → FitsSigned 31 a
    → FitsSigned 31 b
    → before (encode_int_key a) (encode_int_key b) ≡ ltb_ℤ a b
unfolding encode_int_key
before-encode_int_key a b h k =
    before-big_endian (shifted a) (shifted b) (omega arith) (omega arith) ∙ shifted_order a b h k

-- Every double, as its 64-bit pattern, is read back from its key.
pub decode_double_key-encode_double_key :
    (bits : ℕ) → bits < 2 ^ 64 → decode_double_key (encode_double_key bits) ≡ some bits
unfolding encode_double_key decode_double_key
decode_double_key-encode_double_key bits h =
    rw (from_big_endian-big_endian (sortable_bits bits) (sortable_bits-lt bits h))
      (unfold sortable_bits restored_bits in ground arith)

-- The keys of two doubles, given as their 64-bit patterns, compare bytewise as their signed
-- magnitudes do.
pub before-encode_double_key :
    (a b : ℕ)
    → a < 2 ^ 64
    → b < 2 ^ 64
    → before (encode_double_key a) (encode_double_key b)
      ≡ ltb_ℤ (magnitude_order a) (magnitude_order b)
unfolding encode_double_key
before-encode_double_key a b h k =
    before-big_endian (sortable_bits a) (sortable_bits b) (sortable_bits-lt a h)
      (sortable_bits-lt b k)
    ∙ sortable_bits_order a b h k
