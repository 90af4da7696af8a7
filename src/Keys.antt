-- ===== src/Keys.antt =====
-- src/Collection.cpp and src/storage_engine/StorageEngine.h: the encodings of numbers as index keys.
-- A shift of a word is a product or quotient by a power of two, `& 0xFF` the remainder by 256, `|` of
-- disjoint bits a sum; a double is its 64-bit pattern, as the code's union reads it.
mod Words
pub mod Numbers
use anu_db.Base.{
  ℕ, suc, ◌+◌, ◌-◌, ◌*◌, ◌/◌, ◌%◌, ◌^◌, Bool, List, [], ◌∷◌, Option, none, some, Bytes, length,
  if◌then◌else◌, eqb, leb, ltb, ℤ, to_u64, to_i64,
}

-- The eight bytes of a 64-bit word, the highest first.
unfoldable pub big_endian : ℕ → Bytes
big_endian w =
    (w / 2 ^ 56 % 256)
    ∷ (w / 2 ^ 48 % 256)
    ∷ (w / 2 ^ 40 % 256)
    ∷ (w / 2 ^ 32 % 256)
    ∷ (w / 2 ^ 24 % 256)
    ∷ (w / 2 ^ 16 % 256)
    ∷ (w / 2 ^ 8 % 256)
    ∷ (w % 256)
    ∷ []

-- The loop `value = (value << 8) | byte`; the shift drops what leaves the 64 bits.
unfoldable pub from_big_endian : ℕ → Bytes → ℕ
from_big_endian value [] = value
from_big_endian value (b ∷ bs) = from_big_endian (value * 256 % 2 ^ 64 + b) bs

-- `value + INT64_MAX + 1`, with the sum taken modulo 2 ^ 64.
unfoldable pub encode_int_key : ℤ → Bytes
unfolding big_endian to_u64
encode_int_key value = big_endian ((to_u64 value + (2 ^ 63 - 1) + 1) % 2 ^ 64)

-- `^ (1ULL << 63)` turns the highest bit.
flip_sign : ℕ → ℕ
flip_sign w = (w + 2 ^ 63) % 2 ^ 64

-- `none` where the assertion on the size fails.
unfoldable pub decode_int_key : Bytes → Option ℤ
unfolding from_big_endian flip_sign to_i64
decode_int_key encoded =
    if eqb (length encoded) 8 then some (to_i64 (flip_sign (from_big_endian 0 encoded))) else none

-- StorageEngine::DecodeIntKey: a wrong size gives 0, and `result - INT64_MIN` is taken in uint64_t.
unfoldable pub engine_decode_int_key : Bytes → ℤ
unfolding from_big_endian to_i64
engine_decode_int_key encoded =
    if eqb (length encoded) 8
    then to_i64 ((from_big_endian 0 encoded + 2 ^ 64 - 2 ^ 63) % 2 ^ 64)
    else ℤ.pos 0

-- A negative number has all its bits turned, any other its sign bit set.
sortable_bits : ℕ → ℕ
sortable_bits bits = if leb (2 ^ 63) bits then 2 ^ 64 - 1 - bits else bits + 2 ^ 63

unfoldable pub encode_double_key : ℕ → Bytes
unfolding big_endian sortable_bits
encode_double_key bits = big_endian (sortable_bits bits)

restored_bits : ℕ → ℕ
restored_bits value = if ltb value (2 ^ 63) then 2 ^ 64 - 1 - value else value - 2 ^ 63

unfoldable pub decode_double_key : Bytes → Option ℕ
unfolding from_big_endian restored_bits
decode_double_key encoded =
    if eqb (length encoded) 8 then some (restored_bits (from_big_endian 0 encoded)) else none
