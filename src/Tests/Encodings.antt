-- ===== src/Tests/Encodings.antt =====
-- The number keys at concrete numbers.
use anu_db.Base.{ℕ, ◌≡◌, true, some, before, pos, negsuc, arith}
use anu_db.Keys.{
  encode_int_key, decode_int_key, engine_decode_int_key, encode_double_key, decode_double_key,
}
use anu_db.Keys.Numbers.{
  decode_int_key-encode_int_key, before-encode_int_key, decode_double_key-encode_double_key,
  before-encode_double_key,
}

decode_int_key-encode_int_key_example :
    (decode_int_key (encode_int_key (negsuc 6)) ≡ some (negsuc 6))
    × (engine_decode_int_key (encode_int_key (negsuc 6)) ≡ negsuc 6)
decode_int_key-encode_int_key_example = decode_int_key-encode_int_key (negsuc 6) (omega arith)

before-encode_int_key_example : before (encode_int_key (negsuc 6)) (encode_int_key (pos 3)) ≡ true
before-encode_int_key_example = before-encode_int_key (negsuc 6) (pos 3) (omega arith) (omega arith)

-- The pattern of -2.0.
abbrev minus_two : ℕ
minus_two = 13835058055282163712

-- The pattern of 1.5.
abbrev one_and_half : ℕ
one_and_half = 4609434218613702656

decode_double_key-encode_double_key_example :
    decode_double_key (encode_double_key minus_two) ≡ some minus_two
decode_double_key-encode_double_key_example =
    decode_double_key-encode_double_key minus_two (omega arith)

before-encode_double_key_example :
    before (encode_double_key minus_two) (encode_double_key one_and_half) ≡ true
before-encode_double_key_example =
    before-encode_double_key minus_two one_and_half (omega arith) (omega arith)
