-- ===== src/Collection.antt =====
-- src/Collection.{h,cpp}: names of index families, index keys and generated identifiers. The modules
-- below hold the operations, over the engine as the state.
pub mod Documents
pub mod Indexes
pub mod Find
pub mod Import
pub mod Exporting
use anu_db.Base.{
  ℕ, zero, suc, ◌+◌, ◌/◌, ◌%◌, ◌^◌, Bool, true, false, List, [], ◌∷◌, ◌++◌, Option, none, some,
  Bytes, codes, get_elem?, map, if◌then◌else◌,
}
use anu_db.Exec.{Try, gives, throws, ◌>>?◌}
use anu_db.Json.{Json, Kind}
use anu_db.Keys.{encode_int_key, encode_double_key}
use anu_db.Engine.{index_delimiter}

unfoldable pub index_cf_name : Bytes → Bytes → Bytes
index_cf_name name index = name ++ (index_delimiter ++ index)

abbrev pub mark : Bytes
mark = codes "#"

module _ ⦃J : Json⦄ where
  -- Objects and arrays are converted to a string, which throws.
  unfoldable pub parse_value : J.Value → Try Bytes
  parse_value value = elim (J.kind value) [
    | Kind.string ↦ J.get_string value
    | Kind.number_integer ↦ J.get_int value >>? λ n. gives (encode_int_key n)
    | Kind.number_float ↦ J.get_double value >>? λ d. gives (encode_double_key d)
    | Kind.boolean ↦ J.get_bool value >>? λ b. gives (if b then codes "true" else codes "false")
    | Kind.null ↦ gives []
    | Kind.object ↦ J.get_string value
    | Kind.array ↦ J.get_string value
    | Kind.other ↦ gives []
  ]

  -- The key of a document in an index.
  unfoldable pub index_key : J.Value → Bytes → Try Bytes
  unfolding parse_value
  index_key value id = parse_value value >>? λ v. gives (v ++ (mark ++ id))

-- The array `alphanum` with the zero byte that ends the literal; sizeof(alphanum) is 63.
abbrev alphanum : Bytes
alphanum = codes "0123456789ABCDEFGHIJKLMNOPQRSTUVWXYZabcdefghijklmnopqrstuvwxyz" ++ 0 ∷ []

abbrev or_zero : Option ℕ → ℕ
or_zero none = 0
or_zero (some c) = c

unfoldable pub alphanum_at : ℕ → ℕ
alphanum_at i = or_zero (get_elem? alphanum i)

time_digits : ℕ → ℕ → Bytes
unfolding alphanum_at
time_digits zero timestamp = []
time_digits (suc k) timestamp = alphanum_at (timestamp % 63) ∷ time_digits k (timestamp / 63)

-- What generateId reads from outside: time(nullptr) and four calls of rand().
pub record Chance : Type 0 where
  pub seconds : ℕ
  pub draw_a : ℕ
  pub draw_b : ℕ
  pub draw_c : ℕ
  pub draw_d : ℕ

unfoldable pub generate_id : Chance → Bytes
unfolding time_digits alphanum_at
generate_id c =
    time_digits 8 (c.seconds % 2 ^ 32)
    ++ (alphanum_at (c.draw_a % 62)
        ∷ alphanum_at (c.draw_b % 62)
        ∷ alphanum_at (c.draw_c % 62)
        ∷ alphanum_at (c.draw_d % 62)
        ∷ [])
