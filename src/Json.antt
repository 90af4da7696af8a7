-- ===== src/Json.antt =====
-- The calls of nlohmann::json that the code makes, as a parameter, and what it relies on.
pub mod Contract
use anu_db.Base.{ℕ, Bool, List, Option, Bytes, ℤ}
use anu_db.Exec.{Try}

-- What is_null(), is_object(), ..., is_number_float() tell apart; `other` is none of them.
pub data Kind : Type 0 where
  null object array string boolean number_integer number_float other : Kind

pub record Json : Type 1 where
  pub Value : Type 0
  pub kind : Value → Kind
  -- get<std::string>(), get<int>(), get<double>() (as its pattern), get<bool>(), get<uint32_t>()
  pub get_string : Value → Try Bytes
  pub get_int : Value → Try ℤ
  pub get_double : Value → Try ℕ
  pub get_bool : Value → Try Bool
  pub get_uint32 : Value → Try ℕ
  pub null_value : Value
  pub string_value : Bytes → Value
  -- A number from an int or a double (its pattern), and a Boolean.
  pub integer_value : ℕ → Value
  pub double_value : ℕ → Value
  pub bool_value : Bool → Value
  pub array_value : List Value → Value
  pub object_value : List (Bytes × Value) → Value
  -- A loop from begin() to end() that reads each key() and value().
  pub items : Value → Try (List (Bytes × Value))
  -- key() and value() of begin(); `none` where begin() is the end of an object.
  pub first_item : Value → Try (Option (Bytes × Value))
  -- A loop over the values alone; size() is the length.
  pub elements : Value → List Value
  -- find(key), contains(key): `none` is end().
  pub find : Value → Bytes → Option Value
  -- The value of `v[key]`, which is null after an insertion.
  pub at_key : Value → Bytes → Try Value
  -- `v[key] = x`, `v[i] = x` within bounds, erase(key), push_back(x)
  pub set_member : Value → Bytes → Value → Try Value
  pub set_element : Value → ℕ → Value → Value
  pub erase_member : Value → Bytes → Try Value
  pub push_back : Value → Value → Try Value
  -- operator==
  pub equals : Value → Value → Bool
  pub to_msgpack : Value → Bytes
  pub from_msgpack : Bytes → Try Value
  pub parse : Bytes → Try Value
  -- dump(), which throws on a string that is not UTF-8.
  pub dump : Value → Try Bytes
