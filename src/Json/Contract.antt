-- ===== src/Json/Contract.antt =====
-- Documented behaviour of nlohmann::json.
use anu_db.Base.{
  ℕ, ◌≡◌, true, List, [], ◌∷◌, ◌++◌, none, some, Bytes, lookup, ◌==◌, bytes_eq, if◌then◌else◌, set,
}
use mathlib.Core.Option
use anu_db.Exec.{gives}
use anu_db.Json.{Json, null, object, array, string}

pub record IsLawful (J : Json) : Type 0 where
  -- Only objects have members; an object's operator[] and erase() do not throw, and a null becomes
  -- an object by operator[].
  pub find_object :
      (v : J.Value) (k : Bytes) (x : J.Value) → J.find v k ≡ some x → J.kind v ≡ object
  pub set_member_object :
      (v : J.Value) (k : Bytes) (x : J.Value)
      → J.kind v ≡ object
      → (w : J.Value) × (J.set_member v k x ≡ gives w)
  pub set_member_null :
      (v : J.Value) (k : Bytes) (x : J.Value)
      → J.kind v ≡ null
      → (w : J.Value) × (J.set_member v k x ≡ gives w)
  pub kind-set_member :
      (v : J.Value) (k : Bytes) (x w : J.Value) → J.set_member v k x ≡ gives w → J.kind w ≡ object
  pub find-set_member :
      (v : J.Value) (k j : Bytes) (x w : J.Value)
      → J.set_member v k x ≡ gives w
      → J.find w j ≡ (if j == k then some x else J.find v j)
  pub erase_member_object :
      (v : J.Value) (k : Bytes) → J.kind v ≡ object → (w : J.Value) × (J.erase_member v k ≡ gives w)
  pub kind-erase_member :
      (v : J.Value) (k : Bytes) (w : J.Value) → J.erase_member v k ≡ gives w → J.kind w ≡ object
  pub find-erase_member :
      (v : J.Value) (k j : Bytes) (w : J.Value)
      → J.erase_member v k ≡ gives w
      → J.find w j ≡ (if j == k then none else J.find v j)
  pub at_key_object :
      (v : J.Value) (k : Bytes)
      → J.kind v ≡ object
      → J.at_key v k ≡ gives (Option.get_or (J.find v k) J.null_value)
  pub kind-object_value : (l : List (Bytes × J.Value)) → J.kind (J.object_value l) ≡ object
  pub find-object_value :
      (l : List (Bytes × J.Value)) (k : Bytes) → J.find (J.object_value l) k ≡ lookup k l
  -- Arrays.
  pub kind-array_value : (l : List J.Value) → J.kind (J.array_value l) ≡ array
  pub elements-array_value : (l : List J.Value) → J.elements (J.array_value l) ≡ l
  pub push_back_array :
      (v x : J.Value) → J.kind v ≡ array → (w : J.Value) × (J.push_back v x ≡ gives w)
  pub kind-push_back :
      (v x w : J.Value) → J.kind v ≡ array → J.push_back v x ≡ gives w → J.kind w ≡ array
  pub elements-push_back :
      (v x w : J.Value)
      → J.kind v ≡ array
      → J.push_back v x ≡ gives w
      → J.elements w ≡ J.elements v ++ x ∷ []
  pub elements-set_element :
      (v : J.Value) (i : ℕ) (x : J.Value)
      → J.kind v ≡ array
      → J.elements (J.set_element v i x) ≡ set (J.elements v) i x
  pub kind-set_element :
      (v : J.Value) (i : ℕ) (x : J.Value) → J.kind v ≡ array → J.kind (J.set_element v i x) ≡ array
  pub kind-null_value : J.kind J.null_value ≡ null
  -- Strings.
  pub kind-string_value : (s : Bytes) → J.kind (J.string_value s) ≡ string
  pub get_string-string_value : (s : Bytes) → J.get_string (J.string_value s) ≡ gives s
  -- MessagePack keeps a value, but may read a signed number that is not negative as an unsigned
  -- one: `reread v` is what comes back, which the code cannot tell from `v`.
  pub reread : J.Value → J.Value
  pub from_msgpack-to_msgpack : (v : J.Value) → J.from_msgpack (J.to_msgpack v) ≡ gives (reread v)
  pub equals-reread : (v : J.Value) → J.equals v (reread v) ≡ true
  pub kind-reread : (v : J.Value) → J.kind (reread v) ≡ J.kind v
  pub find-reread : (v : J.Value) (k : Bytes) → J.find (reread v) k ≡ Option.map reread (J.find v k)
  pub get_string-reread : (v : J.Value) → J.get_string (reread v) ≡ J.get_string v
  pub get_int-reread : (v : J.Value) → J.get_int (reread v) ≡ J.get_int v
  pub get_double-reread : (v : J.Value) → J.get_double (reread v) ≡ J.get_double v
  pub get_bool-reread : (v : J.Value) → J.get_bool (reread v) ≡ J.get_bool v
