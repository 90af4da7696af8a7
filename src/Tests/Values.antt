-- ===== src/Tests/Values.antt =====
-- An instance of the JSON parameter: a value is a string of numbers, a tag and a payload, so that
-- MessagePack is the identity. Arrays and objects are chunks with their lengths.
use anu_db.Base.{
  ℕ, zero, suc, ◌≤◌, ◌≡◌, refl, ap, Bool, true, false, List, [], ◌∷◌, ◌++◌, Option, none, some,
  Bytes, Dict, codes, lookup, insert, erase, length, take, drop, set, if◌then◌else◌, ◌==◌, bytes_eq,
  eqb, arith, lookup-insert, lookup-erase, length-append, eq_self, ℤ,
}
use mathlib.Core.Option
use anu_db.Exec.{Try, gives, throws}
use anu_db.Json.{Json, Kind}
use anu_db.Json.Contract.{IsLawful}

-- A chunk is its length and its numbers.
unfoldable pub chunked : List Bytes → Bytes
chunked [] = []
chunked (x ∷ xs) = length x ∷ (x ++ chunked xs)

unfoldable pub unchunked : ℕ → Bytes → List Bytes
unchunked zero bs = []
unchunked (suc f) [] = []
unchunked (suc f) (n ∷ bs) = take n bs ∷ unchunked f (drop n bs)

take-append : (x r : Bytes) → take (length x) (x ++ r) ≡ x
take-append [] [] = refl
take-append [] (c ∷ r) = refl
take-append (c ∷ x) r = ap (◌∷◌ c) (take-append x r)

drop-append : (x r : Bytes) → drop (length x) (x ++ r) ≡ r
drop-append [] r = refl
drop-append (c ∷ x) r = drop-append x r

unchunked-chunked :
    (f : ℕ) (xs : List Bytes) → length (chunked xs) ≤ f → unchunked f (chunked xs) ≡ xs
unfolding chunked unchunked
unchunked-chunked zero [] h = refl
unchunked-chunked (suc f) [] h = refl
unchunked-chunked zero (x ∷ xs) h = absurd (omega arith)
unchunked-chunked (suc f) (x ∷ xs) h =
    rw (take-append, drop-append)
      (ap (◌∷◌ x) (unchunked-chunked f xs (omega (arith, length-append x (chunked xs)))))

unfoldable pub flattened : Dict Bytes → List Bytes
flattened [] = []
flattened ((k, v) ∷ m) = k ∷ v ∷ flattened m

unfoldable pub paired : List Bytes → Dict Bytes
paired [] = []
paired (k ∷ []) = []
paired (k ∷ v ∷ l) = (k, v) ∷ paired l

paired-flattened : (m : Dict Bytes) → paired (flattened m) ≡ m
unfolding paired flattened
paired-flattened [] = refl
paired-flattened ((k, v) ∷ m) = ap (◌∷◌ (k, v)) (paired-flattened m)

unfoldable pub tag_of : Bytes → ℕ
tag_of [] = 0
tag_of (t ∷ p) = t

unfoldable pub payload : Bytes → Bytes
payload [] = []
payload (t ∷ p) = p

unfoldable pub kind_of : ℕ → Kind
kind_of t =
    if eqb t 1
    then Kind.object
    else if eqb t 2
    then Kind.array
    else if eqb t 3
    then Kind.string
    else if eqb t 4
    then Kind.number_integer
    else if eqb t 5
    then Kind.boolean
    else if eqb t 6
    then Kind.number_float
    else Kind.null

unfoldable pub list_of : Bytes → List Bytes
unfolding unchunked
list_of p = unchunked (length p) p

unfoldable pub array_of : List Bytes → Bytes
unfolding chunked
array_of l = 2 ∷ chunked l

unfoldable pub fields_of : Bytes → Dict Bytes
unfolding list_of paired
fields_of p = paired (list_of p)

unfoldable pub object_of : Dict Bytes → Bytes
unfolding chunked flattened
object_of m = 1 ∷ chunked (flattened m)

unfoldable pub find_in : Bytes → Bytes → Option Bytes
unfolding tag_of payload fields_of lookup
find_in v k = if eqb (tag_of v) 1 then lookup k (fields_of (payload v)) else none

unfoldable pub set_in : Bytes → Bytes → Bytes → Try Bytes
unfolding kind_of tag_of payload fields_of object_of insert
set_in v k x = elim (kind_of (tag_of v)) [
  | Kind.object ↦ gives (object_of (insert k x (fields_of (payload v))))
  | Kind.null ↦ gives (object_of (insert k x []))
  | _ ↦ throws (codes "type_error")
]

unfoldable pub erase_in : Bytes → Bytes → Try Bytes
unfolding kind_of tag_of payload fields_of object_of erase
erase_in v k = elim (kind_of (tag_of v)) [
  | Kind.object ↦ gives (object_of (erase k (fields_of (payload v))))
  | _ ↦ throws (codes "type_error")
]

unfoldable pub first_of_fields : Dict Bytes → Option (Bytes × Bytes)
first_of_fields [] = none
first_of_fields (f ∷ fs) = some f

unfoldable pub when_kind : {A : Type 0} → ℕ → Bytes → A → Try A
unfolding tag_of
when_kind t v a = if eqb (tag_of v) t then gives a else throws (codes "type_error")

unfoldable pub or_null : Option Bytes → Bytes
or_null none = 0 ∷ []
or_null (some x) = x

abbrev pub values : Json
values = record {
  Value = Bytes;
  kind = λ v. kind_of (tag_of v);
  get_string = λ v. when_kind 3 v (payload v);
  get_int = λ v. when_kind 4 v (ℤ.pos (tag_of (payload v)));
  get_double = λ v. when_kind 6 v (tag_of (payload v));
  get_bool = λ v. when_kind 5 v (eqb (tag_of (payload v)) 1);
  get_uint32 = λ v. when_kind 4 v (tag_of (payload v));
  null_value = 0 ∷ [];
  string_value = λ s. 3 ∷ s;
  integer_value = λ n. 4 ∷ n ∷ [];
  double_value = λ d. 6 ∷ d ∷ [];
  bool_value = λ b. 5 ∷ (if b then 1 else 0) ∷ [];
  array_value = array_of;
  object_value = object_of;
  items = λ v. when_kind 1 v (fields_of (payload v));
  first_item = λ v. when_kind 1 v (first_of_fields (fields_of (payload v)));
  elements = λ v. list_of (payload v);
  find = find_in;
  at_key = λ v k. when_kind 1 v (or_null (find_in v k));
  set_member = set_in;
  set_element = λ v i x. array_of (set (list_of (payload v)) i x);
  erase_member = erase_in;
  push_back = λ v x. gives (array_of (list_of (payload v) ++ x ∷ []));
  equals = λ v w. v == w;
  to_msgpack = λ v. v;
  from_msgpack = λ b. gives b;
  parse = λ b. gives b;
  dump = λ v. gives v;
}

pub list_of-chunked : (l : List Bytes) → list_of (chunked l) ≡ l
unfolding list_of
list_of-chunked l = unchunked-chunked (length (chunked l)) l (omega arith)

fields_of-object : (m : Dict Bytes) → fields_of (payload (object_of m)) ≡ m
unfolding fields_of object_of payload
fields_of-object m = rw list_of-chunked (paired-flattened m)

pub find_in-object : (m : Dict Bytes) (k : Bytes) → find_in (object_of m) k ≡ lookup k m
unfolding find_in object_of
find_in-object m k = ap (lookup k) (unfold object_of in fields_of-object m)

pub find-set_in :
    (v k j x w : Bytes)
    → set_in v k x ≡ gives w
    → find_in w j ≡ (if j == k then some x else find_in v j)
unfolding set_in
find-set_in v k j x w h = go (eqb (tag_of v) 1) refl
  where
    go : (b : Bool) → eqb (tag_of v) 1 ≡ b → find_in w j ≡ (if j == k then some x else find_in v j)
    go true t =
        let w_is : w ≡ object_of (insert k x (fields_of (payload v))) = ground arith in
        let f : find_in v j ≡ lookup j (fields_of (payload v)) = unfold find_in in ground arith in
        rw (w_is, find_in-object, lookup-insert, f)
    go false t =
        let w_is : w ≡ object_of (insert k x []) = ground arith in
        let f : find_in v j ≡ none = unfold find_in in ground arith in
        rw (w_is, find_in-object, lookup-insert, f) (unfold lookup in refl)

pub find-erase_in :
    (v k j w : Bytes)
    → erase_in v k ≡ gives w
    → find_in w j ≡ (if j == k then none else find_in v j)
unfolding erase_in
find-erase_in v k j w h =
    let t : eqb (tag_of v) 1 ≡ true = ground arith in
    let w_is : w ≡ object_of (erase k (fields_of (payload v))) = ground arith in
    let f : find_in v j ≡ lookup j (fields_of (payload v)) = unfold find_in in ground arith in
    rw (w_is, find_in-object, lookup-erase, f)

pub map_same : (o : Option Bytes) → o ≡ Option.map (λ v. v) o
map_same none = refl
map_same (some x) = refl

or_null-get_or : (o : Option Bytes) → or_null o ≡ Option.get_or o (0 ∷ [])
unfolding or_null
or_null-get_or none = refl
or_null-get_or (some x) = refl

pub at_object :
    (v k : Bytes)
    → kind_of (tag_of v) ≡ Kind.object
    → when_kind 1 v (or_null (find_in v k)) ≡ gives (Option.get_or (find_in v k) (0 ∷ []))
unfolding kind_of when_kind
at_object v k h =
    let t : eqb (tag_of v) 1 ≡ true = ground arith in rw t (ap gives (or_null-get_or (find_in v k)))

unfoldable pub values-IsLawful : IsLawful values
unfolding set_in erase_in find_in kind_of tag_of when_kind object_of array_of payload
values-IsLawful = record {
  find_object = λ v k x h. ground arith;
  set_member_object = λ v k x h. (object_of (insert k x (fields_of (payload v))), ground arith);
  set_member_null = λ v k x h. (object_of (insert k x []), ground arith);
  kind-set_member = λ v k x w h. ground arith;
  find-set_member = find-set_in;
  erase_member_object = λ v k h. (object_of (erase k (fields_of (payload v))), ground arith);
  kind-erase_member = λ v k w h. ground arith;
  find-erase_member = find-erase_in;
  at_key_object = λ v k h. at_object v k h;
  kind-object_value = λ l. refl;
  find-object_value = find_in-object;
  kind-null_value = refl;
  kind-array_value = λ l. refl;
  elements-array_value = λ l. list_of-chunked l;
  push_back_array = λ v x h. (array_of (list_of (payload v) ++ x ∷ []), refl);
  kind-push_back = λ v x w h e. ground arith;
  elements-push_back = λ v x w h e.
      let w_is : w ≡ array_of (list_of (payload v) ++ x ∷ []) = cc in rw w_is (list_of-chunked _);
  elements-set_element = λ v i x h. list_of-chunked _;
  kind-set_element = λ v i x h. refl;
  kind-string_value = λ s. refl;
  get_string-string_value = λ s. refl;
  reread = λ v. v;
  from_msgpack-to_msgpack = λ v. refl;
  equals-reread = λ v. eq_self v;
  kind-reread = λ v. refl;
  find-reread = λ v k. map_same (find_in v k);
  get_string-reread = λ v. refl;
  get_int-reread = λ v. refl;
  get_double-reread = λ v. refl;
  get_bool-reread = λ v. refl;
}
