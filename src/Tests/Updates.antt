-- ===== src/Tests/Updates.antt =====
-- Updates of documents at small values.
use anu_db.Base.{◌≡◌, refl, List, [], ◌∷◌, some, none, Bytes, codes, bytes_eq}
use anu_db.Exec.{returns, gives}
use anu_db.Json.{Json, Kind}
use anu_db.Document.Paths.{set_path, unset_path, turn, has_dot}
use anu_db.Document.Paths.Apart.{Parts, keys, in_member, read_path-unset_path}
use anu_db.Document.Paths.Passing.{passed, set_path_passes_over}
use anu_db.Document.Paths.Nested.{read_path, read_path-set_path}
use anu_db.Document.Update.{apply_update}
use anu_db.Document.Update.Fields.{Reads, after_update, apply_update-after_update}
use anu_db.Tests.Values.{
  values, values-IsLawful, kind_of, tag_of, object_of, find_in, when_kind, fields_of, payload,
}

instance abbrev J : Json
J = values

-- {"a": {"b": "x"}}
abbrev nested : Bytes
nested =
    J.object_value ((codes "a", J.object_value ((codes "b", J.string_value (codes "x")) ∷ [])) ∷ [])

nested_read : read_path (codes "a") (codes "b" ∷ []) nested ≡ some (J.string_value (codes "x"))
unfolding read_path turn kind_of tag_of object_of find_in bytes_eq
nested_read = refl

read_path-set_path_example :
    (w : Bytes) × (set_path (codes "a") (codes "b" ∷ []) (J.string_value (codes "y")) nested
      ≡ gives w)
    × (read_path (codes "a") (codes "b" ∷ []) w ≡ some (J.string_value (codes "y")))
read_path-set_path_example =
    read_path-set_path values-IsLawful (codes "a") (codes "b" ∷ []) (J.string_value (codes "y"))
      (J.string_value (codes "x")) nested nested_read

-- {"a": {"b": "x", "c": "z"}}
abbrev two_members : Bytes
two_members = J.object_value (
    (
      codes "a",
      J.object_value
          ((codes "b", J.string_value (codes "x")) ∷ (codes "c", J.string_value (codes "z")) ∷ []),
    )
    ∷ [])

members_read :
    read_path (codes "a") (codes "b" ∷ []) two_members ≡ some (J.string_value (codes "x"))
unfolding read_path turn kind_of tag_of object_of find_in bytes_eq
members_read = refl

paths_part : Parts (codes "a") (codes "b" ∷ []) (codes "a") (codes "c" ∷ []) two_members
unfolding turn kind_of tag_of object_of find_in bytes_eq
paths_part = in_member refl (keys refl refl)

read_path-unset_path_example :
    (w : Bytes) × (unset_path (codes "a") (codes "b" ∷ []) two_members ≡ gives w)
    × (read_path (codes "a") (codes "b" ∷ []) w ≡ none)
    × (read_path (codes "a") (codes "c" ∷ []) w
        ≡ read_path (codes "a") (codes "c" ∷ []) two_members)
read_path-unset_path_example =
    read_path-unset_path values-IsLawful (codes "a") (codes "b" ∷ []) (codes "a") (codes "c" ∷ [])
      (J.string_value (codes "x")) two_members members_read paths_part

-- {"b": "x"}
abbrev flat : Bytes
flat = J.object_value ((codes "b", J.string_value (codes "x")) ∷ [])

-- The first token of "a.b" leads nowhere there.
a_passed : passed (codes "a") (codes "b" ∷ []) flat ≡ (codes "b", [])
unfolding passed turn kind_of tag_of object_of find_in bytes_eq
a_passed = refl

flat_read :
    read_path
      (passed (codes "a") (codes "b" ∷ []) flat).0
      (passed (codes "a") (codes "b" ∷ []) flat).1
      flat
    ≡ some (J.string_value (codes "x"))
unfolding read_path find_in object_of bytes_eq
flat_read = rw a_passed refl

set_path_passes_over_example :
    (w : Bytes) × (set_path (codes "a") (codes "b" ∷ []) (J.string_value (codes "y")) flat
      ≡ gives w)
    × (read_path
          (passed (codes "a") (codes "b" ∷ []) flat).0
          (passed (codes "a") (codes "b" ∷ []) flat).1
          w
        ≡ some (J.string_value (codes "y")))
set_path_passes_over_example =
    set_path_passes_over values-IsLawful (codes "a") (codes "b" ∷ []) (J.string_value (codes "y"))
      (J.string_value (codes "x")) flat flat_read

-- {"$set": {"a": "y"}, "$push": {"b": "z"}}
abbrev update : Bytes
update = J.object_value (
    (codes "$set", J.object_value ((codes "a", J.string_value (codes "y")) ∷ []))
    ∷ (codes "$push", J.object_value ((codes "b", J.string_value (codes "z")) ∷ []))
    ∷ [])

abbrev operators : List (Bytes × Bytes)
operators =
    (codes "$set", J.object_value ((codes "a", J.string_value (codes "y")) ∷ []))
    ∷ (codes "$push", J.object_value ((codes "b", J.string_value (codes "z")) ∷ []))
    ∷ []

abbrev fields : List (Bytes × List (Bytes × Bytes))
fields =
    (codes "$set", (codes "a", J.string_value (codes "y")) ∷ [])
    ∷ (codes "$push", (codes "b", J.string_value (codes "z")) ∷ [])
    ∷ []

update_items : J.items update ≡ gives operators
unfolding when_kind object_of fields_of payload
update_items = refl

fields_read : Reads operators fields
unfolding has_dot when_kind object_of fields_of payload
fields_read = (refl, refl, (refl, tt), (refl, refl, (refl, tt), tt))

flat_object : J.kind flat ≡ Kind.object
unfolding kind_of tag_of object_of
flat_object = refl

apply_update-after_update_example :
    (w : Bytes) × (apply_update update flat ≡ (returns tt, w))
    × (J.kind w ≡ Kind.object)
    × ((j : Bytes) → J.find w j ≡ after_update fields j (J.find flat j))
apply_update-after_update_example =
    apply_update-after_update values-IsLawful update flat operators fields update_items fields_read
      flat_object
